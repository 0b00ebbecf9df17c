-- ===== src/Worker/Docker/Containers.antt =====
-- worker/src/agentrl/worker/environment/docker.py: containers, one by one.
use agent_rl.Common.{
  ℕ, zero, suc, Bool, true, false, Option, none, some, List, [], ◌∷◌, String, string_eq, ◌==◌, ltb,
  ◌||◌, if◌then◌else◌,
}
use agent_rl.Common.Table.{Table, get, put}
use agent_rl.Worker.Provider.{StateProvider}
use agent_rl.Worker.State.{discard}
use agent_rl.Worker.Docker.{
  Outcome, Container, ok, docker_error, client_error, timeout_error, Attrs, shared, exclusive,
  unhealthy_shared, not_started, not_healthy, Url, address_of, http, http_port, DockerApi,
  Delegation, Action, pure, fail, waiting, outcome, catch, ◌>>=◌, ◌>>◌, docker_call, change, asks,
  drawn, of_task,
}

abbrev pub url_of : String → Option ℕ → Url
url_of ip none = address_of ip
url_of ip (some port) = if port == 80 then http ip else http_port ip port

-- `len(containers) > 0`
abbrev pub is_some_of : List Container → Bool
is_some_of [] = false
is_some_of (c ∷ cs) = true

-- What the attributes of a container are before the task configures them
abbrev pub bare_attrs : String → String → Bool → Attrs
bare_attrs name subtype is_exclusive = record {
  name = name;
  env = [];
  subtype = subtype;
  is_exclusive = is_exclusive;
  image = none;
}

abbrev pub put_all : Table String String → Table String String → Table String String
put_all [] env = env
put_all ((k, v) ∷ extra) env = put_all extra (put k v env)

module _ {D S : Type 0} where
  -- A timeout is the first exception again.
  abbrev pub as_missing : Outcome (Unit {0}) → Action D S (Unit {0})
  as_missing timeout_error = outcome (docker_error 404)
  as_missing o = outcome o

  abbrev pub or_unlabelled : Outcome (List String) → Action D S (List String)
  or_unlabelled (docker_error status) = pure []
  or_unlabelled o = outcome o

  abbrev pub or_gone : Outcome (Unit {0}) → Action D S (Unit {0})
  or_gone (docker_error status) = pure tt
  or_gone client_error = pure tt
  or_gone o = outcome o

  -- The image that the task configures, or that of the subtype, where a missing one is a KeyError
  abbrev pub choose_image : Attrs → Option String → Option String → Action D S (Attrs × String)
  choose_image attrs (some i) of_subtype = pure (attrs, i)
  choose_image attrs none (some i) = pure (record attrs { image = some i }, i)
  choose_image attrs none none = fail

  abbrev pub close_shell : String → Action D S (Unit {0})
  close_shell container w = (ok tt, record w { shells = discard container w.shells })

  unfoldable pub for_each :
      {A : Type 0} → (A → Action D S (Unit {0})) → List A → Action D S (Unit {0})
  for_each act [] = pure tt
  for_each act (a ∷ rest) = act a >> for_each act rest

module _ {D S : Type 0} (api : DockerApi D) where
  -- The image is pulled when the daemon does not find it.
  unfoldable pub pulled : String → Action D S (Unit {0})
  pulled image = catch as_missing (docker_call true (api.pull image))

  abbrev pub or_pull : Attrs → String → Outcome String → Action D S String
  or_pull attrs image (docker_error status) =
      if status == 404
      then pulled image >> docker_call false (api.create attrs)
      else outcome (docker_error status)
  or_pull attrs image o = outcome o

  unfoldable pub created : Attrs → String → Action D S String
  created attrs image = catch (or_pull attrs image) (docker_call false (api.create attrs))

  -- The labels of a container that is deleted by its id: none, when it does not load
  unfoldable pub loaded : String → Action D S (List String)
  loaded container = catch or_unlabelled (docker_call true (api.depends_on container))

  -- `_delete`, of which only timeouts are not caught
  unfoldable pub deleted : String → Action D S (Unit {0})
  deleted container = catch or_gone (docker_call false (api.delete container))

  -- `_identify_containers` of some subtypes
  unfoldable pub identify_containers : List String → Action D S (Table String (List Container))
  identify_containers [] = pure []
  identify_containers (t ∷ ts) = do
    cs ← docker_call true (api.list (shared t))
    rest ← identify_containers ts
    pure ((t, cs) ∷ rest)

  -- `_wait_for_health`, with a bound on how often it looks
  unfoldable pub wait_for_health : (looks : ℕ) → List String → Action D S (Unit {0})
  wait_for_health zero ids = waiting
  wait_for_health (suc looks) ids = do
    young ← docker_call true (api.list (not_started ids))
    let again = wait_for_health looks ids
    if is_some_of young then again else do
      ill ← docker_call true (api.list (not_healthy ids))
      if is_some_of ill then again else pure tt

module _ {D S : Type 0} (api : DockerApi D) (task : Delegation D) where
  -- `create_container`; the hook after it runs on its own.
  unfoldable pub create_container : String → Table String String → Bool → Action D S String
  create_container subtype extra_envs is_exclusive = do
    name ← drawn api.uuid
    attrs ← of_task (task.configure (bare_attrs name subtype is_exclusive))
    (attrs, image) ← choose_image attrs attrs.image (get subtype task.images)
    container ← created api (record attrs { env = put_all extra_envs attrs.env }) image
    of_task (api.start container)
    pure container

  -- `get_container_url` of a container that is known
  unfoldable pub container_url : (container subtype : String) → Action D S Url
  container_url container subtype = do
    ip ← of_task (api.address container)
    pure (url_of ip (task.service_port subtype))

module _ {D S : Type 0} (api : DockerApi D) (provider : StateProvider S) where
  -- `delete_container` once the labels are known, with the deletion of what it depends on
  unfoldable pub delete_labelled :
      (String → Action D S (Unit {0})) → String → List String → Action D S (Unit {0})
  delete_labelled delete_other container deps = do
    close_shell container
    for_each delete_other deps
    deleted api container
    change (provider.remove_container container)

  -- `delete_container` of an id, with a bound on how deep dependencies go
  unfoldable pub delete_container : (depth : ℕ) → String → Action D S (Unit {0})
  delete_container zero container = waiting
  delete_container (suc depth) container = do
    deps ← loaded api container
    delete_labelled (delete_container depth) container deps

  unfoldable pub delete_listed : (depth : ℕ) → Container → Action D S (Unit {0})
  delete_listed depth c = delete_labelled (delete_container depth) c.id c.depends_on

  unfoldable pub delete_unallocated : (depth : ℕ) → Container → Action D S (Unit {0})
  delete_unallocated depth c = do
    used ← asks (provider.container_is_allocated c.id)
    if used then pure tt else delete_listed depth c

  unfoldable pub delete_worn : (depth limit : ℕ) → Container → Action D S (Unit {0})
  delete_worn depth limit c = do
    used ← asks (provider.container_is_allocated c.id)
    total ← asks (provider.container_total_uses c.id)
    if used || ltb total limit then pure tt else delete_listed depth c

module _ {D S : Type 0} (api : DockerApi D) (task : Delegation D) (provider : StateProvider S) where
  abbrev pub clean_worn : (depth : ℕ) → String × List Container → Action D S (Unit {0})
  clean_worn depth (t, cs) =
      if task.reuse_limit t == 0
      then pure tt
      else for_each (delete_worn api provider depth (task.reuse_limit t)) cs

  -- `_clean_containers`
  unfoldable pub clean_containers : (depth : ℕ) → Action D S (Unit {0})
  clean_containers depth = do
    cs ← docker_call true (api.list exclusive)
    for_each (delete_unallocated api provider depth) cs
    ds ← docker_call true (api.list unhealthy_shared)
    for_each (delete_unallocated api provider depth) ds
    found ← identify_containers api task.subtypes
    for_each (clean_worn depth) found
