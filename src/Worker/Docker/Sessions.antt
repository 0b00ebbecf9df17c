-- ===== src/Worker/Docker/Sessions.antt =====
-- worker/src/agentrl/worker/environment/docker.py: sessions, which hold containers that are their own
-- and containers that they share.
use agent_rl.Common.{
  ℕ, zero, suc, Bool, true, false, not, ◌&&◌, ◌||◌, Option, none, some, List, [], ◌∷◌, ◌++◌, map,
  String, string_eq, ◌==◌, ltb, leb, contains, if◌then◌else◌,
}
use agent_rl.Common.Table.{Table, get, put}
use agent_rl.Worker.Provider.{SessionData, StateProvider}
use agent_rl.Worker.Docker.{
  Container, ok, raises, Url, DockerApi, Delegation, Action, pure, fail, waiting, ◌>>=◌, ◌>>◌,
  change, asks, drawn,
}
use agent_rl.Worker.Docker.Containers.{
  create_container, delete_container, container_url, identify_containers, wait_for_health, for_each,
}

-- A session that starts: its containers, its own among them, and the subtypes that it shares
pub record Starting : Type 0 where
  pub containers : Table String String
  pub own : Table String String
  pub to_share : List String

abbrev pub values : Table String String → List String
values t = map (λ (e : String × String). e.1) t

-- `0 < limit <= uses`
abbrev pub is_reached : (limit uses : ℕ) → Bool
is_reached limit uses = ltb 0 limit && leb limit uses

module _ {D S : Type 0} (api : DockerApi D) (task : Delegation D) (provider : StateProvider S) where
  -- The first container with room for one more session
  unfoldable pub select : (subtype : String) → List Container → S → Option String
  select t [] st = none
  select t (c ∷ cs) st =
      let later = select t cs st in
      if is_reached (task.reuse_limit t) (provider.container_total_uses c.id st)
      then later
      else if is_reached (task.concurrency_limit t) (provider.container_current_uses c.id st)
      then later
      else some c.id

  -- `allocate_container` of the provider, which may raise
  abbrev pub changed_to : Option S → Action D S (Unit {0})
  changed_to none w = (raises, w)
  changed_to (some st) w = (ok tt, record w { state = st })

  abbrev pub allocate : (container session : String) → Action D S (Unit {0})
  allocate c s w = changed_to (provider.allocate_container c s w.state) w

  abbrev pub take : (session : String) → Option String → Action D S (Option String)
  take s none = pure none
  take s (some c) = do allocate c s; pure (some c)

  -- The block under the lock of the subtype
  unfoldable pub allocate_shared :
      (subtype session : String) → List Container → Action D S (Option String)
  allocate_shared t s cs w = take s (select t cs w.state) w

  abbrev pub or_else : Action D S String → Option String → Action D S String
  or_else m (some c) = pure c
  or_else m none = m

  -- The loop of one subtype, with a bound on its rounds
  unfoldable pub share :
      (rounds : ℕ) → (subtype session : String) → List Container → Action D S String
  share zero t s cs = waiting
  share (suc rounds) t s cs = do
    selected ← allocate_shared t s cs
    or_else
        (do
          fresh ← create_container api task t [] false
          share rounds t s (cs ++ record { id = fresh; depends_on = [] } ∷ []))
        selected

  abbrev pub is_own : (immutable : Bool) → String → Bool
  is_own immutable t = task.reuse_limit t == 1 || (not (task.reuse_limit t == 0) && not immutable)

  -- The first loop: containers of the session's own
  unfoldable pub allocate_own :
      (immutable : Bool) → (session : String) → List String → Starting → Action D S Starting
  allocate_own immutable s [] start = pure start
  allocate_own immutable s (t ∷ ts) start =
      if is_own immutable t
      then (do
        c ← create_container api task t [] true
        allocate c s
        allocate_own immutable s ts
            (record start { containers = put t c start.containers; own = put t c start.own }))
      else allocate_own immutable s ts (record start { to_share = start.to_share ++ t ∷ [] })

  abbrev pub candidates_of : String → Table String (List Container) → List Container
  candidates_of t found = elim (get t found) [ none ↦ [] | some cs ↦ cs ]

  -- The second loop
  unfoldable pub share_all :
      (rounds : ℕ)
      → (session : String) → Table String (List Container)
      → List String
      → Starting
      → Action D S Starting
  share_all rounds s found [] start = pure start
  share_all rounds s found (t ∷ ts) start = do
    cs ← drawn (api.shuffle (candidates_of t found))
    c ← share rounds t s cs
    share_all rounds s found ts (record start { containers = put t c start.containers })

  unfoldable pub urls : Table String String → Action D S (Table String Url)
  urls [] = pure []
  urls ((t, c) ∷ rest) = do u ← container_url api task c t; us ← urls rest; pure ((t, u) ∷ us)

  abbrev pub add_homepage : (session : String) → Starting → Option String → Action D S Starting
  add_homepage s start none = pure start
  add_homepage s start (some t) = do
    us ← urls start.containers
    c ← create_container api task t (task.homepage_envs us) true
    allocate c s
    pure (record start { containers = put t c start.containers; own = put t c start.own })

  unfoldable pub are_valid : List String → Bool
  are_valid [] = true
  are_valid (t ∷ ts) = contains task.subtypes t && are_valid ts

  -- `start_session` for a list of subtypes that are all different, with bounds on the rounds and on the looks for health
  unfoldable pub start_session :
      (rounds looks : ℕ)
      → List String
      → (immutable : Bool) → Action D S (String × Table String String × Table String Url)
  start_session rounds looks ts immutable =
      if are_valid ts
      then (do
        s ← drawn api.uuid
        begun ← allocate_own immutable s ts (record { containers = []; own = []; to_share = [] })
        found ← identify_containers api begun.to_share
        shared ← share_all rounds s found begun.to_share begun
        start ← add_homepage s shared task.homepage
        change (
            provider.store_session s
              (record { containers = start.containers; exclusive_containers = values start.own }))
        wait_for_health api looks (values start.containers)
        us ← urls start.containers
        pure (s, start.containers, us))
      else fail

  abbrev pub renew_found : (session : String) → Option SessionData → Action D S (Unit {0})
  renew_found s none = pure tt
  renew_found s (some data_of) =
      for_each (λ c. change (provider.renew_container c s)) (values data_of.containers)

  -- `renew_session`
  unfoldable pub renew_session : String → Action D S (Unit {0})
  renew_session s = do
    change (provider.renew_session s)
    found ← asks (provider.get_session s)
    renew_found s found

  abbrev pub release_unless : List String → (session : String) → String → Action D S (Unit {0})
  release_unless own s c =
      if contains own c then pure tt else change (provider.release_container c s)

  abbrev pub end_found :
      (depth : ℕ) → (session : String) → Option SessionData → Action D S (Unit {0})
  end_found depth s none = pure tt
  end_found depth s (some data_of) = do
    for_each (release_unless data_of.exclusive_containers s) (values data_of.containers)
    for_each (delete_container api provider depth) data_of.exclusive_containers

  -- `end_session`, with the depth to which containers depend on others
  unfoldable pub end_session : (depth : ℕ) → String → Action D S (Unit {0})
  end_session depth s = do
    found ← asks (provider.get_session s)
    end_found depth s found
    change (provider.delete_session s)
