-- ===== src/Worker/Docker/Creating.antt =====
-- What the creation of a container ensures, if what it calls does.
use agent_rl.Common.{
  ◌≡◌, refl, ◌∙◌, Bool, false, Option, none, some, String, string_eq, ◌==◌, if◌then◌else◌,
}
use mathlib.Core.Path.{subst}
use agent_rl.Common.Table.{Table, get}
use agent_rl.Worker.Docker.{
  Outcome, docker_error, timeout_error, raises, Attrs, DockerApi, Delegation, World, docker_call,
  attempt, drawn, of_task, reset_client,
}
use agent_rl.Worker.Docker.Triples.{
  Value, Anything, any_value, Ensures, outcome-Ensures, pure-Ensures, catch-Ensures, bind-Ensures,
  if-Ensures, attempts-Ensures,
}
use agent_rl.Worker.Docker.Containers.{
  create_container, choose_image, created, pulled, as_missing, or_pull, put_all, bare_attrs,
}

-- The labels of a container: the subtype of one that is shared, none of an exclusive one
abbrev pub kind_of : Attrs → Option String
kind_of a = if a.is_exclusive then none else some a.subtype

-- What the calls ensure that a creation makes, where Made is about a container that was made with labels.
pub record Creates {D S : Type 0} (api : DockerApi D) (task : Delegation D) (J : World D S → Type 0)
    (Made : Option String → String → Type 0) : Type 0 where
  pub reset : (w : World D S) → J w → J (reset_client w)
  pub drawn_name : Ensures J Anything (drawn api.uuid)
  pub configured : (a : Attrs) → Ensures J (λ b. kind_of b ≡ kind_of a) (of_task (task.configure a))
  pub made : (a : Attrs) → Ensures J (Made (kind_of a)) (attempt (api.create a))
  pub pulled_image : (i : String) → Ensures J Anything (attempt (api.pull i))
  pub started : (c : String) → Ensures J Anything (of_task (api.start c))

module _ {D S : Type 0} (api : DockerApi D) (task : Delegation D) (J : World D S → Type 0)
    (Made : Option String → String → Type 0) (creates : Creates api task J Made) where
  as_missing-Ensures : (o : Outcome (Unit {0})) → Ensures J Anything (as_missing o)
  as_missing-Ensures timeout_error = outcome-Ensures (docker_error 404) tt
  as_missing-Ensures o = outcome-Ensures o (any_value o)

  pulled-Ensures : (image : String) → Ensures J Anything (pulled api image)
  unfolding pulled
  pulled-Ensures image =
      catch-Ensures (attempts-Ensures (api.pull image) creates.reset (creates.pulled_image image) 1)
        (λ o v. as_missing-Ensures o)

  create-Ensures :
      (attrs : Attrs) → Ensures J (Made (kind_of attrs)) (docker_call false (api.create attrs))
  create-Ensures attrs = attempts-Ensures (api.create attrs) creates.reset (creates.made attrs) 0

  or_pull-Ensures :
      (attrs : Attrs) (image : String) (o : Outcome String)
      → Value (Made (kind_of attrs)) o
      → Ensures J (Made (kind_of attrs)) (or_pull api attrs image o)
  or_pull-Ensures attrs image (docker_error status) v =
      if-Ensures (status == 404)
        (λ _. bind-Ensures (pulled-Ensures image) (λ a u. create-Ensures attrs))
        (λ _. outcome-Ensures (docker_error status) tt)
  or_pull-Ensures attrs image o v = outcome-Ensures o v

  created-Ensures :
      (attrs : Attrs) (image : String) → Ensures J (Made (kind_of attrs)) (created api attrs image)
  unfolding created
  created-Ensures attrs image = catch-Ensures (create-Ensures attrs) (or_pull-Ensures attrs image)

  choose_image-Ensures :
      (attrs : Attrs) (i j : Option String)
      → Ensures J (λ (r : Attrs × String). kind_of r.0 ≡ kind_of attrs) (choose_image attrs i j)
  choose_image-Ensures attrs (some i) j = pure-Ensures (attrs, i) refl
  choose_image-Ensures attrs none (some i) = pure-Ensures (record attrs { image = some i }, i) refl
  choose_image-Ensures attrs none none = outcome-Ensures raises tt

  made_as : (k : Option String) (l : Option String) (c : String) → k ≡ l → Made k c → Made l c
  made_as k l c e m = subst (λ x. Made x c) e m

  pub create_container-Ensures :
      (t : String) (extra : Table String String) (is_exclusive : Bool)
      → Ensures J
          (Made (if is_exclusive then none else some t))
          (create_container api task t extra is_exclusive)
  unfolding create_container
  create_container-Ensures t extra is_exclusive = bind-Ensures creates.drawn_name (λ name u.
      bind-Ensures (creates.configured (bare_attrs name t is_exclusive)) (λ attrs e.
        bind-Ensures (choose_image-Ensures attrs attrs.image (get t task.images)) (λ r f.
          bind-Ensures (created-Ensures (record r.0 { env = put_all extra r.0.env }) r.1) (λ c g.
            bind-Ensures (creates.started c) (λ o v. pure-Ensures c (made_as _ _ c (f ∙ e) g))))))
