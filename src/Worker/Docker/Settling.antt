-- ===== src/Worker/Docker/Settling.antt =====
-- The creation of a container ends, if what it calls does.
use agent_rl.Common.{
  ℕ, zero, suc, ◌≡◌, refl, Bool, true, false, ◌==◌, Option, none, some, String, string_eq,
  if◌then◌else◌, arith,
}
use agent_rl.Common.Table.{Table, get}
use agent_rl.Worker.Provider.{StateProvider}
use agent_rl.Worker.Docker.{
  Outcome, ok, docker_error, client_error, timeout_error, raises, waits, Attrs, DockerApi,
  Delegation, World, Action, go_on, outcome, catch, ◌>>=◌, attempts, or_retry, is_retryable,
}
use agent_rl.Worker.Docker.Triples.{Value}
use agent_rl.Worker.Docker.Containers.{
  create_container, choose_image, created, pulled, as_missing, or_pull, put_all,
}
use agent_rl.Worker.Docker.Creating.{kind_of}

abbrev pub is_waiting : {A : Type 0} → Outcome A → Bool
is_waiting waits = true
is_waiting _ = false

-- An action that ends, with a value or an exception
pub record Settles {D S A : Type 0} (m : Action D S A) : Type 0 where
  pub settled : (w : World D S) → is_waiting (m w).0 ≡ false

module _ {D S : Type 0} where
  outcome-Settles :
      {A : Type 0} (o : Outcome A) → is_waiting o ≡ false → Settles {D = D} {S = S} (outcome o)
  outcome-Settles o e = record { settled = λ w. e }

  catch-Settles :
      {A B : Type 0} {m : Action D S A} {h : Outcome A → Action D S B}
      → Settles m
      → ((o : Outcome A) → is_waiting o ≡ false → Settles (h o))
      → Settles (catch h m)
  catch-Settles {m = m} e k = record { settled = λ w. (k (m w).0 (e.settled w)).settled (m w).1 }

  go_on-Settles :
      {A B : Type 0} {f : A → Action D S B}
      → ((a : A) → Settles (f a))
      → (o : Outcome A) → is_waiting o ≡ false
      → Settles (go_on f o)
  go_on-Settles k (ok a) e = k a
  go_on-Settles k (docker_error status) e = outcome-Settles (docker_error status) refl
  go_on-Settles k client_error e = outcome-Settles client_error refl
  go_on-Settles k timeout_error e = outcome-Settles timeout_error refl
  go_on-Settles k raises e = outcome-Settles raises refl
  go_on-Settles k waits e = absurd (ground (arith, e))

  bind-Settles :
      {A B : Type 0} {m : Action D S A} {f : A → Action D S B}
      → Settles m
      → ((a : A) → Settles (f a))
      → Settles (m >>= f)
  unfolding ◌>>=◌
  bind-Settles e k = catch-Settles e (go_on-Settles k)

  if-Settles :
      {A : Type 0} {m n : Action D S A} (b : Bool)
      → Settles m
      → Settles n
      → Settles (if b then m else n)
  if-Settles true e k = e
  if-Settles false e k = k

  or_retry-Settles :
      {A : Type 0} {again : Action D S A}
      → Settles again
      → (o : Outcome A) → is_waiting o ≡ false
      → Settles (or_retry again o)
  or_retry-Settles e (ok a) n = outcome-Settles (ok a) refl
  or_retry-Settles e (docker_error status) n =
      if-Settles (is_retryable status) (record { settled = λ w. e.settled _ })
        (outcome-Settles (docker_error status) refl)
  or_retry-Settles e client_error n = record { settled = λ w. e.settled _ }
  or_retry-Settles e timeout_error n = record { settled = λ w. e.settled _ }
  or_retry-Settles e raises n = outcome-Settles raises refl
  or_retry-Settles e waits n = absurd (ground (arith, n))

  attempts-Settles :
      {A : Type 0} (retries : ℕ) (operation : D → Outcome A × D)
      → ((d : D) → is_waiting (operation d).0 ≡ false)
      → Settles {D = D} {S = S} (attempts retries operation)
  unfolding attempts
  attempts-Settles zero operation e = record { settled = λ w. e w.daemon }
  attempts-Settles (suc retries) operation e =
      catch-Settles (record { settled = λ w. e w.daemon })
        (or_retry-Settles (attempts-Settles retries operation e))

-- What the code relies on of the daemon and the task from some time on, when the provider is in a state:
-- calls end, a task leaves the labels, and a container that is made has an id that the provider does
-- not know.
pub record MakesNew {D S : Type 0} (api : DockerApi D) (task : Delegation D)
    (provider : StateProvider S) (st : S) : Type 1 where
  pub later : D → Type 0
  pub later_uuid : (d : D) → later d → later (api.uuid d).1
  pub later_create : (a : Attrs) (d : D) → later d → later (api.create a d).1
  pub later_pull : (i : String) (d : D) → later d → later (api.pull i d).1
  pub later_start : (c : String) (d : D) → later d → later (api.start c d).1
  pub later_configure : (a : Attrs) (d : D) → later d → later (task.configure a d).1
  pub configured : (a : Attrs) (d : D) → Value (λ b. kind_of b ≡ kind_of a) (task.configure a d).0
  pub made_new :
      (a : Attrs) (d : D)
      → later d
      → Value
          (λ c.
            (provider.container_total_uses c st ≡ 0) × (provider.container_current_uses c st ≡ 0))
          (api.create a d).0
  pub create_ends : (a : Attrs) (d : D) → is_waiting (api.create a d).0 ≡ false
  pub pull_ends : (i : String) (d : D) → is_waiting (api.pull i d).0 ≡ false
  pub start_ends : (c : String) (d : D) → is_waiting (api.start c d).0 ≡ false
  pub configure_ends : (a : Attrs) (d : D) → is_waiting (task.configure a d).0 ≡ false

module _ {D S : Type 0} (api : DockerApi D) (task : Delegation D) (provider : StateProvider S)
    (st : S) (new : MakesNew api task provider st) where
  as_missing-Settles :
      (o : Outcome (Unit {0})) → is_waiting o ≡ false → Settles {D = D} {S = S} (as_missing o)
  as_missing-Settles timeout_error e = outcome-Settles (docker_error 404) refl
  as_missing-Settles o e = outcome-Settles o e

  or_pull-Settles :
      (attrs : Attrs) (image : String) (o : Outcome String)
      → is_waiting o ≡ false
      → Settles {D = D} {S = S} (or_pull api attrs image o)
  unfolding pulled
  or_pull-Settles attrs image (docker_error status) e =
      if-Settles (status == 404)
        (bind-Settles
          (catch-Settles (attempts-Settles 1 (api.pull image) (new.pull_ends image))
            as_missing-Settles)
          (λ _. attempts-Settles 0 (api.create attrs) (new.create_ends attrs)))
        (outcome-Settles (docker_error status) refl)
  or_pull-Settles attrs image o e = outcome-Settles o e

  choose_image-Settles :
      (attrs : Attrs) (i j : Option String) → Settles {D = D} {S = S} (choose_image attrs i j)
  choose_image-Settles attrs (some i) j = outcome-Settles (ok (attrs, i)) refl
  choose_image-Settles attrs none (some i) =
      outcome-Settles (ok (record attrs { image = some i }, i)) refl
  choose_image-Settles attrs none none = outcome-Settles raises refl

  pub create_container-Settles :
      (t : String) (extra : Table String String) (is_exclusive : Bool)
      → Settles {D = D} {S = S} (create_container api task t extra is_exclusive)
  unfolding create_container created
  create_container-Settles t extra is_exclusive =
      bind-Settles (record { settled = λ w. refl })
        (λ name.
          bind-Settles (record { settled = λ w. new.configure_ends _ w.daemon })
            (λ attrs.
              bind-Settles (choose_image-Settles attrs attrs.image (get t task.images)) (λ r.
                bind-Settles
                  (catch-Settles
                    (attempts-Settles 0 (api.create (record r.0 { env = put_all extra r.0.env }))
                      (new.create_ends (record r.0 { env = put_all extra r.0.env })))
                    (or_pull-Settles (record r.0 { env = put_all extra r.0.env }) r.1))
                  (λ c.
                    bind-Settles (record { settled = λ w. new.start_ends c w.daemon })
                      (λ _. outcome-Settles (ok c) refl)))))
