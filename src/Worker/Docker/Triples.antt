-- ===== src/Worker/Docker/Triples.antt =====
-- What an action keeps of the world and ensures of its value, whatever its outcome is.
use agent_rl.Common.{ℕ, zero, suc, ◌≡◌, refl, Bool, true, false, List, [], ◌∷◌, if◌then◌else◌}
use agent_rl.Worker.Docker.{
  Outcome, ok, docker_error, client_error, timeout_error, raises, waits, World, Action, pure, go_on,
  ◌>>=◌, reset_client, attempt, attempts, is_retryable, outcome, catch, or_retry, after_reset,
}
use agent_rl.Worker.Docker.Containers.{for_each}

-- Of a value, if there is one
abbrev pub Value : {A : Type 0} → (A → Type 0) → Outcome A → Type 0
Value V (ok a) = V a
Value V (docker_error status) = Unit {0}
Value V client_error = Unit {0}
Value V timeout_error = Unit {0}
Value V raises = Unit {0}
Value V waits = Unit {0}

abbrev pub Anything : {A : Type 0} → A → Type 0
Anything a = Unit {0}

pub any_value : {A : Type 0} (o : Outcome A) → Value Anything o
any_value (ok a) = tt
any_value (docker_error status) = tt
any_value client_error = tt
any_value timeout_error = tt
any_value raises = tt
any_value waits = tt

-- From every world that J holds of, J holds of the one in which the action ends, and V of its value.
pub record Ensures {D S A : Type 0} (J : World D S → Type 0) (V : A → Type 0) (m : Action D S A)
    : Type 0 where
  pub holds : (w : World D S) → J w → J (m w).1 × Value V (m w).0

module _ {D S : Type 0} {J : World D S → Type 0} where
  pub outcome-Ensures :
      {A : Type 0} {V : A → Type 0} (o : Outcome A) → Value V o → Ensures J V (outcome o)
  outcome-Ensures o v = record { holds = λ w j. (j, v) }

  pub pure-Ensures : {A : Type 0} {V : A → Type 0} (a : A) → V a → Ensures J V (pure a)
  pure-Ensures a v = record { holds = λ w j. (j, v) }

  pub catch-Ensures :
      {A B : Type 0} {V : A → Type 0} {R : B → Type 0} {m : Action D S A}
      {h : Outcome A → Action D S B}
      → Ensures J V m
      → ((o : Outcome A) → Value V o → Ensures J R (h o))
      → Ensures J R (catch h m)
  catch-Ensures {m = m} e k = record {
    holds = λ w j. let (i, v) = e.holds w j in (k (m w).0 v).holds (m w).1 i;
  }

  pub go_on-Ensures :
      {A B : Type 0} {V : A → Type 0} {R : B → Type 0} {f : A → Action D S B}
      → ((a : A) → V a → Ensures J R (f a))
      → (o : Outcome A) → Value V o
      → Ensures J R (go_on f o)
  go_on-Ensures k (ok a) v = k a v
  go_on-Ensures k (docker_error status) v = outcome-Ensures (docker_error status) tt
  go_on-Ensures k client_error v = outcome-Ensures client_error tt
  go_on-Ensures k timeout_error v = outcome-Ensures timeout_error tt
  go_on-Ensures k raises v = outcome-Ensures raises tt
  go_on-Ensures k waits v = outcome-Ensures waits tt

  pub bind-Ensures :
      {A B : Type 0} {V : A → Type 0} {R : B → Type 0} {m : Action D S A} {f : A → Action D S B}
      → Ensures J V m
      → ((a : A) → V a → Ensures J R (f a))
      → Ensures J R (m >>= f)
  unfolding ◌>>=◌
  bind-Ensures e k = catch-Ensures e (go_on-Ensures k)

  pub if-Ensures :
      {A : Type 0} {V : A → Type 0} {m n : Action D S A} (b : Bool)
      → (b ≡ true → Ensures J V m)
      → (b ≡ false → Ensures J V n)
      → Ensures J V (if b then m else n)
  if-Ensures true e k = e refl
  if-Ensures false e k = k refl

  after_reset-Ensures :
      {A : Type 0} {V : A → Type 0} {m : Action D S A}
      → ((w : World D S) → J w → J (reset_client w))
      → Ensures J V m
      → Ensures J V (after_reset m)
  after_reset-Ensures r e = record { holds = λ w j. e.holds (reset_client w) (r w j) }

  or_retry-Ensures :
      {A : Type 0} {V : A → Type 0} {again : Action D S A}
      → ((w : World D S) → J w → J (reset_client w))
      → Ensures J V again
      → (o : Outcome A) → Value V o
      → Ensures J V (or_retry again o)
  or_retry-Ensures r e (ok a) v = pure-Ensures a v
  or_retry-Ensures r e (docker_error status) v =
      if-Ensures (is_retryable status) (λ _. after_reset-Ensures r e)
        (λ _. outcome-Ensures (docker_error status) tt)
  or_retry-Ensures r e client_error v = after_reset-Ensures r e
  or_retry-Ensures r e timeout_error v = after_reset-Ensures r e
  or_retry-Ensures r e raises v = outcome-Ensures raises tt
  or_retry-Ensures r e waits v = outcome-Ensures waits tt

  pub attempts-Ensures :
      {A : Type 0} {V : A → Type 0} (operation : D → Outcome A × D)
      → ((w : World D S) → J w → J (reset_client w))
      → Ensures J V (attempt operation)
      → (retries : ℕ) → Ensures J V (attempts retries operation)
  unfolding attempts
  attempts-Ensures operation r e zero = e
  attempts-Ensures operation r e (suc retries) =
      catch-Ensures e (or_retry-Ensures r (attempts-Ensures operation r e retries))

  pub for_each-Ensures :
      {A : Type 0} {act : A → Action D S (Unit {0})} (xs : List A)
      → ((a : A) → Ensures J Anything (act a))
      → Ensures J Anything (for_each act xs)
  unfolding for_each
  for_each-Ensures [] h = pure-Ensures tt tt
  for_each-Ensures (x ∷ xs) h = bind-Ensures (h x) (λ a v. for_each-Ensures xs h)
