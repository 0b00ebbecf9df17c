-- ===== src/Worker/Docker.antt =====
-- worker/src/agentrl/worker/environment/docker.py: the environments of a task in Docker containers.
-- Here: the daemon and the delegation as interfaces, the calls of the daemon with their retries, and
-- the actions that the other files build the controller from.
pub mod Containers
pub mod Sessions
pub mod Triples
pub mod Steps
pub mod Labels
pub mod Ending
pub mod Starting
pub mod Handlers
pub mod Creating
pub mod Settling
pub mod Rounds
pub mod Freeing
pub mod SessionEnd
mod Tests
use agent_rl.Common.{
  ℕ, zero, suc, Bool, true, false, Option, List, [], ◌∷◌, String, ◌||◌, ◌==◌, if◌then◌else◌,
}
use agent_rl.Common.Table.{Table}

-- A result, an exception of the daemon with its status, a failure on the way to it, a timeout, another
-- exception; and `waits` when a loop has not ended on its fuel.
pub data Outcome {ℓ} (A : Type ℓ) : Type ℓ where
  ok : A → Outcome A
  docker_error : (status : ℕ) → Outcome A
  client_error : Outcome A
  timeout_error : Outcome A
  raises : Outcome A
  waits : Outcome A

-- The attributes of a container that the code reads or sets
pub record Attrs : Type 0 where
  pub name : String
  pub env : Table String String
  pub subtype : String
  pub is_exclusive : Bool
  pub image : Option String

-- A container as a listing gives it, with the label of what it depends on
pub record Container : Type 0 where
  pub id : String
  pub depends_on : List String

-- The filters with which containers of the task are listed
pub data Listing : Type 0 where
  shared : (subtype : String) → Listing
  exclusive : Listing
  unhealthy_shared : Listing
  not_started : List String → Listing
  not_healthy : List String → Listing

-- ip, http://ip and http://ip:port
pub data Url : Type 0 where
  address_of : (ip : String) → Url
  http : (ip : String) → Url
  http_port : (ip : String) → (port : ℕ) → Url

-- The daemon, with what is drawn at random; `depends_on` is the label of a container that is loaded.
pub record DockerApi (D : Type 0) : Type 0 where
  pub uuid : D → String × D
  pub shuffle : List Container → D → List Container × D
  pub create : Attrs → D → Outcome String × D
  pub start : String → D → Outcome (Unit {0}) × D
  pub pull : String → D → Outcome (Unit {0}) × D
  pub list : Listing → D → Outcome (List Container) × D
  pub depends_on : String → D → Outcome (List String) × D
  pub delete : String → D → Outcome (Unit {0}) × D
  pub address : String → D → Outcome String × D

-- What a task says about its environments; `configure` is `create_docker_container`.
pub record Delegation (D : Type 0) : Type 0 where
  pub subtypes : List String
  pub concurrency_limit : String → ℕ
  pub reuse_limit : String → ℕ
  pub configure : Attrs → D → Outcome Attrs × D
  pub images : Table String String
  pub service_port : String → Option ℕ
  pub homepage : Option String
  pub homepage_envs : Table String Url → Table String String

-- `get_concurrency_limit` and `get_reuse_limit` of a delegation that does not say otherwise
abbrev pub default_concurrency_limit : (is_exclusive : Bool) → ℕ
default_concurrency_limit is_exclusive = if is_exclusive then 1 else 0

abbrev pub default_reuse_limit : (is_exclusive supports_reuse : Bool) → ℕ
default_reuse_limit true supports_reuse = 1
default_reuse_limit false false = 1
default_reuse_limit false true = 0

pub record World (D S : Type 0) : Type 0 where
  pub daemon : D
  pub state : S
  pub has_client : Bool
  pub shells : List String

abbrev pub Action : Type 0 → Type 0 → Type 0 → Type 0
Action D S A = World D S → Outcome A × World D S

abbrev pub is_retryable : ℕ → Bool
is_retryable status =
    status == 500 || status == 502 || status == 503 || status == 504 || status == 900

module _ {D S : Type 0} where
  abbrev pub pure : {A : Type 0} → A → Action D S A
  pure a w = (ok a, w)

  abbrev pub fail : {A : Type 0} → Action D S A
  fail w = (raises, w)

  abbrev pub waiting : {A : Type 0} → Action D S A
  waiting w = (waits, w)

  -- The exception of one action as that of another
  abbrev pub go_on :
      {A B : Type 0} → (A → Action D S B) → Outcome A → World D S → Outcome B × World D S
  go_on f (ok a) w = f a w
  go_on f (docker_error status) w = (docker_error status, w)
  go_on f client_error w = (client_error, w)
  go_on f timeout_error w = (timeout_error, w)
  go_on f raises w = (raises, w)
  go_on f waits w = (waits, w)

  infixl 5 ◌>>=◌ ◌>>◌
  unfoldable pub ◌>>=◌ : {A B : Type 0} → Action D S A → (A → Action D S B) → Action D S B
  (m >>= f) w = go_on f (m w).0 (m w).1

  abbrev pub ◌>>◌ : {A B : Type 0} → Action D S A → Action D S B → Action D S B
  m >> n = m >>= λ _. n

  -- `_reset_client`: the client is closed, and so are the shells.
  abbrev pub reset_client : World D S → World D S
  reset_client w = record w { has_client = false; shells = [] }

  -- One attempt, with a client (`_get_client`)
  abbrev pub attempt : {A : Type 0} → (D → Outcome A × D) → Action D S A
  attempt operation w =
      let (o, d) = operation w.daemon in (o, record w { daemon = d; has_client = true })

  -- An action that goes on from whatever the outcome of another is
  abbrev pub outcome : {A : Type 0} → Outcome A → Action D S A
  outcome o w = (o, w)

  abbrev pub catch : {A B : Type 0} → (Outcome A → Action D S B) → Action D S A → Action D S B
  catch handler m w = handler (m w).0 (m w).1

  abbrev pub after_reset : {A : Type 0} → Action D S A → Action D S A
  after_reset m w = m (reset_client w)

  abbrev pub or_retry : {A : Type 0} → Action D S A → Outcome A → Action D S A
  or_retry again (ok a) = pure a
  or_retry again (docker_error status) =
      if is_retryable status then after_reset again else outcome (docker_error status)
  or_retry again client_error = after_reset again
  or_retry again timeout_error = after_reset again
  or_retry again raises = fail
  or_retry again waits = waiting

  -- The attempts of `_docker_call`, with as many retries
  unfoldable pub attempts : {A : Type 0} → ℕ → (D → Outcome A × D) → Action D S A
  attempts zero operation = attempt operation
  attempts (suc retries) operation =
      catch (or_retry (attempts retries operation)) (attempt operation)

  -- `_docker_call`
  abbrev pub docker_call : {A : Type 0} → (retry : Bool) → (D → Outcome A × D) → Action D S A
  docker_call retry operation = attempts (if retry then 1 else 0) operation

  -- A change of the state of the provider
  abbrev pub change : (S → S) → Action D S (Unit {0})
  change f w = (ok tt, record w { state = f w.state })

  abbrev pub asks : {A : Type 0} → (S → A) → Action D S A
  asks f w = (ok (f w.state), w)

  -- What has no exceptions: it is drawn, or it is the task's own
  abbrev pub drawn : {A : Type 0} → (D → A × D) → Action D S A
  drawn f w = let (a, d) = f w.daemon in (ok a, record w { daemon = d })

  abbrev pub of_task : {A : Type 0} → (D → Outcome A × D) → Action D S A
  of_task f w = let (o, d) = f w.daemon in (o, record w { daemon = d })
