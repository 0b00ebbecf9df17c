-- ===== src/Worker/Provider.antt =====
-- worker/src/agentrl/worker/environment/state/_base.py: what a state provider does for the
-- environments of a worker. A block under `with_lock` is one step, since the lock keeps the others
-- out. `none` is an exception; the calls that raise none in the local provider are taken to succeed.
use agent_rl.Common.{
  ℕ, ◌+◌, ◌≤◌, ◌≡◌, Bool, false, ◌&&◌, Option, none, some, List, String, string_eq, beq,
  if◌then◌else◌,
}
use agent_rl.Common.Table.{Table}

-- What docker.py stores of a session
pub record SessionData : Type 0 where
  pub containers : Table String String
  pub exclusive_containers : List String

pub record StateProvider (S : Type 0) : Type 0 where
  pub allocate_container : (container session : String) → S → Option S
  pub renew_container : (container session : String) → S → S
  pub container_is_allocated : String → S → Bool
  pub container_current_uses : String → S → ℕ
  pub container_total_uses : String → S → ℕ
  pub release_container : (container session : String) → S → S
  pub remove_container : String → S → S
  pub store_session : String → SessionData → S → S
  pub renew_session : String → S → S
  pub get_session : String → S → Option SessionData
  pub delete_session : String → S → S

-- An operation that leaves the uses of every container
pub record Keeps {S : Type 0} (p : StateProvider S) (uses : String → String → S → Bool) (f : S → S)
    : Type 0 where
  pub total_kept :
      (d : String) (st : S) → p.container_total_uses d (f st) ≡ p.container_total_uses d st
  pub current_kept :
      (d : String) (st : S) → p.container_current_uses d (f st) ≡ p.container_current_uses d st
  pub uses_kept : (d t : String) (st : S) → uses d t (f st) ≡ uses d t st

-- What the worker relies on: how the calls change which sessions use a container, and how often it
-- was used.
pub record IsCounting {S : Type 0} (p : StateProvider S) : Type 0 where
  pub uses : String → String → S → Bool
  pub total-allocate :
      (c s d : String) (st next : S)
      → p.allocate_container c s st ≡ some next
      → p.container_total_uses d next
        ≡ (if beq c d then p.container_total_uses d st + 1 else p.container_total_uses d st)
  pub current-allocate :
      (c s d : String) (st next : S)
      → p.allocate_container c s st ≡ some next
      → p.container_current_uses d next
        ≤ (if beq c d then p.container_current_uses d st + 1 else p.container_current_uses d st)
  pub total-release :
      (c s d : String) (st : S)
      → p.container_total_uses d (p.release_container c s st) ≡ p.container_total_uses d st
  pub current-release :
      (c s d : String) (st : S)
      → p.container_current_uses d (p.release_container c s st) ≤ p.container_current_uses d st
  pub uses-release :
      (c s d t : String) (st : S)
      → uses d t (p.release_container c s st) ≡ (if beq c d && beq s t then false else uses d t st)
  pub total-remove :
      (c d : String) (st : S)
      → p.container_total_uses d (p.remove_container c st) ≤ p.container_total_uses d st
  pub current-remove :
      (c d : String) (st : S)
      → p.container_current_uses d (p.remove_container c st) ≤ p.container_current_uses d st
  pub uses-remove :
      (c d t : String) (st : S)
      → uses d t (p.remove_container c st) ≡ (if beq c d then false else uses d t st)
  pub renew_container-Keeps : (c s : String) → Keeps p uses (p.renew_container c s)
  pub renew_session-Keeps : (s : String) → Keeps p uses (p.renew_session s)
  pub store_session-Keeps : (s : String) (v : SessionData) → Keeps p uses (p.store_session s v)
  pub delete_session-Keeps : (s : String) → Keeps p uses (p.delete_session s)
  pub get-delete : (s : String) (st : S) → p.get_session s (p.delete_session s st) ≡ none
