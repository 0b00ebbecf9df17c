-- ===== src/Worker/Etcd/Locking.antt =====
-- Sessions that take one lock of the store in turns, as `with_lock` of
-- worker/src/agentrl/worker/environment/state/_base.py does, on any number of workers, while other
-- methods of the provider run. Requests may be refused and their answers lost.
pub mod Trying
pub mod Apart
pub mod Operations
pub mod Advancing
pub mod Releasing
pub mod Ending
pub mod Invariant
pub mod Exclusion
use agent_rl.Common.{ℕ, ◌≡◌, ◌≢◌, ◌⊎◌, Bool, true, false, Option, none, some, List}
use agent_rl.Common.Family.{update}
use agent_rl.Worker.Etcd.{
  Bytes, KeyValue, Error, Local, Request, lease_revoke, Program, done, raise, send, ◌>>=◌,
}
use agent_rl.Worker.Etcd.Keys.{lock_key}
use agent_rl.Worker.Etcd.Containers.{
  allocate_container, release_container, remove_container, container_current_uses,
  container_total_uses, containers_total_uses_gte,
}
use agent_rl.Worker.Etcd.Sessions.{
  delete_session, store_session, get_session, renew_session, generate_session_id,
}
use agent_rl.Worker.Etcd.Service.{Service, IsEtcd, Transport, advance, is_on}
use agent_rl.Worker.Etcd.Locks.{acquire_lock, release_lock}

-- Where a session stands with the lock; one that is dead never does anything again.
pub data Phase : Type 0 where
  outside : Phase
  acquiring : Program Bool → Phase
  inside : Phase
  releasing : Program (Unit {0}) → Phase
  dead : Phase

abbrev pub is_idle : Phase → Bool
is_idle (acquiring p) = false
is_idle inside = false
is_idle _ = true

-- The other methods of the provider, but `delete_session`, which has a step of its own
pub data Operation (D : Type 0) : Type 0 where
  allocates : (container session : Bytes) → Operation D
  releases : (container session : Bytes) → Operation D
  removes : (container : Bytes) → Operation D
  counts : (container : Bytes) → Operation D
  totals : (container : Bytes) → Operation D
  finds_worn : (min_uses : ℕ) → Operation D
  generates : (session_expiry : ℕ) → Operation D
  stores : (session : Bytes) → D → Operation D
  looks_up : (session : Bytes) → Operation D
  renews : (session : Bytes) → Operation D

abbrev pub ignore : {A : Type 0} → Program A → Program (Unit {0})
ignore p = p >>= λ a. done tt

abbrev pub program_of :
    {D : Type 0} → Bytes → (D → Bytes) → (Bytes → Option D) → Operation D → Program (Unit {0})
program_of prefix dumps loads (allocates c s) = allocate_container prefix c s
program_of prefix dumps loads (releases c s) = release_container prefix c s
program_of prefix dumps loads (removes c) = remove_container prefix c
program_of prefix dumps loads (counts c) = ignore (container_current_uses prefix c)
program_of prefix dumps loads (totals c) = ignore (container_total_uses prefix c)
program_of prefix dumps loads (finds_worn n) = ignore (containers_total_uses_gte prefix n)
program_of prefix dumps loads (generates expiry) = ignore (generate_session_id expiry)
program_of prefix dumps loads (stores s value) = store_session prefix dumps loads s value
program_of prefix dumps loads (looks_up s) = ignore (get_session prefix dumps loads s)
program_of prefix dumps loads (renews s) = renew_session s

pub record System (E : Type 0) : Type 0 where
  pub store : E
  pub locals : ℕ → Local
  pub phases : ℕ → Phase
  pub tasks : ℕ → Program (Unit {0})

-- The lease that the next request of a method revokes
abbrev pub revokes : Request → Option ℕ
revokes (lease_revoke lease) = some lease
revokes _ = none

abbrev pub revoked : {A : Type 0} → Program A → Option ℕ
revoked (send r k) = revokes r
revoked _ = none

abbrev pub move_to : {E : Type 0} → ℕ → Phase → System E → System E
move_to i phase s = record s { phases = update s.phases i phase }

-- Session `i` goes by the name `owner i`; it and task `i` are on worker `worker i`.
module _ {E : Type 0} (service : Service E) (worker : ℕ → ℕ) where
  abbrev pub going :
      {A : Type 0} → Transport → Bytes → ℕ → Program A → System E → Program A × (Local × E)
  going t uuid i p s = advance service t uuid p (s.locals (worker i)) s.store

  abbrev pub went : ℕ → Local × E → System E → System E
  went i (l, e) s = record s { store = e; locals = update s.locals (worker i) l }

  abbrev pub asks : Transport → Bytes → ℕ → Program Bool → System E → System E
  asks t uuid i p s =
      let next = going t uuid i p s in went i next.1 (move_to i (acquiring next.0) s)

  abbrev pub gives_up : Transport → Bytes → ℕ → Program (Unit {0}) → System E → System E
  gives_up t uuid i p s =
      let next = going t uuid i p s in went i next.1 (move_to i (releasing next.0) s)

  abbrev pub works : Transport → Bytes → ℕ → System E → System E
  works t uuid n s =
      let next = going t uuid n (s.tasks n) s in
      went n next.1 (record s { tasks = update s.tasks n next.0 })

module _ {E D : Type 0} (service : Service E) (law : IsEtcd service) (prefix name : Bytes)
    (timeout : ℕ) (dumps : D → Bytes) (loads : Bytes → Option D) (owner : ℕ → Bytes)
    (worker : ℕ → ℕ) where
  abbrev pub acquisition : ℕ → Program Bool
  acquisition i = acquire_lock prefix name (some (owner i)) timeout

  -- A lease that no session is on that is inside or asks for the lock: only such leases end.
  abbrev pub IsSpare : ℕ → System E → Type 0
  IsSpare lease s =
      (kv : KeyValue) (i : ℕ)
      → law.holds s.store (lock_key prefix name) ≡ some kv
      → is_on lease kv.lease ≡ true
      → kv.value ≡ owner i
      → is_idle (s.phases i) ≡ true

  pub data Step (s : System E) : System E → Type 0 where
    begins : (i : ℕ) → s.phases i ≡ outside → Step s (move_to i (acquiring (acquisition i)) s)
    acquires :
        (i : ℕ) (p : Program Bool) (t : Transport) (uuid : Bytes)
        → s.phases i ≡ acquiring p
        → Step s (asks service worker t uuid i p s)
    enters : (i : ℕ) → s.phases i ≡ acquiring (done true) → Step s (move_to i inside s)
    retries :
        (i : ℕ)
        → s.phases i ≡ acquiring (done false)
        → Step s (move_to i (acquiring (acquisition i)) s)
    fails :
        (i : ℕ) (error : Error)
        → s.phases i ≡ acquiring (raise error)
        → Step s (move_to i outside s)
    leaves :
        (i : ℕ)
        → s.phases i ≡ inside
        → Step s (move_to i (releasing (release_lock prefix name (some (owner i)))) s)
    unlocks :
        (i : ℕ) (p : Program (Unit {0})) (t : Transport) (uuid : Bytes)
        → s.phases i ≡ releasing p
        → Step s (gives_up service worker t uuid i p s)
    ends : (i : ℕ) → s.phases i ≡ releasing (done tt) → Step s (move_to i outside s)
    breaks :
        (i : ℕ) (error : Error)
        → s.phases i ≡ releasing (raise error)
        → Step s (move_to i outside s)
    dies : (i : ℕ) → Step s (move_to i dead s)
    calls :
        (n : ℕ) (op : Operation D)
        → Step s (record s { tasks = update s.tasks n (program_of prefix dumps loads op) })
    deletes :
        (n : ℕ) (session : Bytes)
        → Step s (record s { tasks = update s.tasks n (delete_session prefix session) })
    runs :
        (n : ℕ) (t : Transport) (uuid : Bytes)
        → ((lease : ℕ) → revoked (s.tasks n) ≡ some lease → IsSpare lease s)
        → Step s (works service worker t uuid n s)
    expires :
        (lease : ℕ) → IsSpare lease s → Step s (record s { store = service.expire lease s.store })

  -- The systems that steps lead to from one where no session has the lock
  pub data Reached (start : System E) : System E → Type 0 where
    here : Reached start start
    then_step : {s next : System E} → Reached start s → Step s next → Reached start next
