-- ===== src/Worker/Etcd/Counting.antt =====
-- The count of a container's uses, of worker/src/agentrl/worker/environment/state/etcd.py: any number of
-- runs of `_increment_uses` at a time, while the store changes elsewhere.
pub mod Later
pub mod Rounds
pub mod Increments
pub mod Exact
use agent_rl.Common.{ℕ, zero, ◌+◌, ◌≤◌, ◌≡◌, Bool, true, false, Option, none, List, if◌then◌else◌}
use agent_rl.Common.Family.{update}
use agent_rl.Worker.Etcd.{
  Bytes, Request, delete_range, single, Local, Program, done, raise, send, draw, read, write,
}
use agent_rl.Worker.Etcd.Containers.{has_succeeded, increments}
use agent_rl.Worker.Etcd.Service.{Service, IsEtcd, Transport, replies, refuses, loses, advance}

-- `made` is how many increments took effect since the count was last removed.
pub record Uses (E : Type 0) : Type 0 where
  pub store : E
  pub tasks : ℕ → Program (Unit {0})
  pub made : ℕ

module _ {E : Type 0} (service : Service E) where
  abbrev pub successes : Request → E → ℕ
  successes r e = if has_succeeded (service.serve r e).0 then 1 else 0

  abbrev pub has_reached : Transport → Bool
  has_reached (refuses status) = false
  has_reached _ = true

  -- Whether the step of a method makes a transaction that succeeds, even if its answer is lost
  unfoldable pub won : {A : Type 0} → Transport → Program A → E → ℕ
  won t (send r k) e = if has_reached t then successes r e else 0
  won t p e = 0

  module _ (law : IsEtcd service) (key : Bytes) where
    pub data Step (s : Uses E) : Uses E → Type 0 where
      counts : (n : ℕ) → Step s (record s { tasks = update s.tasks n (increments 16 key) })
      runs :
          (n : ℕ) (t : Transport) (uuid : Bytes) (l : Local)
          → Step s (record {
            store = (advance service t uuid (s.tasks n) l s.store).1.1;
            tasks = update s.tasks n (advance service t uuid (s.tasks n) l s.store).0;
            made = s.made + won t (s.tasks n) s.store;
          })
      removes : Step s (record s {
        store = (service.serve (single (delete_range key none)) s.store).1;
        made = 0;
      })
      elsewhere :
          (next : E)
          → law.revision s.store ≤ law.revision next
          → law.holds next key ≡ law.holds s.store key
          → Step s (record s { store = next })

    pub data Reached (start : Uses E) : Uses E → Type 0 where
      here : Reached start start
      then_step : {s next : Uses E} → Reached start s → Step s next → Reached start next
