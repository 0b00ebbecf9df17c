-- ===== src/Worker/Etcd/Locking/Exclusion.antt =====
-- `with_lock` of worker/src/agentrl/worker/environment/state/_base.py over the store that
-- worker/src/agentrl/worker/environment/state/etcd.py shares.
use mathlib.Core.Path.{subst}
use agent_rl.Common.{ℕ, ◌≡◌, ◌≢◌, Option, some, [], list_eq, pair_eq}
use agent_rl.Common.Table.{get}
use agent_rl.Worker.Etcd.{Bytes, done}
use agent_rl.Worker.Etcd.Keys.{lock_key}
use agent_rl.Worker.Etcd.Ranges.{IsBytes}
use agent_rl.Worker.Etcd.Service.{Service, IsEtcd}
use agent_rl.Worker.Etcd.Held.{one_owner}
use agent_rl.Worker.Etcd.Locking.{outside, inside, System, Reached}
use agent_rl.Worker.Etcd.Locking.Invariant.{Inv, Reached-Inv, in_phase}

-- Nothing has been asked for the lock yet; the store may hold anything.
pub record IsStart {E : Type 0} (s : System E) : Type 0 where
  pub no_keys : (w : ℕ) → (s.locals w).lock_keys ≡ []
  pub all_outside : (i : ℕ) → s.phases i ≡ outside
  pub no_tasks : (n : ℕ) → s.tasks n ≡ done tt

module _ {E D : Type 0} (service : Service E) (law : IsEtcd service) (prefix name : Bytes)
    (timeout : ℕ) (dumps : D → Bytes) (loads : Bytes → Option D) (owner : ℕ → Bytes)
    (worker : ℕ → ℕ) where
  start-Inv : (s : System E) → IsStart s → Inv service law prefix name owner s
  unfolding get
  start-Inv s start = record {
    sound = λ w n o key e. cc (subst (λ d. get (n, o) d ≡ some key) (start.no_keys w) e);
    fine = λ i. rw (start.all_outside i) tt;
    calm = λ n. rw (start.no_tasks n) tt;
  }

  -- However the requests of sessions, of the other methods and of workers interleave, and whether
  -- requests are refused or their answers lost, no two sessions are inside the lock at a time, if
  -- sessions have names of their own that are not empty, the bytes of the lock's key are bytes, and no
  -- lease ends of a session that is inside or asks for the lock.
  pub one_inside :
      (named : (i : ℕ) → owner i ≢ []) (different : (i j : ℕ) → owner i ≡ owner j → i ≡ j)
      (bytes : IsBytes (lock_key prefix name)) (start s : System E)
      → IsStart start
      → Reached service law prefix name timeout dumps loads owner worker start s
      → (i j : ℕ) → s.phases i ≡ inside
      → s.phases j ≡ inside
      → i ≡ j
  one_inside named different bytes start s fresh reached i j at_i at_j =
      let inv =
        Reached-Inv service law prefix name owner timeout dumps loads worker named different bytes
          start s reached (start-Inv start fresh) in
      different i j (
        one_owner service law (lock_key prefix name) (owner i) (owner j) s.store
          (in_phase service law prefix name owner s i inside inv at_i)
          (in_phase service law prefix name owner s j inside inv at_j))
