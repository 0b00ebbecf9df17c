-- ===== src/Worker/Etcd/Locking/Releasing.antt =====
-- `release_lock` of worker/src/agentrl/worker/environment/state/etcd.py takes the lock from no other owner.
use mathlib.Core.Path.{subst}
use agent_rl.Common.{ℕ, ◌≡◌, ◌≢◌, refl, sym, Option, none, some, [], ◌∷◌, list_eq, pair_eq}
use agent_rl.Common.Table.{get-remove-some}
use agent_rl.Worker.Etcd.{Bytes, Request, Local}
use agent_rl.Worker.Etcd.Keys.{lock_key}
use agent_rl.Worker.Etcd.Service.{Service, IsEtcd}
use agent_rl.Worker.Etcd.Locks.{owner_of, disclaim, or_key, forget_key, release_as, release_lock}
use agent_rl.Worker.Etcd.Sending.{IsSound, Sends, Sends-call}
use agent_rl.Worker.Etcd.Held.{Leaves, Leaves-disclaim}

or_key-kept :
    (o : Option Bytes) (other : Bytes)
    → ((key : Bytes) → o ≡ some key → key ≡ other)
    → or_key o other ≡ other
unfolding or_key
or_key-kept none other same = refl
or_key-kept (some []) other same = refl
or_key-kept (some (b ∷ key)) other same = same (b ∷ key) refl

module _ {E : Type 0} (service : Service E) (law : IsEtcd service) (prefix name : Bytes) where
  abbrev pub Others : Bytes → Request → Type 0
  Others owner = Leaves service law (lock_key prefix name) (λ a. a ≢ owner)

  forget_key-IsSound :
      (owner : Bytes) (l : Local)
      → IsSound prefix l
      → IsSound prefix (forget_key prefix name owner l)
  unfolding forget_key
  forget_key-IsSound owner l sound n o key e =
      sound n o key (get-remove-some (name, owner) (n, o) key l.lock_keys e)

  pub release-Sends :
      (b : ℕ) (rest : Bytes)
      → Sends prefix (Others (b ∷ rest)) (release_lock prefix name (some (b ∷ rest)))
  unfolding release_lock release_as owner_of
  release-Sends b rest = λ l sound k kept. (
    forget_key-IsSound (b ∷ rest),
    Sends-call prefix (Others (b ∷ rest)) _ _
        (subst (λ key. Others (b ∷ rest) (disclaim key (b ∷ rest)))
          (sym (or_key-kept _ (lock_key prefix name) (λ key. kept name (b ∷ rest) key)))
          (Leaves-disclaim service law (lock_key prefix name) (b ∷ rest)))
        (λ response. tt),
  )
