-- ===== src/Worker/Etcd/Sending.antt =====
-- Which requests the methods of etcd.py send, whatever they are answered.
use agent_rl.Common.{
  ℕ, zero, suc, ◌≡◌, Bool, true, false, not, ◌||◌, ◌==◌, Option, none, some, if◌then◌else◌, list_eq,
  pair_eq,
}
use agent_rl.Common.Table.{get}
use agent_rl.Worker.Etcd.{
  Bytes, Request, lease_grant, lease_keep_alive, Response, pairs, written, decided, granted, lives,
  Reply, answered, rpc_error, Local, Program, done, raise, send, draw, read, write, ◌>>=◌,
}
use agent_rl.Worker.Etcd.Keys.{lock_key}
use agent_rl.Worker.Etcd.Calls.{
  should_retry, or_retry, attempts, or_again, keep_alives, lease_of, grant_lease, max_five,
  lease_for, ensure_lock_lease,
}

-- The keys of locks that a worker has kept are those of their names.
abbrev pub IsSound : Bytes → Local → Type 0
IsSound prefix l =
    (name owner key : Bytes) → get (name, owner) l.lock_keys ≡ some key → key ≡ lock_key prefix name

module _ (prefix : Bytes) (Allowed : Request → Type 0) where
  -- Every request that the method may send is allowed, and it keeps the kept keys sound.
  abbrev pub Sends : {A : Type 0} → Program A → Type 0
  Sends (done a) = Unit
  Sends (raise error) = Unit
  Sends (send r k) = Allowed r × ((reply : Reply) → Sends (k reply))
  Sends (draw g) = (id : Bytes) → Sends (g id)
  Sends (read g) = (l : Local) → IsSound prefix l → Sends (g l)
  Sends (write change p) = ((l : Local) → IsSound prefix l → IsSound prefix (change l)) × Sends p

  pub Sends-bind :
      {A B : Type 0} (m : Program A) (f : A → Program B)
      → Sends m
      → ((a : A) → Sends (f a))
      → Sends (m >>= f)
  unfolding ◌>>=◌
  Sends-bind (done a) f s g = g a
  Sends-bind (raise error) f s g = tt
  Sends-bind (send r k) f (allowed, s) g = (allowed, λ reply. Sends-bind (k reply) f (s reply) g)
  Sends-bind (draw h) f s g = λ id. Sends-bind (h id) f (s id) g
  Sends-bind (read h) f s g = λ l sound. Sends-bind (h l) f (s l sound) g
  Sends-bind (write change p) f (kept, s) g = (kept, Sends-bind p f s g)

  Sends-if :
      {A : Type 0} (b : Bool) (m n : Program A) → Sends m → Sends n → Sends (if b then m else n)
  Sends-if true m n s t = s
  Sends-if false m n s t = t

  Sends-or_retry :
      (is_last : Bool) (rest : Program Response) (reply : Reply)
      → Sends rest
      → Sends (or_retry is_last rest reply)
  unfolding or_retry
  Sends-or_retry is_last rest (answered response) s = tt
  Sends-or_retry is_last rest (rpc_error status) s =
      Sends-if (not (should_retry status) || is_last) _ _ tt s

  pub Sends-attempts : (n : ℕ) (r : Request) → Allowed r → Sends (attempts n r)
  unfolding attempts
  Sends-attempts zero r a = tt
  Sends-attempts (suc n) r a =
      (a, λ reply. Sends-or_retry (n == 0) (attempts n r) reply (Sends-attempts n r a))

  pub Sends-call :
      {B : Type 0} (r : Request) (f : Response → Program B)
      → Allowed r
      → ((response : Response) → Sends (f response))
      → Sends (attempts 2 r >>= f)
  Sends-call r f a g = Sends-bind (attempts 2 r) f (Sends-attempts 2 r a) g

  Sends-or_again :
      (rest : Program (Unit {0})) (reply : Reply) → Sends rest → Sends (or_again rest reply)
  unfolding or_again
  Sends-or_again rest (answered (lives (suc ttl))) s = tt
  Sends-or_again rest (answered (lives zero)) s = s
  Sends-or_again rest (answered (pairs kvs)) s = s
  Sends-or_again rest (answered written) s = s
  Sends-or_again rest (answered (decided b responses)) s = s
  Sends-or_again rest (answered (granted l)) s = s
  Sends-or_again rest (rpc_error status) s = s

  Sends-lease_of : (response : Response) → Sends (lease_of response)
  unfolding lease_of
  Sends-lease_of (granted lease) = tt
  Sends-lease_of (pairs kvs) = tt
  Sends-lease_of written = tt
  Sends-lease_of (decided b responses) = tt
  Sends-lease_of (lives ttl) = tt

  module _ (keeps : (lease : ℕ) → Allowed (lease_keep_alive lease)) where
    pub Sends-keep_alives : (n lease : ℕ) → Sends (keep_alives n lease)
    unfolding keep_alives
    Sends-keep_alives zero lease = tt
    Sends-keep_alives (suc n) lease = (
      keeps lease,
      λ reply. Sends-or_again (keep_alives n lease) reply (Sends-keep_alives n lease),
    )

    module _ (grants : (ttl : ℕ) → Allowed (lease_grant ttl)) where
      pub Sends-grant : (ttl : ℕ) → Sends (grant_lease ttl)
      Sends-grant ttl = Sends-call (lease_grant ttl) lease_of (grants ttl) Sends-lease_of

      pub Sends-lease_for :
          (owner : Bytes) (ttl : ℕ) (session own : Option ℕ)
          → Sends (lease_for owner ttl session own)
      unfolding lease_for
      Sends-lease_for owner ttl (some lease) own =
          Sends-bind (keep_alives 3 lease) _ (Sends-keep_alives 3 lease) (λ u. tt)
      Sends-lease_for owner ttl none (some lease) =
          Sends-bind (keep_alives 3 lease) _ (Sends-keep_alives 3 lease) (λ u. tt)
      Sends-lease_for owner ttl none none =
          Sends-bind (grant_lease (max_five ttl)) _ (Sends-grant (max_five ttl))
            (λ lease. (λ l sound. sound, tt))

      pub Sends-ensure : (owner : Bytes) (ttl : ℕ) → Sends (ensure_lock_lease owner ttl)
      unfolding ensure_lock_lease
      Sends-ensure owner ttl = λ l sound.
          Sends-lease_for owner ttl (get owner l.session_leases) (get owner l.lock_leases)
