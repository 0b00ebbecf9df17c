-- ===== src/Worker/Etcd/Locking/Ending.antt =====
-- `delete_session` of worker/src/agentrl/worker/environment/state/etcd.py, which revokes a lease.
use agent_rl.Common.{ℕ, ◌≡◌, refl, ap, ◌⊎◌, inl, inr, Option, none, some, list_eq}
use agent_rl.Common.Table.{get}
use agent_rl.Worker.Etcd.{
  Bytes, Request, lease_revoke, rpc_error, Local, Program, done, raise, send, draw, read, write,
}
use agent_rl.Worker.Etcd.Keys.{lock_key}
use agent_rl.Worker.Etcd.Sessions.{revoke, forget_session, forget_lease, delete_session}
use agent_rl.Worker.Etcd.Service.{Service, IsEtcd, Transport, replies, refuses, loses, advance}
use agent_rl.Worker.Etcd.Sending.{IsSound, Sends, Sends-bind, Sends-call}
use agent_rl.Worker.Etcd.Held.{Leaves-delete}
use agent_rl.Worker.Etcd.Locking.{revokes, revoked}
use agent_rl.Worker.Etcd.Locking.Trying.{Anyone, Harmless, Gentle}
use agent_rl.Worker.Etcd.Locking.Advancing.{Holds}
use agent_rl.Worker.Etcd.Locking.Apart.{session_away}

Sends-mono :
    {A : Type 0} (prefix : Bytes) (P Q : Request → Type 0) (p : Program A)
    → ((r : Request) → P r → Q r)
    → Sends prefix P p
    → Sends prefix Q p
Sends-mono prefix P Q (done a) f s = tt
Sends-mono prefix P Q (raise error) f s = tt
Sends-mono prefix P Q (send r k) f (a, s) =
    (f r a, λ reply. Sends-mono prefix P Q (k reply) f (s reply))
Sends-mono prefix P Q (draw g) f s = λ id. Sends-mono prefix P Q (g id) f (s id)
Sends-mono prefix P Q (read g) f s = λ l sound. Sends-mono prefix P Q (g l) f (s l sound)
Sends-mono prefix P Q (write change p) f (kept, s) = (kept, Sends-mono prefix P Q p f s)

module _ {E : Type 0} (service : Service E) (law : IsEtcd service) (prefix name : Bytes) where
  abbrev Ends : Request → Type 0
  Ends r = Harmless service law prefix name r ⊎ ((lease : ℕ) × (r ≡ lease_revoke lease))

  -- Sends nothing that takes the lock from anyone, unless it revokes a lease.
  abbrev pub Calm : {A : Type 0} → Program A → Type 0
  Calm = Sends prefix Ends

  pub Gentle-Calm : {A : Type 0} (p : Program A) → Gentle service law prefix name p → Calm p
  Gentle-Calm p = Sends-mono prefix (Harmless service law prefix name) Ends p (λ r h. inl h)

  revoke-Calm : (lease : Option ℕ) → Calm (revoke lease)
  revoke-Calm none = tt
  revoke-Calm (some lease) =
      Sends-call prefix Ends (lease_revoke lease) _ (inr (lease, refl)) (λ response. tt)

  pub delete_session-Calm : (session : Bytes) → Calm (delete_session prefix session)
  unfolding delete_session forget_session forget_lease
  delete_session-Calm session =
      Sends-call prefix Ends _ _
        (inl (
          Leaves-delete service law (lock_key prefix name) Anyone _
            (session_away prefix name session)))
        (λ response l sound. (
          (λ k kept. kept),
          Sends-bind prefix Ends (revoke (get session l.session_leases)) _
              (revoke-Calm (get session l.session_leases)) (λ u. ((λ k kept. kept), tt)),
        ))

  -- The locks after a step: kept, or those of a lease gone
  abbrev Kept : Option ℕ → E → E → Type 0
  Kept lease e next =
      ((o : Bytes) → Holds service law prefix name o e → Holds service law prefix name o next)
      ⊎ ((l : ℕ) × (lease ≡ some l) × (next ≡ (service.serve (lease_revoke l) e).1))

  served : (r : Request) (e : E) → Ends r → Kept (revokes r) e (service.serve r e).1
  served r e (inl h) = inl (λ o held. h o tt e held)
  served r e (inr (l, q)) = inr (l, ap revokes q, ap (λ s. (service.serve s e).1) q)

  pub record CalmStep {A : Type 0} (p : Program A) (e : E) (next : Program A × (Local × E))
      : Type 0 where
    pub sound : IsSound prefix next.1.0
    pub goes_on : Calm next.0
    pub kept : Kept (revoked p) e next.1.1

  Calm-stays :
      {A : Type 0} (p q : Program A) (l : Local) (e : E)
      → IsSound prefix l
      → Calm q
      → CalmStep p e (q, (l, e))
  Calm-stays p q l e sound c = record { sound = sound; goes_on = c; kept = inl (λ o held. held) }

  pub Calm-goes :
      {A : Type 0} (t : Transport) (uuid : Bytes) (p : Program A) (l : Local) (e : E)
      → IsSound prefix l
      → Calm p
      → CalmStep p e (advance service t uuid p l e)
  unfolding advance
  Calm-goes t uuid (done a) l e sound c = Calm-stays (done a) (done a) l e sound c
  Calm-goes t uuid (raise error) l e sound c = Calm-stays (raise error) (raise error) l e sound c
  Calm-goes replies uuid (send r k) l e sound (a, c) = record {
    sound = sound;
    goes_on = c _;
    kept = served r e a;
  }
  Calm-goes (refuses status) uuid (send r k) l e sound (a, c) =
      Calm-stays (send r k) (k (rpc_error status)) l e sound (c _)
  Calm-goes (loses status) uuid (send r k) l e sound (a, c) = record {
    sound = sound;
    goes_on = c _;
    kept = served r e a;
  }
  Calm-goes t uuid (draw g) l e sound c = Calm-stays (draw g) (g uuid) l e sound (c uuid)
  Calm-goes t uuid (read g) l e sound c = Calm-stays (read g) (g l) l e sound (c l sound)
  Calm-goes t uuid (write change p) l e sound (kept, c) =
      Calm-stays (write change p) p (change l) e (kept l sound) c
