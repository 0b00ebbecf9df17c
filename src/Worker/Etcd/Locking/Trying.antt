-- ===== src/Worker/Etcd/Locking/Trying.antt =====
-- `acquire_lock` of worker/src/agentrl/worker/environment/state/etcd.py, request by request: it returns
-- True only after an answer that says that the lock is the owner's.
use agent_rl.Common.{
  ℕ, zero, suc, ◌≡◌, refl, sym, ◌∙◌, ◌⊎◌, inl, inr, Bool, true, false, Bool-cases, not, ◌||◌, ◌==◌,
  some, ◌∷◌, list_eq, pair_eq, ap,
}
use agent_rl.Common.Table.{get-put_cases}
use agent_rl.Worker.Etcd.{
  Bytes, Request, Response, Status, Reply, answered, rpc_error, Local, Program, done, raise, send,
  draw, read, write, ◌>>=◌,
}
use agent_rl.Worker.Etcd.Keys.{lock_key}
use agent_rl.Worker.Etcd.Calls.{should_retry, or_retry, attempts, ensure_lock_lease}
use agent_rl.Worker.Etcd.Service.{Service, IsEtcd}
use agent_rl.Worker.Etcd.Locks.{
  owner_of, claim, is_granted, note_key, answer, acquire_as, acquire_lock,
}
use agent_rl.Worker.Etcd.Sending.{IsSound, Sends, Sends-ensure}
use agent_rl.Worker.Etcd.Held.{Leaves, Leaves-grant, Leaves-keep_alive}

abbrev pub Anyone : Bytes → Type 0
Anyone owner = Unit

module _ {E : Type 0} (service : Service E) (law : IsEtcd service) (prefix name : Bytes) where
  abbrev pub Harmless : Request → Type 0
  Harmless = Leaves service law (lock_key prefix name) Anyone

  -- Sends nothing that takes the lock from anyone.
  abbrev pub Gentle : {A : Type 0} → Program A → Type 0
  Gentle = Sends prefix Harmless

  abbrev pub says : Bytes → Reply → Bool
  says owner (answered response) = is_granted owner response
  says owner (rpc_error status) = false

  -- Returns True only after the claim of the lock is granted, and until then sends nothing that takes
  -- the lock from anyone.
  abbrev pub Trying : (owner : Bytes) → Program Bool → Type 0
  Trying owner (done b) = b ≡ false
  Trying owner (raise error) = Unit
  Trying owner (send r k) =
      (Harmless r × ((reply : Reply) → Trying owner (k reply)))
      ⊎ ((lease : ℕ) × (r ≡ claim (lock_key prefix name) owner lease)
          × ((reply : Reply)
              → (says owner reply ≡ true → Gentle (k reply))
                × (says owner reply ≡ false → Trying owner (k reply))))
  Trying owner (draw g) = (id : Bytes) → Trying owner (g id)
  Trying owner (read g) = (l : Local) → IsSound prefix l → Trying owner (g l)
  Trying owner (write change p) =
      ((l : Local) → IsSound prefix l → IsSound prefix (change l)) × Trying owner p

  Trying-bind :
      {A : Type 0} (owner : Bytes) (m : Program A) (f : A → Program Bool)
      → Gentle m
      → ((a : A) → Trying owner (f a))
      → Trying owner (m >>= f)
  unfolding ◌>>=◌
  Trying-bind owner (done a) f s g = g a
  Trying-bind owner (raise error) f s g = tt
  Trying-bind owner (send r k) f (harmless, s) g =
      inl (harmless, λ reply. Trying-bind owner (k reply) f (s reply) g)
  Trying-bind owner (draw h) f s g = λ id. Trying-bind owner (h id) f (s id) g
  Trying-bind owner (read h) f s g = λ l sound. Trying-bind owner (h l) f (s l sound) g
  Trying-bind owner (write change p) f (kept, s) g = (kept, Trying-bind owner p f s g)

  note_key-IsSound :
      (owner : Bytes) (l : Local) → IsSound prefix l → IsSound prefix (note_key prefix name owner l)
  unfolding note_key
  note_key-IsSound owner l sound n o key e =
      elim (get-put_cases (name, owner) (n, o) (lock_key prefix name) key l.lock_keys e) [
        | inl (same, at) ↦ sym at ∙ ap (λ (x : Bytes × Bytes). lock_key prefix x.0) same
        | inr before ↦ sound n o key before
      ]

  answer-Trying :
      (owner : Bytes) (response : Response)
      → is_granted owner response ≡ false
      → Trying owner (answer prefix name owner response)
  unfolding answer
  answer-Trying owner response e = rw e refl

  answer-Gentle :
      (owner : Bytes) (response : Response)
      → is_granted owner response ≡ true
      → Gentle (answer prefix name owner response)
  unfolding answer
  answer-Gentle owner response e = rw e (note_key-IsSound owner, tt)

  retry-Trying :
      (owner : Bytes) (is_last : Bool) (rest : Program Response) (status : Status)
      → Trying owner (rest >>= answer prefix name owner)
      → Trying owner (or_retry is_last rest (rpc_error status) >>= answer prefix name owner)
  unfolding or_retry ◌>>=◌
  retry-Trying owner is_last rest status t =
      elim (Bool-cases (not (should_retry status) || is_last)) [ inl q ↦ rw q tt | inr q ↦ rw q t ]

  told :
      (owner : Bytes) (is_last : Bool) (rest : Program Response) (reply : Reply)
      → Trying owner (rest >>= answer prefix name owner)
      → (says owner reply ≡ true
          → Gentle (or_retry is_last rest reply >>= answer prefix name owner))
        × (says owner reply ≡ false
            → Trying owner (or_retry is_last rest reply >>= answer prefix name owner))
  unfolding or_retry ◌>>=◌
  told owner is_last rest (answered response) t =
      (λ e. answer-Gentle owner response e, λ e. answer-Trying owner response e)
  told owner is_last rest (rpc_error status) t =
      (λ e. cc e, λ e. retry-Trying owner is_last rest status t)

  claim-Trying :
      (owner : Bytes) (lease n : ℕ)
      → Trying owner
          (attempts n (claim (lock_key prefix name) owner lease) >>= answer prefix name owner)
  unfolding attempts ◌>>=◌
  claim-Trying owner lease zero = tt
  claim-Trying owner lease (suc n) = inr (
    lease,
    refl,
    λ reply.
        told owner (n == 0) (attempts n (claim (lock_key prefix name) owner lease)) reply
          (claim-Trying owner lease n),
  )

  pub acquire-Trying :
      (b : ℕ) (rest : Bytes) (timeout : ℕ)
      → Trying (b ∷ rest) (acquire_lock prefix name (some (b ∷ rest)) timeout)
  unfolding acquire_lock acquire_as owner_of
  acquire-Trying b rest timeout = λ l sound.
      Trying-bind (b ∷ rest) (ensure_lock_lease (b ∷ rest) timeout) _
        (Sends-ensure prefix Harmless (Leaves-keep_alive service law (lock_key prefix name) Anyone)
          (Leaves-grant service law (lock_key prefix name) Anyone) (b ∷ rest) timeout)
        (λ lease. claim-Trying (b ∷ rest) lease 2)
