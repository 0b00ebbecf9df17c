-- ===== src/Worker/Etcd/Locking/Advancing.antt =====
-- One step of a method of worker/src/agentrl/worker/environment/state/etcd.py, and who holds the lock
-- before and after it.
use mathlib.Core.Path.{subst}
use agent_rl.Common.{ℕ, ◌≡◌, refl, sym, ◌⊎◌, inl, inr, Bool, true, false, Bool-cases}
use agent_rl.Worker.Etcd.{
  Bytes, Reply, answered, Local, Program, done, raise, send, draw, read, write,
}
use agent_rl.Worker.Etcd.Keys.{lock_key}
use agent_rl.Worker.Etcd.Service.{
  Service, IsEtcd, Transport, replies, refuses, loses, advance, Going,
}
use agent_rl.Worker.Etcd.Locks.{claim, is_granted}
use agent_rl.Worker.Etcd.Sending.{IsSound, Sends}
use agent_rl.Worker.Etcd.Held.{Held, Leaves, Leaves-claim, claim-Held}
use agent_rl.Worker.Etcd.Locking.Trying.{Anyone, Gentle, says, Trying}

module _ {E : Type 0} (service : Service E) (law : IsEtcd service) (prefix name : Bytes) where
  abbrev pub Holds : Bytes → E → Type 0
  Holds = Held service law (lock_key prefix name)

  -- A step to `next` from the store `e` that takes the lock from none of these owners
  pub record Goes {A : Type 0} (Owners : Bytes → Type 0) (P : Program A → E → Type 0) (e : E)
      (next : Going service A) : Type 0 where
    pub sound : IsSound prefix next.1.0
    pub goes_on : P next.0 next.1.1
    pub left : (owner : Bytes) → Owners owner → Holds owner e → Holds owner next.1.1

  pub Sends-Goes :
      {A : Type 0} (Owners : Bytes → Type 0) (t : Transport) (uuid : Bytes) (p : Program A)
      (l : Local) (e : E)
      → IsSound prefix l
      → Sends prefix (Leaves service law (lock_key prefix name) Owners) p
      → Goes Owners
          (λ q x. Sends prefix (Leaves service law (lock_key prefix name) Owners) q)
          e
          (advance service t uuid p l e)
  unfolding advance
  Sends-Goes Owners t uuid (done a) l e sound s = record {
    sound = sound;
    goes_on = s;
    left = λ o x h. h;
  }
  Sends-Goes Owners t uuid (raise error) l e sound s = record {
    sound = sound;
    goes_on = s;
    left = λ o x h. h;
  }
  Sends-Goes Owners replies uuid (send r k) l e sound (a, s) = record {
    sound = sound;
    goes_on = s _;
    left = λ o x h. a o x e h;
  }
  Sends-Goes Owners (refuses status) uuid (send r k) l e sound (a, s) = record {
    sound = sound;
    goes_on = s _;
    left = λ o x h. h;
  }
  Sends-Goes Owners (loses status) uuid (send r k) l e sound (a, s) = record {
    sound = sound;
    goes_on = s _;
    left = λ o x h. a o x e h;
  }
  Sends-Goes Owners t uuid (draw g) l e sound s = record {
    sound = sound;
    goes_on = s uuid;
    left = λ o x h. h;
  }
  Sends-Goes Owners t uuid (read g) l e sound s = record {
    sound = sound;
    goes_on = s l sound;
    left = λ o x h. h;
  }
  Sends-Goes Owners t uuid (write change p) l e sound (kept, s) = record {
    sound = kept l sound;
    goes_on = s;
    left = λ o x h. h;
  }

  -- A session asks for the lock, or has it already.
  abbrev pub Asking : (owner : Bytes) → Program Bool → E → Type 0
  Asking owner p e =
      Trying service law prefix name owner p ⊎ (Gentle service law prefix name p × Holds owner e)

  claim-answered :
      (owner : Bytes) (lease : ℕ) (k : Reply → Program Bool) (e : E)
      → ((reply : Reply)
          → (says service law prefix name owner reply ≡ true
              → Gentle service law prefix name (k reply))
            × (says service law prefix name owner reply ≡ false
                → Trying service law prefix name owner (k reply)))
      → Asking owner
          (k (answered (service.serve (claim (lock_key prefix name) owner lease) e).0))
          (service.serve (claim (lock_key prefix name) owner lease) e).1
  claim-answered owner lease k e after =
      elim (Bool-cases
        (is_granted owner (service.serve (claim (lock_key prefix name) owner lease) e).0)) [
          | inl q ↦
              inr ((after _).0 q, claim-Held service law (lock_key prefix name) owner lease e q)
          | inr q ↦ inl ((after _).1 q)
        ]

  claimed :
      (owner : Bytes) (lease : ℕ) (t : Transport) (uuid : Bytes) (k : Reply → Program Bool)
      (l : Local) (e : E)
      → IsSound prefix l
      → ((reply : Reply)
          → (says service law prefix name owner reply ≡ true
              → Gentle service law prefix name (k reply))
            × (says service law prefix name owner reply ≡ false
                → Trying service law prefix name owner (k reply)))
      → Goes Anyone
          (Asking owner)
          e
          (advance service t uuid (send (claim (lock_key prefix name) owner lease) k) l e)
  unfolding advance
  claimed owner lease replies uuid k l e sound after = record {
    sound = sound;
    goes_on = claim-answered owner lease k e after;
    left = λ o x h. Leaves-claim service law (lock_key prefix name) Anyone owner lease o x e h;
  }
  claimed owner lease (refuses status) uuid k l e sound after = record {
    sound = sound;
    goes_on = inl ((after _).1 refl);
    left = λ o x h. h;
  }
  claimed owner lease (loses status) uuid k l e sound after = record {
    sound = sound;
    goes_on = inl ((after _).1 refl);
    left = λ o x h. Leaves-claim service law (lock_key prefix name) Anyone owner lease o x e h;
  }

  Trying-Goes :
      (owner : Bytes) (t : Transport) (uuid : Bytes) (p : Program Bool) (l : Local) (e : E)
      → IsSound prefix l
      → Trying service law prefix name owner p
      → Goes Anyone (Asking owner) e (advance service t uuid p l e)
  unfolding advance
  Trying-Goes owner t uuid (done b) l e sound s = record {
    sound = sound;
    goes_on = inl s;
    left = λ o x h. h;
  }
  Trying-Goes owner t uuid (raise error) l e sound s = record {
    sound = sound;
    goes_on = inl s;
    left = λ o x h. h;
  }
  Trying-Goes owner replies uuid (send r k) l e sound (inl (a, s)) = record {
    sound = sound;
    goes_on = inl (s _);
    left = λ o x h. a o x e h;
  }
  Trying-Goes owner (refuses status) uuid (send r k) l e sound (inl (a, s)) = record {
    sound = sound;
    goes_on = inl (s _);
    left = λ o x h. h;
  }
  Trying-Goes owner (loses status) uuid (send r k) l e sound (inl (a, s)) = record {
    sound = sound;
    goes_on = inl (s _);
    left = λ o x h. a o x e h;
  }
  Trying-Goes owner t uuid (send r k) l e sound (inr (lease, is_claim, after)) =
      subst (λ q. Goes Anyone (Asking owner) e (advance service t uuid (send q k) l e))
        (sym is_claim) (claimed owner lease t uuid k l e sound after)
  Trying-Goes owner t uuid (draw g) l e sound s = record {
    sound = sound;
    goes_on = inl (s uuid);
    left = λ o x h. h;
  }
  Trying-Goes owner t uuid (read g) l e sound s = record {
    sound = sound;
    goes_on = inl (s l sound);
    left = λ o x h. h;
  }
  Trying-Goes owner t uuid (write change p) l e sound (kept, s) = record {
    sound = kept l sound;
    goes_on = inl s;
    left = λ o x h. h;
  }

  pub Asking-Goes :
      (owner : Bytes) (t : Transport) (uuid : Bytes) (p : Program Bool) (l : Local) (e : E)
      → IsSound prefix l
      → Asking owner p e
      → Goes Anyone (Asking owner) e (advance service t uuid p l e)
  Asking-Goes owner t uuid p l e sound (inl trying) = Trying-Goes owner t uuid p l e sound trying
  Asking-Goes owner t uuid p l e sound (inr (gentle, held)) =
      let next = Sends-Goes Anyone t uuid p l e sound gentle in
      record {
        sound = next.sound;
        goes_on = inr (next.goes_on, next.left owner tt held);
        left = next.left;
      }
