-- ===== src/Worker/Etcd/Locking/Invariant.antt =====
-- What every step of Locking keeps: `acquire_lock` and `release_lock` of
-- worker/src/agentrl/worker/environment/state/etcd.py.
use mathlib.Core.Path.{subst}
use agent_rl.Common.{
  ℕ, ◌≡◌, ◌≢◌, refl, sym, inl, inr, true, Bool-cases, Option, some, [], ◌∷◌, arith,
}
use agent_rl.Common.Family.{at_update}
use agent_rl.Worker.Etcd.{Bytes, KeyValue, Local, done}
use agent_rl.Worker.Etcd.Keys.{lock_key}
use agent_rl.Worker.Etcd.Ranges.{IsBytes}
use agent_rl.Worker.Etcd.Service.{off_lease, Service, IsEtcd, is_on}
use agent_rl.Worker.Etcd.Locks.{acquire_lock, release_lock}
use agent_rl.Worker.Etcd.Sending.{IsSound, Sends}
use agent_rl.Worker.Etcd.Locking.{
  Phase, outside, acquiring, inside, releasing, dead, is_idle, System, Step, Reached, here,
  then_step, begins, acquires, enters, retries, fails, leaves, unlocks, ends, breaks, dies, calls,
  deletes, runs, expires, move_to, went,
}
use agent_rl.Worker.Etcd.Locking.Trying.{acquire-Trying}
use agent_rl.Worker.Etcd.Locking.Advancing.{Holds, Asking, Sends-Goes, Asking-Goes}
use agent_rl.Worker.Etcd.Locking.Ending.{Calm, Gentle-Calm, delete_session-Calm, Calm-goes}
use agent_rl.Worker.Etcd.Locking.Operations.{program_of-Gentle}
use agent_rl.Worker.Etcd.Locking.Releasing.{Others, release-Sends}

module _ {E : Type 0} (service : Service E) (law : IsEtcd service) (prefix name : Bytes)
    (owner : ℕ → Bytes) where
  -- What is true of a session in its phase
  abbrev pub Fine : Bytes → Phase → E → Type 0
  Fine o outside e = Unit
  Fine o (acquiring p) e = Asking service law prefix name o p e
  Fine o inside e = Holds service law prefix name o e
  Fine o (releasing p) e = Sends prefix (Others service law prefix name o) p
  Fine o dead e = Unit

  pub record Inv (s : System E) : Type 0 where
    pub sound : (w : ℕ) → IsSound prefix (s.locals w)
    pub fine : (i : ℕ) → Fine (owner i) (s.phases i) s.store
    pub calm : (n : ℕ) → Calm service law prefix name (s.tasks n)

  Fine-keeps :
      (o : Bytes) (phase : Phase) (e next : E)
      → (Holds service law prefix name o e → Holds service law prefix name o next)
      → Fine o phase e
      → Fine o phase next
  Fine-keeps o outside e next keeps fine = tt
  Fine-keeps o (acquiring p) e next keeps (inl trying) = inl trying
  Fine-keeps o (acquiring p) e next keeps (inr (gentle, held)) = inr (gentle, keeps held)
  Fine-keeps o inside e next keeps fine = keeps fine
  Fine-keeps o (releasing p) e next keeps fine = fine
  Fine-keeps o dead e next keeps fine = tt

  -- A session moves on, in its worker and in the store, and takes the lock from no other.
  moved :
      (worker : ℕ → ℕ) (s : System E) (i : ℕ) (phase : Phase) (l : Local) (e : E)
      → Inv s
      → IsSound prefix l
      → Fine (owner i) phase e
      → ((j : ℕ)
          → i ≢ j
          → Holds service law prefix name (owner j) s.store
          → Holds service law prefix name (owner j) e)
      → Inv (went service worker i (l, e) (move_to i phase s))
  moved worker s i phase l e inv sound fine keeps = record {
    sound =
        at_update (λ w l. IsSound prefix l) s.locals (worker i) l sound (λ w other. inv.sound w);
    fine =
        at_update (λ j phase. Fine (owner j) phase e) s.phases i phase fine
          (λ j other. Fine-keeps (owner j) (s.phases j) s.store e (keeps j other) (inv.fine j));
    calm = inv.calm;
  }

  moved_to :
      (s : System E) (i : ℕ) (phase : Phase)
      → Inv s
      → Fine (owner i) phase s.store
      → Inv (move_to i phase s)
  moved_to s i phase inv fine = record {
    sound = inv.sound;
    fine =
        at_update (λ j phase. Fine (owner j) phase s.store) s.phases i phase fine
          (λ j other. inv.fine j);
    calm = inv.calm;
  }

  pub in_phase :
      (s : System E) (i : ℕ) (phase : Phase)
      → Inv s
      → s.phases i ≡ phase
      → Fine (owner i) phase s.store
  in_phase s i phase inv at = subst (λ p. Fine (owner i) p s.store) at (inv.fine i)

  acquiring-Fine :
      (o : Bytes) (timeout : ℕ) (e : E)
      → o ≢ []
      → Fine o (acquiring (acquire_lock prefix name (some o) timeout)) e
  acquiring-Fine [] timeout e named = absurd (named refl)
  acquiring-Fine (b ∷ rest) timeout e named =
      inl (acquire-Trying service law prefix name b rest timeout)

  releasing-Fine :
      (o : Bytes) (e : E) → o ≢ [] → Fine o (releasing (release_lock prefix name (some o))) e
  releasing-Fine [] e named = absurd (named refl)
  releasing-Fine (b ∷ rest) e named = release-Sends service law prefix name b rest

  entered : (o : Bytes) (e : E) → Fine o (acquiring (done true)) e → Fine o inside e
  entered o e (inl refused) = cc refused
  entered o e (inr (gentle, held)) = held

  lease_kept :
      (o : Bytes) (lease : ℕ) (e next : E)
      → law.holds next (lock_key prefix name) ≡ off_lease lease (law.holds e (lock_key prefix name))
      → ((kv : KeyValue)
          → law.holds e (lock_key prefix name) ≡ some kv
          → is_on lease kv.lease ≡ true
          → kv.value ≢ o)
      → Holds service law prefix name o e
      → Holds service law prefix name o next
  lease_kept o lease e next gone off (kv, at, value) = elim (Bool-cases (is_on lease kv.lease)) [
    | inl q ↦ absurd (off kv at q value)
    | inr q ↦ (kv, ground (arith, gone, at, q), value)
  ]

  -- A lease that ends takes the lock from no session that is inside or asks for it.
  expired-Fine :
      (o : Bytes) (phase : Phase) (lease : ℕ) (e next : E)
      → law.holds next (lock_key prefix name) ≡ off_lease lease (law.holds e (lock_key prefix name))
      → ((kv : KeyValue)
          → law.holds e (lock_key prefix name) ≡ some kv
          → is_on lease kv.lease ≡ true
          → kv.value ≡ o
          → is_idle phase ≡ true)
      → Fine o phase e
      → Fine o phase next
  expired-Fine o outside lease e next gone idle fine = tt
  expired-Fine o dead lease e next gone idle fine = tt
  expired-Fine o (releasing p) lease e next gone idle fine = fine
  expired-Fine o inside lease e next gone idle fine =
      lease_kept o lease e next gone (λ kv at on value. cc (idle kv at on value)) fine
  expired-Fine o (acquiring p) lease e next gone idle fine =
      Fine-keeps o (acquiring p) e next
        (lease_kept o lease e next gone (λ kv at on value. cc (idle kv at on value))) fine

  module _ {D : Type 0} (timeout : ℕ) (dumps : D → Bytes) (loads : Bytes → Option D)
      (worker : ℕ → ℕ) (named : (i : ℕ) → owner i ≢ [])
      (different : (i j : ℕ) → owner i ≡ owner j → i ≡ j)
      (bytes : IsBytes (lock_key prefix name)) where
    Step-Inv :
        (s next : System E)
        → Step service law prefix name timeout dumps loads owner worker s next
        → Inv s
        → Inv next
    Step-Inv s next (begins i at) inv =
        moved_to s i _ inv (acquiring-Fine (owner i) timeout s.store (named i))
    Step-Inv s next (acquires i p t uuid at) inv =
        let goes =
          Asking-Goes service law prefix name (owner i) t uuid p (s.locals (worker i)) s.store
            (inv.sound (worker i)) (in_phase s i (acquiring p) inv at) in
        moved worker s i _ _ _ inv goes.sound goes.goes_on
          (λ j other held. goes.left (owner j) tt held)
    Step-Inv s next (enters i at) inv =
        moved_to s i inside inv (entered (owner i) s.store (in_phase s i _ inv at))
    Step-Inv s next (retries i at) inv =
        moved_to s i _ inv (acquiring-Fine (owner i) timeout s.store (named i))
    Step-Inv s next (fails i error at) inv = moved_to s i outside inv tt
    Step-Inv s next (leaves i at) inv =
        moved_to s i _ inv (releasing-Fine (owner i) s.store (named i))
    Step-Inv s next (unlocks i p t uuid at) inv =
        let goes =
          Sends-Goes service law prefix name (λ a. a ≢ owner i) t uuid p (s.locals (worker i))
            s.store (inv.sound (worker i)) (in_phase s i (releasing p) inv at) in
        moved worker s i _ _ _ inv goes.sound goes.goes_on
          (λ j other held. goes.left (owner j) (λ same. other (sym (different j i same))) held)
    Step-Inv s next (ends i at) inv = moved_to s i outside inv tt
    Step-Inv s next (breaks i error at) inv = moved_to s i outside inv tt
    Step-Inv s next (dies i) inv = moved_to s i dead inv tt
    Step-Inv s next (calls n op) inv = record {
      sound = inv.sound;
      fine = inv.fine;
      calm =
          at_update (λ m p. Calm service law prefix name p) s.tasks n _
            (Gentle-Calm service law prefix name _
              (program_of-Gentle prefix name bytes service law dumps loads op))
            (λ m other. inv.calm m);
    }
    Step-Inv s next (deletes n session) inv = record {
      sound = inv.sound;
      fine = inv.fine;
      calm =
          at_update (λ m p. Calm service law prefix name p) s.tasks n _
            (delete_session-Calm service law prefix name session) (λ m other. inv.calm m);
    }
    Step-Inv s next (runs n t uuid spare) inv =
        let goes =
          Calm-goes service law prefix name t uuid (s.tasks n) (s.locals (worker n)) s.store
            (inv.sound (worker n)) (inv.calm n) in
        record {
          sound =
              at_update (λ w l. IsSound prefix l) s.locals (worker n) _ goes.sound
                (λ w other. inv.sound w);
          fine = λ j. elim goes.kept [
            | inl keeps ↦ Fine-keeps (owner j) (s.phases j) s.store _ (keeps (owner j)) (inv.fine j)
            | inr (lease, revokes_it, at) ↦ subst (Fine (owner j) (s.phases j)) (sym at) (
                expired-Fine (owner j) (s.phases j) lease s.store _
                  (law.holds-revoke lease s.store (lock_key prefix name))
                  (λ kv held on value. spare lease revokes_it kv j held on value) (inv.fine j))
          ];
          calm =
              at_update (λ m p. Calm service law prefix name p) s.tasks n _ goes.goes_on
                (λ m other. inv.calm m);
        }
    Step-Inv s next (expires lease spare) inv = record {
      sound = inv.sound;
      fine = λ i.
          expired-Fine (owner i) (s.phases i) lease s.store _
            (law.holds-expire lease s.store (lock_key prefix name))
            (λ kv held on value. spare kv i held on value) (inv.fine i);
      calm = inv.calm;
    }

    pub Reached-Inv :
        (start s : System E)
        → Reached service law prefix name timeout dumps loads owner worker start s
        → Inv start
        → Inv s
    Reached-Inv start s here inv = inv
    Reached-Inv start s (then_step before step) inv =
        Step-Inv _ s step (Reached-Inv start _ before inv)
