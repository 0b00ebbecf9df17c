-- ===== src/Worker/Etcd/Held.antt =====
-- What the requests of etcd.py do to a lock that an owner holds.
use mathlib.Core.Path.{subst}
use agent_rl.Common.{
  ℕ, ◌≡◌, ◌≢◌, refl, sym, ap, ◌∙◌, Bool, true, false, Bool-cases, inl, inr, Option, none, some,
  List, [], ◌∷◌, list_eq, beq, beq_iff, if◌then◌else◌, arith,
}
use agent_rl.Worker.Etcd
use agent_rl.Worker.Etcd.{
  Bytes, KeyValue, Compare, range, delete_range, RequestOp, Response, decided, version_is, value_is,
  Request, single, txn, lease_grant, lease_keep_alive,
}
use agent_rl.Worker.Etcd.Keys.{in_range}
use agent_rl.Worker.Etcd.Service.{Service, IsEtcd, to_list, meets, each, decide}
use agent_rl.Worker.Etcd.Locks.{claim, disclaim, is_granted}

module _ {E : Type 0} (service : Service E) (law : IsEtcd service) (lock : Bytes) where
  -- The store has the owner under the key of the lock.
  abbrev pub Held : Bytes → E → Type 0
  Held owner e = (kv : KeyValue) × (law.holds e lock ≡ some kv) × (kv.value ≡ owner)

  -- A request takes the lock from none of these owners.
  abbrev pub Leaves : (Bytes → Type 0) → Request → Type 0
  Leaves Owners r =
      (owner : Bytes) → Owners owner → (e : E) → Held owner e → Held owner (service.serve r e).1

  pub one_owner : (a b : Bytes) (e : E) → Held a e → Held b e → a ≡ b
  one_owner a b e (kv, at, va) (kw, bt, vb) = cc (at, bt, va, vb)

  as_before :
      (a : Bytes) (e next : E) → law.holds next lock ≡ law.holds e lock → Held a e → Held a next
  as_before a e next same (kv, at, value) = (kv, same ∙ at, value)

  -- After a transaction, from what its operations do
  after_txn :
      (a : Bytes) (compare : List Compare) (success failure : List RequestOp) (e : E) (b : Bool)
      → meets (law.holds e) compare ≡ b
      → Held a (each service (if b then success else failure) e).1
      → Held a (service.serve (txn compare success failure) e).1
  after_txn a compare success failure e b m h =
      subst (λ (x : Response × E). Held a x.1)
        (sym (
          law.serve-txn compare success failure e
          ∙ ap (λ c. decide service c (success, failure) e) m))
        h

  module _ (Owners : Bytes → Type 0) where
    pub Leaves-range : (key : Bytes) (end : Option Bytes) → Leaves Owners (single (range key end))
    Leaves-range key end a o e h = as_before a e _ (law.holds-range key end e lock) h

    pub Leaves-grant : (ttl : ℕ) → Leaves Owners (lease_grant ttl)
    Leaves-grant ttl a o e h = as_before a e _ (law.holds-grant ttl e lock) h

    pub Leaves-keep_alive : (lease : ℕ) → Leaves Owners (lease_keep_alive lease)
    Leaves-keep_alive lease a o e h = as_before a e _ (law.holds-keep_alive lease e lock) h

    pub Leaves-put :
        (key value : Bytes) (lease : Option ℕ)
        → beq key lock ≡ false
        → Leaves Owners (single (Etcd.put key value lease))
    Leaves-put key value lease away a o e h =
        as_before a e _ (ground (arith, law.holds-put key value lease e lock, away)) h

    pub Leaves-delete :
        (key : Bytes) → beq key lock ≡ false → Leaves Owners (single (delete_range key none))
    Leaves-delete key away a o e h =
        as_before a e _ (ground (arith, law.holds-delete key e lock, away)) h

    pub Leaves-delete_range :
        (key end : Bytes)
        → in_range key end lock ≡ false
        → Leaves Owners (single (delete_range key (some end)))
    Leaves-delete_range key end away a o e h =
        as_before a e _ (ground (arith, law.holds-delete_range key end e lock, away)) h

    pub Leaves-swap :
        (compare : Compare) (key value : Bytes)
        → beq key lock ≡ false
        → Leaves Owners (txn (compare ∷ []) (Etcd.put key value none ∷ []) [])
    Leaves-swap compare key value away a o e h =
        elim (Bool-cases (meets (law.holds e) (compare ∷ []))) [
          | inl m ↦
              after_txn a (compare ∷ []) (Etcd.put key value none ∷ []) [] e true m
                (Leaves-put key value none away a o e h)
          | inr m ↦ after_txn a (compare ∷ []) (Etcd.put key value none ∷ []) [] e false m h
        ]

    pub Leaves-claim : (owner : Bytes) (lease : ℕ) → Leaves Owners (claim lock owner lease)
    unfolding claim
    Leaves-claim owner lease a o e (kv, at, value) =
        after_txn a (version_is lock 0 ∷ []) (Etcd.put lock owner (some lease) ∷ [])
          (range lock none ∷ []) e false (ground (arith, at, law.version-pos lock e kv at))
          (Leaves-range lock none a o e (kv, at, value))

  pub Leaves-disclaim : (owner : Bytes) → Leaves (λ a. a ≢ owner) (disclaim lock owner)
  unfolding disclaim
  Leaves-disclaim owner a other e (kv, at, value) =
      after_txn a (value_is lock owner ∷ []) (delete_range lock none ∷ []) [] e false
        (ground (arith, at, value, beq_iff kv.value owner, other)) (kv, at, value)

  read_owner :
      (owner : Bytes) (o : Option KeyValue)
      → is_granted owner (decided false (to_list o ∷ [])) ≡ true
      → (kv : KeyValue) × (o ≡ some kv) × (kv.value ≡ owner)
  unfolding is_granted
  read_owner owner none g = absurd (ground (arith, g))
  read_owner owner (some kv) g = (kv, refl, ground (arith, g, beq_iff kv.value owner))

  put_owner :
      (owner : Bytes) (lease : ℕ) (e : E)
      → Held owner (service.serve (single (Etcd.put lock owner (some lease))) e).1
  put_owner owner lease e = (
    law.stored lock owner (some lease) e,
    ground (arith, law.holds-put lock owner (some lease) e lock, beq_iff lock lock),
    law.stored-value lock owner (some lease) e,
  )

  refused_reply :
      (owner : Bytes) (lease : ℕ) (e : E)
      → meets (law.holds e) (version_is lock 0 ∷ []) ≡ false
      → (service.serve (claim lock owner lease) e).0
        ≡ decided false (to_list (law.holds e lock) ∷ [])
  unfolding claim
  refused_reply owner lease e m = rw (law.serve-txn, m, law.serve-range) refl

  -- When the answer to a claim says so, the lock is held.
  pub claim-Held :
      (owner : Bytes) (lease : ℕ) (e : E)
      → is_granted owner (service.serve (claim lock owner lease) e).0 ≡ true
      → Held owner (service.serve (claim lock owner lease) e).1
  unfolding claim
  claim-Held owner lease e g = elim (Bool-cases (meets (law.holds e) (version_is lock 0 ∷ []))) [
    | inl m ↦
        after_txn owner (version_is lock 0 ∷ []) (Etcd.put lock owner (some lease) ∷ [])
          (range lock none ∷ []) e true m (put_owner owner lease e)
    | inr m ↦
        after_txn owner (version_is lock 0 ∷ []) (Etcd.put lock owner (some lease) ∷ [])
          (range lock none ∷ []) e false m
          (as_before owner e _ (law.holds-range lock none e lock) (
            read_owner owner (law.holds e lock)
              (subst (λ r. is_granted owner r ≡ true) (refused_reply owner lease e m) g)))
  ]
