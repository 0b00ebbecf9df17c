-- ===== src/Worker/Etcd/Counting/Later.antt =====
-- How the pair under a key of the etcd store changes with time, and what an increment of
-- worker/src/agentrl/worker/environment/state/etcd.py does to a count.
use mathlib.Core.Path.{subst}
use agent_rl.Common.{
  ℕ, ◌+◌, ◌≤◌, ◌≡◌, refl, sym, ap, ◌∙◌, inl, inr, Bool, true, false, Bool-cases, Option-cases,
  Option, none, some, [], ◌∷◌, list_eq, beq_iff, arith,
}
use agent_rl.Worker.Etcd.{
  Bytes, KeyValue, Compare, version_is, mod_is, Request, Response, range, delete_range, single,
}
use agent_rl.Worker.Etcd.Numbers.{str, int_or_zero, int_or_zero-str}
use agent_rl.Worker.Etcd.Containers.{swap, has_succeeded}
use agent_rl.Worker.Etcd.Service.{Service, IsEtcd, meets}
use agent_rl.Worker.Etcd.Counting.{successes}

-- The count that a pair stands for; `none` is a ValueError.
abbrev pub count_of : Option KeyValue → Option ℕ
count_of none = some 0
count_of (some kv) = int_or_zero kv.value

-- That the key still has the pair that was read
abbrev pub as_read : Bytes → Option KeyValue → Compare
as_read key none = version_is key 0
as_read key (some kv) = mod_is key kv.mod_revision

module _ {E : Type 0} (service : Service E) (law : IsEtcd service) (key : Bytes) where
  abbrev pub at : E → Option KeyValue
  at e = law.holds e key

  -- A pair that is not newer than the earlier store was there then.
  pub record Later (e next : E) : Type 0 where
    pub grows : law.revision e ≤ law.revision next
    pub old :
        (kv : KeyValue) → at next ≡ some kv → kv.mod_revision ≤ law.revision e → at e ≡ some kv

  pub Later-refl : (e : E) → Later e e
  Later-refl e = record { grows = omega arith; old = λ kv q l. q }

  pub Later-trans : (a b c : E) → Later a b → Later b c → Later a c
  Later-trans a b c p q = record {
    grows = omega (arith, p.grows, q.grows);
    old = λ kv x l. p.old kv (q.old kv x (omega (arith, l, p.grows))) l;
  }

  pub Later-same : (e next : E) → law.revision e ≤ law.revision next → at next ≡ at e → Later e next
  Later-same e next l same = record { grows = l; old = λ kv q m. sym same ∙ q }

  pub Later-range : (e : E) → Later e (service.serve (single (range key none)) e).1
  Later-range e = Later-same e _ (law.revision-serve _ e) (law.holds-range key none e key)

  pub Later-delete : (e : E) → Later e (service.serve (single (delete_range key none)) e).1
  Later-delete e = record {
    grows = law.revision-serve _ e;
    old = λ kv q l. absurd (ground (arith, q, law.holds-delete key e key, beq_iff key key));
  }

  -- The request of an increment, by what was read in an earlier store
  pub record IsIncrement (r : Request) (e : E) : Type 0 where
    pub seen : E
    pub since : Later seen e
    pub count : ℕ
    pub counted : count_of (at seen) ≡ some count
    pub is_swap : r ≡ swap key (as_read key (at seen), str (count + 1))

  abbrev is_unchanged : Option KeyValue → E → Bool
  is_unchanged o e = meets (law.holds e) (as_read key o ∷ [])

  unchanged-none : (e : E) → is_unchanged none e ≡ true → at e ≡ none
  unchanged-none e m = elim (Option-cases (at e)) [
    | inl q ↦ q
    | inr (kv, q) ↦ absurd (ground (arith, m, q, law.version-pos key e kv q))
  ]

  same_mod :
      (kv kw : KeyValue) (e : E)
      → at e ≡ some kw
      → is_unchanged (some kv) e ≡ true
      → kw.mod_revision ≡ kv.mod_revision
  same_mod kv kw e p m = ground (arith, m, p)

  unchanged-some :
      (seen e : E) (kv : KeyValue)
      → Later seen e
      → at seen ≡ some kv
      → is_unchanged (some kv) e ≡ true
      → at e ≡ some kv
  unchanged-some seen e kv since q m = elim (Option-cases (at e)) [
    | inl p ↦ absurd (ground (arith, m, p, law.mod-pos key seen kv q))
    | inr (kw, p) ↦
        let known =
          since.old kw p (omega (arith, same_mod kv kw e p m, law.mod-le key seen kv q)) in
        p ∙ sym known ∙ q
  ]

  -- If the key still has the pair that was read, it is the pair.
  unchanged :
      (seen e : E) (o : Option KeyValue)
      → Later seen e
      → at seen ≡ o
      → is_unchanged o e ≡ true
      → at e ≡ o
  unchanged seen e none since q m = unchanged-none e m
  unchanged seen e (some kv) since q m = unchanged-some seen e kv since q m

  abbrev swapped : Option KeyValue → Bytes → E → Response × E
  swapped o text e = service.serve (swap key (as_read key o, text)) e

  swap-true :
      (o : Option KeyValue) (text : Bytes) (e : E)
      → is_unchanged o e ≡ true
      → (at (swapped o text e).1 ≡ some (law.stored key text none e))
        × (has_succeeded (swapped o text e).0 ≡ true)
  unfolding swap
  swap-true o text e m =
      rw (law.serve-txn, m)
        (ground (arith, law.holds-put key text none e key, beq_iff key key), refl)

  swap-false :
      (o : Option KeyValue) (text : Bytes) (e : E)
      → is_unchanged o e ≡ false
      → (at (swapped o text e).1 ≡ at e) × (has_succeeded (swapped o text e).0 ≡ false)
  unfolding swap
  swap-false o text e m = rw (law.serve-txn, m) (refl, refl)

  count-stored :
      (n : ℕ) (e next : E)
      → at next ≡ some (law.stored key (str n) none e)
      → count_of (at next) ≡ some n
  count-stored n e next q =
      ap count_of q ∙ ap int_or_zero (law.stored-value key (str n) none e) ∙ int_or_zero-str n

  one_count : (m n : ℕ) (o : Option ℕ) → o ≡ some m → o ≡ some n → m ≡ n
  one_count m n o p q = cc (p, q)

  -- An increment adds one when it succeeds, and nothing when it fails.
  swapped-counts :
      (seen e : E) (count made : ℕ)
      → Later seen e
      → count_of (at seen) ≡ some count
      → count_of (at e) ≡ some made
      → count_of (at (swapped (at seen) (str (count + 1)) e).1)
        ≡ some (made + successes service (swap key (as_read key (at seen), str (count + 1))) e)
  swapped-counts seen e count made since counted q = elim (Bool-cases (is_unchanged (at seen) e)) [
    | inl m ↦
        let (stored, yes_won) = swap-true (at seen) (str (count + 1)) e m in
        let same = unchanged seen e (at seen) since refl m in
        let agree = one_count made count (count_of (at e)) q (ap count_of same ∙ counted) in
        rw (yes_won, agree) (count-stored (count + 1) e _ stored)
    | inr m ↦
        let (same, no_win) = swap-false (at seen) (str (count + 1)) e m in
        rw no_win (ap count_of same ∙ q ∙ ap some (omega arith))
  ]

  pub increment-counts :
      (r : Request) (e : E) (made : ℕ)
      → IsIncrement r e
      → count_of (at e) ≡ some made
      → count_of (at (service.serve r e).1) ≡ some (made + successes service r e)
  increment-counts r e made inc q =
      subst (λ s. count_of (at (service.serve s e).1) ≡ some (made + successes service s e))
        (sym inc.is_swap) (swapped-counts inc.seen e inc.count made inc.since inc.counted q)

  new_pair :
      (kv : KeyValue) (text : Bytes) (e : E)
      → some kv ≡ some (law.stored key text none e)
      → kv.mod_revision ≤ law.revision e
      → ⊥
  new_pair kv text e q l = ground (arith, q, l, law.stored-mod key text none e)

  swapped-Later : (o : Option KeyValue) (text : Bytes) (e : E) → Later e (swapped o text e).1
  swapped-Later o text e = elim (Bool-cases (is_unchanged o e)) [
    | inl m ↦ record {
      grows = law.revision-serve _ e;
      old = λ kv q l. absurd (new_pair kv text e (sym q ∙ (swap-true o text e m).0) l);
    }
    | inr m ↦ Later-same e _ (law.revision-serve _ e) (swap-false o text e m).0
  ]

  pub increment-Later : (r : Request) (e : E) → IsIncrement r e → Later e (service.serve r e).1
  increment-Later r e inc =
      subst (λ s. Later e (service.serve s e).1) (sym inc.is_swap)
        (swapped-Later (at inc.seen) (str (inc.count + 1)) e)

  pub IsIncrement-stays :
      (r : Request) (e next : E) → Later e next → IsIncrement r e → IsIncrement r next
  IsIncrement-stays r e next later inc = record {
    seen = inc.seen;
    since = Later-trans inc.seen e next inc.since later;
    count = inc.count;
    counted = inc.counted;
    is_swap = inc.is_swap;
  }
