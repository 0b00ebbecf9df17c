-- ===== src/Common/Table.antt =====
-- A Python `dict`: an association list that keeps the order of insertion.
use agent_rl.Common.Equality.{Eq, beq, beq_iff}
use agent_rl.Common.Tests.{if◌then◌else◌, Bool-cases}
use mathlib.Core.Logic.{◌⊎◌, inl, inr}
use agent_rl.Common.Lists.{length}
use Prim.Native.Nat.{◌+◌, ◌≤◌}
use mathlib.Core.Path.{◌≡◌, refl}
use mathlib.Core.Bool.{Bool, true, false}
use mathlib.Core.Option.{Option, none, some}
use mathlib.Core.List.{List, [], ◌∷◌}
use native.Mathlib.Omega.{arith}

abbrev pub Table {ℓ κ} : Type ℓ → Type κ → Type (ℓ ⊔ κ)
Table K V = List (K × V)

module _ {ℓ κ} {K : Type ℓ} {V : Type κ} ⦃e : Eq K⦄ where
  -- d.get(k)
  unfoldable pub get : K → Table K V → Option V
  get k [] = none
  get k ((j, v) ∷ d) = if beq j k then some v else get k d

  -- k in d
  unfoldable pub has : K → Table K V → Bool
  has k [] = false
  has k ((j, v) ∷ d) = if beq j k then true else has k d

  -- d[k] = v
  unfoldable pub put : K → V → Table K V → Table K V
  put k v [] = (k, v) ∷ []
  put k v ((j, w) ∷ d) = if beq j k then (j, v) ∷ d else (j, w) ∷ put k v d

  -- d.pop(k, None), del d[k]
  unfoldable pub remove : K → Table K V → Table K V
  remove k [] = []
  remove k ((j, w) ∷ d) = let rest = remove k d in if beq j k then rest else (j, w) ∷ rest

  pub get-put :
      (k j : K) (v : V) (d : Table K V) → get j (put k v d) ≡ (if beq k j then some v else get j d)
  unfolding get put
  get-put k j v [] = refl
  get-put k j v ((i, w) ∷ d) =
      ground (arith, beq_iff i k, beq_iff i j, beq_iff k j, get-put k j v d)

  pub get-remove :
      (k j : K) (d : Table K V) → get j (remove k d) ≡ (if beq k j then none else get j d)
  unfolding get remove
  get-remove k j [] = ground arith
  get-remove k j ((i, w) ∷ d) =
      ground (arith, beq_iff i k, beq_iff i j, beq_iff k j, get-remove k j d)

  pub has-put :
      (k j : K) (v : V) (d : Table K V) → has j (put k v d) ≡ (if beq k j then true else has j d)
  unfolding has put
  has-put k j v [] = refl
  has-put k j v ((i, w) ∷ d) =
      ground (arith, beq_iff i k, beq_iff i j, beq_iff k j, has-put k j v d)

  pub has-remove :
      (k j : K) (d : Table K V) → has j (remove k d) ≡ (if beq k j then false else has j d)
  unfolding has remove
  has-remove k j [] = ground arith
  has-remove k j ((i, w) ∷ d) =
      ground (arith, beq_iff i k, beq_iff i j, beq_iff k j, has-remove k j d)

  pub has-get : (k : K) (d : Table K V) (v : V) → get k d ≡ some v → has k d ≡ true
  unfolding get has
  has-get k [] v h = ground arith
  has-get k ((i, w) ∷ d) v h = ground (arith, has-get k d v)

  pub get_of_has : (k : K) (d : Table K V) → has k d ≡ false → get k d ≡ none
  unfolding get has
  get_of_has k [] h = refl
  get_of_has k ((i, w) ∷ d) h = ground (arith, get_of_has k d)

  pub length-put_new :
      (k : K) (v : V) (d : Table K V) → has k d ≡ false → length (put k v d) ≡ length d + 1
  unfolding has put
  length-put_new k v [] h = omega arith
  length-put_new k v ((i, w) ∷ d) h = ground (arith, length-put_new k v d)

  pub length-put_old :
      (k : K) (v : V) (d : Table K V) → has k d ≡ true → length (put k v d) ≡ length d
  unfolding has put
  length-put_old k v [] h = cc h
  length-put_old k v ((i, w) ∷ d) h = ground (arith, length-put_old k v d)

  pub length-remove-le : (k : K) (d : Table K V) → length (remove k d) ≤ length d
  unfolding remove
  length-remove-le k [] = omega arith
  length-remove-le k ((i, w) ∷ d) = ground (arith, length-remove-le k d)

  pub get-put_self : (k : K) (v : V) (d : Table K V) → get k (put k v d) ≡ some v
  get-put_self k v d = ground (arith, get-put k k v d, beq_iff k k)

  -- Where a value that is found comes from
  pub get-put_cases :
      (k j : K) (v w : V) (d : Table K V)
      → get j (put k v d) ≡ some w
      → ((k ≡ j) × (v ≡ w)) ⊎ (get j d ≡ some w)
  get-put_cases k j v w d e = elim (Bool-cases (beq k j)) [
    | inl q ↦ inl ((beq_iff k j).0 q, ground (arith, e, get-put k j v d, q))
    | inr q ↦ inr (ground (arith, e, get-put k j v d, q))
  ]

  pub get-remove-some :
      (k j : K) (w : V) (d : Table K V) → get j (remove k d) ≡ some w → get j d ≡ some w
  get-remove-some k j w d e = elim (Bool-cases (beq k j)) [
    | inl q ↦ absurd (ground (arith, e, get-remove k j d, q))
    | inr q ↦ ground (arith, e, get-remove k j d, q)
  ]

pub ruleset table_laws = (get-put, get-remove, has-put, has-remove)
