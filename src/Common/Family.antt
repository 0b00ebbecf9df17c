-- ===== src/Common/Family.antt =====
-- A value for each task: one task's value set, and the weights of the first `n` tasks added up.
use Prim.Native.Nat.{ℕ, zero, suc, ◌+◌, ◌<◌, ◌≤◌}
use mathlib.Core.Path.{◌≡◌, ◌∙◌, refl, ap₂, subst}
use mathlib.Core.Logic.{ite, if_pos, if_neg, ◌≢◌}
use native.Mathlib.Decide.{dec_lt, ℕ_discrete}
use native.Mathlib.Omega.{arith}

abbrev pub update {ℓ} : {A : Type ℓ} → (ℕ → A) → ℕ → A → ℕ → A
update family task value = λ j. ite (ℕ_discrete task j) value (family j)

-- What is true of each of a family's values after one is set
pub at_update {ℓ κ} :
    {A : Type ℓ} (P : ℕ → A → Type κ) (f : ℕ → A) (i : ℕ) (a : A)
    → P i a
    → ((j : ℕ) → i ≢ j → P j (f j))
    → (j : ℕ) → P j (update f i a j)
at_update P f i a here there j = elim (ℕ_discrete i j) [
  | yes same ↦ subst (λ k. P k (update f i a k)) same (rw (if_pos _ refl) here)
  | no other ↦ rw (if_neg _ other) (there j other)
]

pub sum_to : ℕ → (ℕ → ℕ) → ℕ
sum_to zero g = 0
sum_to (suc n) g = g n + sum_to n g

sum_same : (n : ℕ) (g h : ℕ → ℕ) → ((j : ℕ) → j < n → g j ≡ h j) → sum_to n g ≡ sum_to n h
unfolding sum_to
sum_same zero g h e = refl
sum_same (suc n) g h e = ap₂ ◌+◌ (e n (omega arith)) (sum_same n g h (λ j l. e j (omega arith)))

-- Sums of what differs at one place differ by what stands there.
sum_change :
    (n : ℕ) (g h : ℕ → ℕ) (i : ℕ)
    → i < n
    → ((j : ℕ) → j ≢ i → g j ≡ h j)
    → sum_to n g + h i ≡ sum_to n h + g i
unfolding sum_to
sum_change zero g h i l e = absurd (omega arith)
sum_change (suc n) g h i l e = elim (dec_lt i n) [
  | yes below ↦ omega (arith, sum_change n g h i below e, e n (λ q. omega arith))
  | no last ↦ ground (arith, sum_same n g h (λ j m. e j (λ q. omega arith)))
]

sum_bounds_one : (n : ℕ) (g : ℕ → ℕ) (i : ℕ) → i < n → g i ≤ sum_to n g
unfolding sum_to
sum_bounds_one zero g i l = absurd (omega arith)
sum_bounds_one (suc n) g i l = elim (ℕ_discrete i n) [
  | yes at ↦ ground arith
  | no away ↦ omega (arith, sum_bounds_one n g i (omega arith))
]

sum_bounds_two : (n : ℕ) (g : ℕ → ℕ) (i j : ℕ) → i < j → j < n → g i + g j ≤ sum_to n g
unfolding sum_to
sum_bounds_two zero g i j p q = absurd (omega arith)
sum_bounds_two (suc n) g i j p q = elim (ℕ_discrete j n) [
  | yes at ↦ ground (arith, sum_bounds_one n g i)
  | no away ↦ omega (arith, sum_bounds_two n g i j p (omega arith))
]

sum_has_positive : (n : ℕ) (g : ℕ → ℕ) → 0 < sum_to n g → (i : ℕ) × (i < n) × (0 < g i)
unfolding sum_to
sum_has_positive zero g p = absurd (omega arith)
sum_has_positive (suc n) g p = elim (dec_lt 0 (g n)) [
  | yes here ↦ (n, omega arith, here)
  | no empty ↦ let (i, q, r) = sum_has_positive n g (omega arith) in (i, omega arith, r)
]

sum_nothing : (n : ℕ) → sum_to n (λ i. 0) ≡ 0
unfolding sum_to
sum_nothing zero = refl
sum_nothing (suc n) = omega (arith, sum_nothing n)

module _ {ℓ} {A : Type ℓ} (w : A → ℕ) where
  unfoldable pub total : ℕ → (ℕ → A) → ℕ
  total n family = sum_to n (λ i. w (family i))

  pub total-update :
      (n : ℕ) (family : ℕ → A) (task : ℕ) (value : A)
      → task < n
      → total n (update family task value) + w (family task) ≡ total n family + w value
  unfolding total
  total-update n family task value l = ground (
    arith,
    sum_change n (λ j. w (update family task value j)) (λ j. w (family j)) task l
        (λ j away. ground arith),
  )

  pub total_congr : (n : ℕ) (f g : ℕ → A) → ((i : ℕ) → w (f i) ≡ w (g i)) → total n f ≡ total n g
  unfolding total
  total_congr n f g same = sum_same n (λ i. w (f i)) (λ i. w (g i)) (λ i l. same i)

  pub total_member : (n : ℕ) (f : ℕ → A) (i : ℕ) → i < n → w (f i) ≤ total n f
  unfolding total
  total_member n f = sum_bounds_one n (λ i. w (f i))

  pub total_two : (n : ℕ) (f : ℕ → A) (i j : ℕ) → i < j → j < n → w (f i) + w (f j) ≤ total n f
  unfolding total
  total_two n f = sum_bounds_two n (λ i. w (f i))

  pub total_positive : (n : ℕ) (f : ℕ → A) → 0 < total n f → (i : ℕ) × (i < n) × (0 < w (f i))
  unfolding total
  total_positive n f = sum_has_positive n (λ i. w (f i))

  pub total_zero : (n : ℕ) (f : ℕ → A) → ((i : ℕ) → w (f i) ≡ 0) → total n f ≡ 0
  unfolding total
  total_zero n f none_weighs =
      sum_same n (λ i. w (f i)) (λ i. 0) (λ i l. none_weighs i) ∙ sum_nothing n
