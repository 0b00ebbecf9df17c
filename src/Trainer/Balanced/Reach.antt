-- ===== src/Trainer/Balanced/Reach.antt =====
-- Which indices a balanced dataset has, and where each sample is.
use agent_rl.Common.{
  ℕ, zero, suc, ◌+◌, ◌*◌, ◌%◌, ◌/◌, ◌<◌, ◌≡◌, refl, ap, ◌∙◌, some, List, [], ◌∷◌, length, get_elem?,
  arith, All,
}
use native.Mathlib.Nat.{mod-lt, mod-eq_of_lt, div-eq_of_lt, add-mul-mod_self_left, add-mul-div_left}
use agent_rl.Trainer.Balanced.{getitem}

get_elem?-some :
    {A : Type 0} (xs : List A) (i : ℕ) → i < length xs → (a : A) × (get_elem? xs i ≡ some a)
get_elem?-some [] i l = absurd (omega arith)
get_elem?-some (x ∷ xs) zero l = (x, refl)
get_elem?-some (x ∷ xs) (suc i) l = get_elem?-some xs i (omega arith)

get_elem?-lt : {A : Type 0} (xs : List A) (i : ℕ) (a : A) → get_elem? xs i ≡ some a → i < length xs
get_elem?-lt [] i a e = cc e
get_elem?-lt (x ∷ xs) zero a e = omega arith
get_elem?-lt (x ∷ xs) (suc i) a e = omega (arith, get_elem?-lt xs i a e)

get_elem?-All :
    {A : Type 0} (P : A → Type 0) (xs : List A) (i : ℕ) (a : A)
    → All P xs
    → get_elem? xs i ≡ some a
    → P a
get_elem?-All P [] i a h e = cc e
get_elem?-All P (x ∷ xs) zero a h e = by_equal (cc e)
  where
    by_equal : a ≡ x → P a
    by_equal q = rw q h.0
get_elem?-All P (x ∷ xs) (suc i) a h e = get_elem?-All P xs i a h.1 e

abbrev pub IsFilled : {A : Type 0} → List A → Type 0
IsFilled xs = 0 < length xs

getitem-total :
    {A : Type 0} (datasets : List (List A)) (item : ℕ)
    → 0 < length datasets
    → All IsFilled datasets
    → (a : A) × (getitem datasets item ≡ some a)
unfolding getitem
getitem-total datasets item n h =
    let k = length datasets in
    let (xs, e) = get_elem?-some datasets (item % k) (mod-lt item n) in
    let filled = get_elem?-All IsFilled datasets (item % k) xs h e in
    let (a, f) = get_elem?-some xs (item / k % length xs) (mod-lt (item / k) filled) in
    (a, ground (arith, n, e, filled, f))

getitem-at :
    {A : Type 0} (datasets : List (List A)) (d i : ℕ) (xs : List A) (a : A)
    → get_elem? datasets d ≡ some xs
    → get_elem? xs i ≡ some a
    → getitem datasets (d + length datasets * i) ≡ some a
unfolding getitem
getitem-at datasets d i xs a e f =
    let k = length datasets in
    let below = get_elem?-lt datasets d xs e in
    let inside = get_elem?-lt xs i a f in
    let row = add-mul-mod_self_left d k i ∙ mod-eq_of_lt below in
    let column =
      add-mul-div_left d i (omega (arith, below)) ∙ ap (λ t. t + i) (div-eq_of_lt below) in
    let place = mod-eq_of_lt inside in ground (arith, below, inside, row, column, place, e, f)

-- With datasets of which none is empty, every index has a sample, and the `i`-th sample of the `d`-th of
-- `k` datasets is at the index `d + k * i`, whatever the length of the balanced dataset.
pub getitem_reaches :
    {A : Type 0} (datasets : List (List A)) (item d i : ℕ) (xs : List A) (a : A)
    → 0 < length datasets
    → All IsFilled datasets
    → get_elem? datasets d ≡ some xs
    → get_elem? xs i ≡ some a
    → ((b : A) × (getitem datasets item ≡ some b))
      × (getitem datasets (d + length datasets * i) ≡ some a)
getitem_reaches datasets item d i xs a n h e f =
    (getitem-total datasets item n h, getitem-at datasets d i xs a e f)
