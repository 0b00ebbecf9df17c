-- ===== src/Trainer/Buffer/Groups.antt =====
-- Lists that are whole groups one after another.
use agent_rl.Common.{
  ℕ, zero, suc, ◌+◌, ◌*◌, ◌≡◌, refl, sym, ap, some, List, [], ◌∷◌, ◌++◌, arith, append_assoc,
  append-nil, length, take, drop, All,
}
use native.Mathlib.Nat.{zero-add, suc-add}
use agent_rl.Trainer.Buffer.{Item}

abbrev pub IsOf : ℕ → Item → Type 0
IsOf g item = item.group_id ≡ some g

-- `xs` splits into batches of `n` items, each batch from one group.
pub data Grouped (n : ℕ) : List Item → Type 0 where
  none_left : {zs : List Item} → zs ≡ [] → Grouped n zs
  batch :
      {zs : List Item} (g : ℕ) (xs ys : List Item)
      → length xs ≡ n
      → All (IsOf g) xs
      → zs ≡ xs ++ ys
      → Grouped n ys
      → Grouped n zs

pub Grouped-append :
    (n : ℕ) (xs ys : List Item) → Grouped n xs → Grouped n ys → Grouped n (xs ++ ys)
Grouped-append n xs ys (none_left e) h = rw e h
Grouped-append n xs ys (batch g us vs l a e r) h =
    batch g us (vs ++ ys) l a (rw (e, append_assoc)) (Grouped-append n vs ys r h)

pub Grouped-one : (n g : ℕ) (xs : List Item) → length xs ≡ n → All (IsOf g) xs → Grouped n xs
Grouped-one n g xs l a = batch g xs [] l a (sym (append-nil xs)) (none_left refl)

take-append : (xs ys : List Item) (m : ℕ) → take (length xs + m) (xs ++ ys) ≡ xs ++ take m ys
take-append [] ys m = rw zero-add
take-append (x ∷ xs) ys m = rw suc-add (ap (λ t. x ∷ t) (take-append xs ys m))

drop-append : (xs ys : List Item) (m : ℕ) → drop (length xs + m) (xs ++ ys) ≡ drop m ys
drop-append [] ys m = rw zero-add
drop-append (x ∷ xs) ys m = rw suc-add (drop-append xs ys m)

take-nil : (m : ℕ) → take {A = Item} m [] ≡ []
take-nil zero = refl
take-nil (suc m) = refl

drop-nil : (m : ℕ) → drop {A = Item} m [] ≡ []
drop-nil zero = refl
drop-nil (suc m) = refl

next_batch : (n k : ℕ) (us : List Item) → length us ≡ n → suc k * n ≡ length us + k * n
next_batch n k us l = rw l (omega arith)

-- Of such a list, a multiple of `n` items are whole groups, and so are the rest.
pub Grouped-split :
    (n k : ℕ) (zs : List Item)
    → Grouped n zs
    → Grouped n (take (k * n) zs) × Grouped n (drop (k * n) zs)
Grouped-split n zero zs h = let e : 0 * n ≡ 0 = omega arith in rw e (none_left refl, h)
Grouped-split n (suc k) zs (none_left e) =
    rw (e, take-nil, drop-nil) (none_left refl, none_left refl)
Grouped-split n (suc k) zs (batch g us vs l a e r) =
    let ih = Grouped-split n k vs r in
    rw (e, next_batch n k us l, take-append, drop-append)
      (batch g us (take (k * n) vs) l a refl ih.0, ih.1)
