-- ===== src/Worker/Etcd/Ranges.antt =====
-- The ranges that etcd.py asks for: worker/src/agentrl/worker/environment/state/etcd.py, `_range_end`.
use agent_rl.Common.{
  ℕ, ◌+◌, ◌≤◌, ◌≡◌, ◌≢◌, refl, ap, Option, none, some, [], ◌∷◌, ◌&&◌, not, inl, inr, ◌⊎◌, All,
  arith, zero, suc,
}
use agent_rl.Worker.Etcd.{Bytes}
use agent_rl.Worker.Etcd.Keys.{
  or_bump, bumped, range_end, or_zero, is_before, is_before_end, starts_with, in_range,
}

abbrev pub IsBytes : Bytes → Type 0
IsBytes = All (λ b. b ≤ 255)

or_bump-none : (b : ℕ) (o : Option Bytes) → or_bump b o ≡ none → (o ≡ none) × (b ≡ 255)
unfolding or_bump
or_bump-none b none e = (refl, ground (arith, e))
or_bump-none b (some rest) e = cc e

-- What the loop makes of a byte, from what it makes of the later ones
or_bump-some :
    (b : ℕ) (o : Option Bytes) (end : Bytes)
    → or_bump b o ≡ some end
    → ((rest : Bytes) × (o ≡ some rest) × (end ≡ b ∷ rest))
      ⊎ ((o ≡ none) × (b ≢ 255) × (end ≡ (b + 1) ∷ []))
unfolding or_bump
or_bump-some b none end e = inr (refl, ground (arith, e), ground (arith, e))
or_bump-some b (some rest) end e = inl (rest, refl, cc e)

-- No key that starts with another byte follows a prefix of bytes 0xFF.
bumped-none :
    (prefix key : Bytes)
    → IsBytes key
    → bumped prefix ≡ none
    → not (is_before key prefix) ≡ starts_with prefix key
unfolding bumped is_before starts_with
bumped-none [] key k e = refl
bumped-none (b ∷ prefix) [] k e = refl
bumped-none (b ∷ prefix) (c ∷ key) k e =
    let (q, last) = or_bump-none b (bumped prefix) e in
    ground (arith, last, k.0, bumped-none prefix key k.1 q)

bumped-some :
    (prefix key end : Bytes)
    → IsBytes key
    → bumped prefix ≡ some end
    → (not (is_before key prefix) && is_before key end) ≡ starts_with prefix key
unfolding bumped is_before starts_with
bumped-some [] key end k e = cc e
bumped-some (b ∷ prefix) [] end k e = refl
bumped-some (b ∷ prefix) (c ∷ key) end k e = elim (or_bump-some b (bumped prefix) end e) [
  | inl (rest, q, at) ↦ rw at (ground (arith, bumped-some prefix key rest k.1 q))
  | inr (q, low, at) ↦ rw at (ground (arith, low, bumped-none prefix key k.1 q))
]

-- The end that the loop finds is not the zero byte, which stands for no end.
abbrev IsEnd : Bytes → Type 0
IsEnd end =
    ((x : ℕ) × (end ≡ suc x ∷ [])) ⊎ ((x : ℕ) × (y : ℕ) × (rest : Bytes) × (end ≡ x ∷ y ∷ rest))

after_end : (b : ℕ) (end : Bytes) → IsEnd end → IsEnd (b ∷ end)
after_end b end (inl (x, e)) = inr (b, suc x, [], rw e refl)
after_end b end (inr (x, y, rest, e)) = inr (b, x, y ∷ rest, rw e refl)

bumped-IsEnd : (prefix end : Bytes) → bumped prefix ≡ some end → IsEnd end
unfolding bumped
bumped-IsEnd [] end e = cc e
bumped-IsEnd (b ∷ prefix) end e = elim (or_bump-some b (bumped prefix) end e) [
  | inl (rest, q, at) ↦ rw at (after_end b rest (bumped-IsEnd prefix rest q))
  | inr (q, low, at) ↦ inl (b, rw at (ap (λ n. n ∷ []) (omega arith)))
]

is_before_end-IsEnd : (key end : Bytes) → IsEnd end → is_before_end key end ≡ is_before key end
is_before_end-IsEnd key end (inl (x, e)) = rw e refl
is_before_end-IsEnd key end (inr (zero, y, rest, e)) = rw e refl
is_before_end-IsEnd key end (inr (suc x, y, rest, e)) = rw e refl

range_to :
    (prefix key : Bytes) (o : Option Bytes)
    → IsBytes key
    → bumped prefix ≡ o
    → in_range prefix (or_zero o) key ≡ starts_with prefix key
unfolding in_range or_zero
range_to prefix key none k q = ground (arith, bumped-none prefix key k q)
range_to prefix key (some end) k q =
    rw (is_before_end-IsEnd key end (bumped-IsEnd prefix end q)) (bumped-some prefix key end k q)

-- The range from a prefix to its end holds the keys that start with the prefix, and no others.
pub in_range-range_end :
    (prefix key : Bytes)
    → IsBytes key
    → in_range prefix (range_end prefix) key ≡ starts_with prefix key
unfolding range_end
in_range-range_end prefix key k = range_to prefix key (bumped prefix) k refl
