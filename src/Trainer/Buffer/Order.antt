-- ===== src/Trainer/Buffer/Order.antt =====
-- The items of one group keep their order on the way through the buffer.
use agent_rl.Common.{
  nat_eq, ℕ, ◌≡◌, refl, Bool, false, none, some, List, [], ◌∷◌, ◌++◌, arith, inl, inr, Bool-cases,
  append_assoc, append-nil, All, ◌==◌, ==_iff, if◌then◌else◌,
}
use agent_rl.Common.Table.{put, remove}
use agent_rl.Trainer.Buffer.{Item, Buffer, members}
use agent_rl.Trainer.Buffer.Groups.{IsOf}
use agent_rl.Trainer.Buffer.Invariant.{members-put, members-remove}

-- `item["group_id"] == g`
abbrev pub in_group : ℕ → Item → Bool
in_group g item = elim item.group_id [ none ↦ false | some h ↦ h == g ]

-- The items of one group, in their order.
unfoldable pub of_group : ℕ → List Item → List Item
of_group g [] = []
of_group g (x ∷ xs) = let rest = of_group g xs in if in_group g x then x ∷ rest else rest

of_group-append :
    (g : ℕ) (xs ys : List Item) → of_group g (xs ++ ys) ≡ of_group g xs ++ of_group g ys
unfolding of_group
of_group-append g [] ys = refl
of_group-append g (x ∷ xs) ys = ground (arith, of_group-append g xs ys)

of_group-pure :
    (g h : ℕ) (xs : List Item) → All (IsOf g) xs → of_group h xs ≡ (if g == h then xs else [])
unfolding of_group
of_group-pure g h [] p = ground arith
of_group-pure g h (x ∷ xs) p = ground (arith, of_group-pure g h xs)

of_group_one :
    (g h : ℕ) (item : Item)
    → IsOf g item
    → of_group h (item ∷ []) ≡ (if g == h then item ∷ [] else [])
of_group_one g h item of = of_group-pure g h (item ∷ []) (of, tt)

-- A group's list with one more item.
abbrev pub grown : ℕ → Item → Buffer → List Item
grown g item b = members g b.groups ++ item ∷ []

-- The order of every group is kept when one group's item comes in, whether or not it fills up.
module _ (g h : ℕ) (item : Item) (b : Buffer) (added delivered : List Item) where
  pub full_order :
      IsOf g item
      → All (IsOf g) (grown g item b)
      → of_group h added ≡ of_group h (delivered ++ b.queue) ++ members h b.groups
      → of_group h (added ++ item ∷ [])
        ≡ of_group h (delivered ++ (b.queue ++ (grown g item b)))
          ++ members h (remove g (put g (grown g item b) b.groups))
  full_order of p e = elim (Bool-cases (g == h)) [
    | inl same ↦
        rw (of_group-append h added, of_group_one g h item of, e, members-remove g h, same)
          (rw
            (
              ← append_assoc delivered b.queue (grown g item b),
              of_group-append h (delivered ++ b.queue),
              of_group-pure g h (grown g item b) p,
              same,
              append-nil,
              (==_iff g h).0 same,
            )
            (append_assoc (of_group h (delivered ++ b.queue)) (members h b.groups) (item ∷ [])))
    | inr other ↦
        rw
          (
            of_group-append h added,
            of_group_one g h item of,
            e,
            members-remove g h,
            members-put g h,
            other,
          )
          (rw
            (
              ← append_assoc delivered b.queue (grown g item b),
              of_group-append h (delivered ++ b.queue),
              of_group-pure g h (grown g item b) p,
              other,
              append-nil,
              append-nil,
            )
            refl)
  ]

  pub few_order :
      IsOf g item
      → of_group h added ≡ of_group h (delivered ++ b.queue) ++ members h b.groups
      → of_group h (added ++ item ∷ [])
        ≡ of_group h (delivered ++ b.queue) ++ members h (put g (grown g item b) b.groups)
  few_order of e = elim (Bool-cases (g == h)) [
    | inl same ↦
        rw
          (
            of_group-append h added,
            of_group_one g h item of,
            e,
            members-put g h,
            same,
            (==_iff g h).0 same,
          )
          (append_assoc (of_group h (delivered ++ b.queue)) (members h b.groups) (item ∷ []))
    | inr other ↦
        rw (of_group-append h added, of_group_one g h item of, e, members-put g h, other)
          (append-nil _)
  ]
