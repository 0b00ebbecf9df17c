-- ===== src/Trainer/Buffer/Invariant.antt =====
-- What every reachable buffer satisfies: the groups that are being collected are short and pure,
-- the queue is within its bound and, for a strict buffer, made of whole groups.
use agent_rl.Common.{
  nat_eq, ◌∙◌, ℕ, ◌+◌, ◌*◌, ◌/◌, ◌≤◌, ◌<◌, ◌≡◌, sym, ap, Bool, true, false, List, [], ◌∷◌, ◌++◌,
  arith, inl, inr, Bool-cases, length, length-append, length-drop, All, All-append, ◌==◌, ==_iff,
  if◌then◌else◌, leb,
}
use native.Mathlib.Nat.{mul_assoc}
use agent_rl.Common.Divides.{lcm-Divides}
use agent_rl.Common.Table.{Table, get-put, get-remove, put, remove}
use agent_rl.Trainer.Buffer.{Item, Buffer, strict_group, members, add_grouped, stride}
use agent_rl.Trainer.Buffer.View.{Added, grouped, single, Got}
use agent_rl.Trainer.Buffer.Groups.{IsOf, Grouped, Grouped-append, Grouped-one, Grouped-split}

-- The items that one completed `add` puts into the queue at most.
abbrev pub batch_size : Buffer → ℕ
batch_size b = if strict_group b then b.group_size else 1

pub record IsValid (b : Buffer) : Type 0 where
  pub bounded : length b.queue + 1 ≤ b.max_size + batch_size b
  pub short : strict_group b ≡ true → (g : ℕ) → length (members g b.groups) < b.group_size
  pub pure : (g : ℕ) → All (IsOf g) (members g b.groups)
  pub whole : strict_group b ≡ true → Grouped b.group_size b.queue

pub members-put :
    (g h : ℕ) (xs : List Item) (d : Table ℕ (List Item))
    → members h (put g xs d) ≡ (if g == h then xs else members h d)
unfolding members
members-put g h xs d = ground (arith, get-put g h xs d)

pub members-remove :
    (g h : ℕ) (d : Table ℕ (List Item))
    → members h (remove g d) ≡ (if g == h then [] else members h d)
unfolding members
members-remove g h d = ground (arith, get-remove g h d)

pub pure-put :
    (g h : ℕ) (xs : List Item) (d : Table ℕ (List Item))
    → All (IsOf g) xs
    → All (IsOf h) (members h d)
    → All (IsOf h) (members h (put g xs d))
pure-put g h xs d p q = elim (Bool-cases (g == h)) [
  | inl e ↦ rw (members-put, e, ← (==_iff g h).0 e) p
  | inr e ↦ rw (members-put, e) q
]

pub pure-remove :
    (g h : ℕ) (d : Table ℕ (List Item))
    → All (IsOf h) (members h d)
    → All (IsOf h) (members h (remove g d))
pure-remove g h d q = elim (Bool-cases (g == h)) [
  | inl e ↦ rw (members-remove, e) tt
  | inr e ↦ rw (members-remove, e) q
]

module _ (g : ℕ) (item : Item) (b : Buffer) (s : strict_group b ≡ true) (of : IsOf g item)
    (room : length b.queue < b.max_size) (v : IsValid b) where
  abbrev pub xs : List Item
  xs = members g b.groups ++ item ∷ []

  pub xs_pure : All (IsOf g) xs
  xs_pure = All-append (IsOf g) (members g b.groups) (item ∷ []) (v.pure g) (of, tt)

  length-xs : length xs ≡ length (members g b.groups) + 1
  length-xs = length-append (members g b.groups) (item ∷ [])

  pub add_grouped-IsValid : IsValid (add_grouped g item b)
  unfolding add_grouped
  add_grouped-IsValid = elim (Bool-cases (leb b.group_size (length xs))) [
    | inl full ↦
        let n : length xs ≡ b.group_size = ground (arith, length-xs, v.short s g) in
        rw full (record {
          bounded = ground (arith, n, length-append b.queue xs);
          short = λ _ h. ground (
            arith,
            members-remove g h (put g xs b.groups),
            members-put g h xs b.groups,
            v.short s h,
          );
          pure = λ h.
              pure-remove g h (put g xs b.groups) (pure-put g h xs b.groups xs_pure (v.pure h));
          whole = λ _.
              Grouped-append b.group_size b.queue xs (v.whole s)
                (Grouped-one b.group_size g xs n xs_pure);
        })
    | inr few ↦ rw few (record {
      bounded = v.bounded;
      short = λ _ h. ground (arith, members-put g h xs b.groups, v.short s h);
      pure = λ h. pure-put g h xs b.groups xs_pure (v.pure h);
      whole = v.whole;
    })
  ]

pub single-IsValid :
    (item : Item) (b : Buffer)
    → length b.queue < b.max_size
    → strict_group b ≡ false
    → IsValid b
    → IsValid (record b { queue = b.queue ++ item ∷ []; put_signal = true })
single-IsValid item b room s v = record {
  bounded = ground (arith, length-append b.queue (item ∷ []));
  short = v.short;
  pure = v.pure;
  whole = λ t. cc (s, t);
}

-- An `add` that returns keeps the buffer valid.
pub add-IsValid : (item : Item) (b c : Buffer) → Added item b c → IsValid b → IsValid c
add-IsValid item b c (grouped g room s of e) v = rw e (add_grouped-IsValid g item b s of room v)
add-IsValid item b c (single room s e) v = rw e (single-IsValid item b room s v)

-- What `get` takes from a strict buffer is a number of whole groups.
pub taken_groups :
    (multiple : ℕ) (b : Buffer)
    → strict_group b ≡ true
    → (k : ℕ) × (length b.queue / stride multiple b * stride multiple b ≡ k * b.group_size)
taken_groups multiple b s =
    let (j, e) = (lcm-Divides b.group_size multiple).0 in
    let m : stride multiple b ≡ j * b.group_size = unfold stride in rw s e in
    (
      length b.queue / stride multiple b * j,
      ap (λ t. length b.queue / stride multiple b * t) m
          ∙ sym (mul_assoc (length b.queue / stride multiple b) j b.group_size),
    )

pub get_items-IsValid :
    (minimum multiple : ℕ) (b c : Buffer) (xs : List Item)
    → Got minimum multiple b c xs
    → IsValid b
    → IsValid c
get_items-IsValid minimum multiple b c xs got v = rw got.left (record {
  bounded = ground (
    arith,
    length-drop (length b.queue / stride multiple b * stride multiple b) b.queue,
    v.bounded,
  );
  short = v.short;
  pure = v.pure;
  whole = λ s.
      let (k, e) = taken_groups multiple b s in
      rw e (Grouped-split b.group_size k b.queue (v.whole s)).1;
})

pub signals-IsValid :
    (b : Buffer) (p g : Bool) → IsValid b → IsValid (record b { put_signal = p; get_signal = g })
signals-IsValid b p g v = record {
  bounded = v.bounded;
  short = v.short;
  pure = v.pure;
  whole = v.whole;
}
