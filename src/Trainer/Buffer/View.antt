-- ===== src/Trainer/Buffer/View.antt =====
-- When `add` and `get` return, and with what: the inversions that the proofs use.
use agent_rl.Common.{
  ℕ, ◌*◌, ◌/◌, ◌≤◌, ◌<◌, ◌≡◌, ◌≢◌, true, false, List, [], ◌∷◌, ◌++◌, arith, inl, inr, Bool-cases,
  Option-cases, length, take, drop, leb,
}
use agent_rl.Trainer.Buffer.{
  Item, Buffer, returns, strict_group, add, add_body, add_grouped, get_items, stride,
}
use agent_rl.Trainer.Buffer.Groups.{IsOf}

pub data Added (item : Item) (b c : Buffer) : Type 0 where
  grouped :
      (g : ℕ)
      → length b.queue < b.max_size
      → strict_group b ≡ true
      → IsOf g item
      → c ≡ add_grouped g item b
      → Added item b c
  single :
      length b.queue < b.max_size
      → strict_group b ≡ false
      → c ≡ record b { queue = b.queue ++ item ∷ []; put_signal = true }
      → Added item b c

pub add_view : (item : Item) (b c : Buffer) → add item b ≡ returns c → Added item b c
unfolding add add_body
add_view item b c e = elim (Bool-cases (leb b.max_size (length b.queue))) [
  | inl full ↦ cc (rw full at e)
  | inr room ↦ elim (Bool-cases (strict_group b)) [
    | inl s ↦ elim (Option-cases item.group_id) [
      | inl n ↦ cc (rw (room, s, n) at e)
      | inr (g, of) ↦ grouped g (ground arith) s of (ground arith)
    ]
    | inr s ↦ single (ground arith) s (ground arith)
  ]
]

pub record Got (minimum multiple : ℕ) (b c : Buffer) (xs : List Item) : Type 0 where
  pub nonzero : stride multiple b ≢ 0
  pub enough : minimum ≤ length b.queue / stride multiple b * stride multiple b
  pub taken : xs ≡ take (length b.queue / stride multiple b * stride multiple b) b.queue
  pub left : c ≡ record b {
    queue = drop (length b.queue / stride multiple b * stride multiple b) b.queue;
    get_signal = true;
  }

pub get_view :
    (minimum multiple : ℕ) (b c : Buffer) (xs : List Item)
    → get_items minimum multiple b ≡ returns (xs, c)
    → Got minimum multiple b c xs
unfolding get_items
get_view minimum multiple b c xs e = record {
  nonzero = ground arith;
  enough = ground arith;
  taken = ground arith;
  left = ground arith;
}
