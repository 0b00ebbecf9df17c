-- ===== src/Trainer/Buffer/Service.antt =====
-- What producers and consumers can rely on, in every state that they can bring the buffer to.
use agent_rl.Common.{
  inl, inr, Bool-cases, ℕ, ◌+◌, ◌*◌, ◌/◌, ◌≤◌, ◌<◌, ◌≡◌, ◌≢◌, ◌∙◌, sym, ap, true, List, ◌++◌, arith,
  length, length-take, ltb, if◌then◌else◌,
}
use native.Mathlib.Nat.{div-mul-le_self, mul_assoc}
use agent_rl.Common.Divides.{Divides, lcm-Divides}
use agent_rl.Trainer.Buffer.{Item, Buffer, returns, waits, strict_group, members, get_items, stride}
use agent_rl.Trainer.Buffer.View.{Got, get_view}
use agent_rl.Trainer.Buffer.Groups.{Grouped, Grouped-split}
use agent_rl.Trainer.Buffer.Invariant.{taken_groups}
use agent_rl.Trainer.Buffer.Order.{of_group}
use agent_rl.Trainer.Buffer.Run.{Run, Reach}
use agent_rl.Trainer.Buffer.Delivery.{Reach-RunValid}

length-taken :
    (minimum multiple : ℕ) (b c : Buffer) (xs : List Item)
    → Got minimum multiple b c xs
    → length xs ≡ length b.queue / stride multiple b * stride multiple b
length-taken minimum multiple b c xs got =
    let k : ℕ = length b.queue / stride multiple b * stride multiple b in
    rw got.taken
      (omega (arith, length-take k b.queue, div-mul-le_self (length b.queue) (stride multiple b)))

stride-Divides : (multiple : ℕ) (b : Buffer) → Divides multiple (stride multiple b)
unfolding stride
stride-Divides multiple b = elim (Bool-cases (strict_group b)) [
  | inl s ↦ rw s (lcm-Divides b.group_size multiple).1
  | inr s ↦ rw s (1, omega arith)
]

multiple-Divides : (multiple k : ℕ) (b : Buffer) → Divides multiple (k * stride multiple b)
multiple-Divides multiple k b =
    let (j, e) = stride-Divides multiple b in
    (k * j, ap (λ t. k * t) e ∙ sym (mul_assoc k j multiple))

-- Whatever was added and taken before, a `get` that returns on a buffer with groups of `n > 1`
-- returns whole groups one after another, at least `minimum` items, and a multiple of `multiple`.
pub get_whole_groups :
    {m n : ℕ} {s : Run} (minimum multiple : ℕ) (xs : List Item) (c : Buffer)
    → Reach m n s
    → 1 < n
    → get_items minimum multiple s.buffer ≡ returns (xs, c)
    → Grouped n xs × (minimum ≤ length xs) × Divides multiple (length xs)
get_whole_groups {m} {n} {s} minimum multiple xs c r h e =
    let v = Reach-RunValid r in
    let got = get_view minimum multiple s.buffer c xs e in
    let t : strict_group s.buffer ≡ true = ground (arith, v.group_same) in
    let (k, w) = taken_groups multiple s.buffer t in
    let l = length-taken minimum multiple s.buffer c xs got in
    (
      rw (got.taken, w, ← v.group_same)
          (Grouped-split s.buffer.group_size k s.buffer.queue (v.valid.whole t)).0,
      omega (arith, l, got.enough),
      rw l (multiple-Divides multiple (length s.buffer.queue / stride multiple s.buffer) s.buffer),
    )

-- The queue never holds more than `max_size - 1` items and one batch: a group of `n > 1` items, or
-- one item where groups are not kept together.
pub queue_bounded :
    {m n : ℕ} {s : Run} → Reach m n s → length s.buffer.queue + 1 ≤ m + (if ltb 1 n then n else 1)
queue_bounded r =
    let v = Reach-RunValid r in ground (arith, v.group_same, v.max_same, v.valid.bounded)

-- With groups of `n > 1`: the items of a group that were added are, in the order of their arrival,
-- those delivered, then those in the queue, then those still collected, which are fewer than `n`.
pub group_order :
    {m n : ℕ} {s : Run} (g : ℕ)
    → Reach m n s
    → 1 < n
    → (of_group g s.added ≡ of_group g (s.delivered ++ s.buffer.queue) ++ members g s.buffer.groups)
      × (length (members g s.buffer.groups) < n)
group_order {n} {s} g r h =
    let v = Reach-RunValid r in
    let t : strict_group s.buffer ≡ true = ground (arith, v.group_same) in
    (v.order t g, rw (v.group_same) at (v.valid.short t g))

-- Without groups (`n ≤ 1`) the buffer is a queue: what was added is what was delivered followed by
-- what the queue holds, in order.
pub plain_order :
    {m n : ℕ} {s : Run} → Reach m n s → n ≤ 1 → s.added ≡ s.delivered ++ s.buffer.queue
plain_order r h = let v = Reach-RunValid r in v.fifo (ground (arith, v.group_same))

-- A `get` whose `minimum` is at least `max_size` and one batch together never returns: it waits in
-- every state that can be reached (where its stride is not zero, at which it raises).
pub get_starves :
    {m n : ℕ} {s : Run} (minimum multiple : ℕ)
    → Reach m n s
    → m + (if ltb 1 n then n else 1) ≤ minimum
    → stride multiple s.buffer ≢ 0
    → get_items minimum multiple s.buffer ≡ waits
unfolding get_items
get_starves {s} minimum multiple r big h =
    ground
      (arith, queue_bounded r, div-mul-le_self (length s.buffer.queue) (stride multiple s.buffer))
