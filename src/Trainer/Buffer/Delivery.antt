-- ===== src/Trainer/Buffer/Delivery.antt =====
-- Any interleaving of `add` and `get`: what the queue holds, what was delivered, and in what order.
use agent_rl.Common.{
  nat_eq, ℕ, ◌*◌, ◌/◌, ◌<◌, ◌≡◌, ◌∙◌, refl, ap, Bool, true, false, List, [], ◌∷◌, ◌++◌, arith, inl,
  inr, Bool-cases, append_assoc, length, take, drop, take-append-drop, leb,
}
use agent_rl.Common.Table.{get}
use agent_rl.Trainer.Buffer.{
  Item, Buffer, strict_group, members, new_buffer, add_grouped, add_resume, get_resume, stride,
}
use agent_rl.Trainer.Buffer.View.{Added, grouped, single, Got, add_view, get_view}
use agent_rl.Trainer.Buffer.Groups.{IsOf, Grouped, none_left, Grouped-append, Grouped-split}
use agent_rl.Trainer.Buffer.Invariant.{
  IsValid, add_grouped-IsValid, xs_pure, get_items-IsValid, taken_groups, single-IsValid,
  signals-IsValid,
}
use agent_rl.Trainer.Buffer.Run.{
  Run, Step, Reach, start, after_add, after_get, put, put_late, take_now, take_late, wake_put,
  wake_take, here, next,
}
use agent_rl.Trainer.Buffer.Order.{of_group, grown, full_order, few_order}

pub record RunValid (max_size group_size : ℕ) (s : Run) : Type 0 where
  pub max_same : s.buffer.max_size ≡ max_size
  pub group_same : s.buffer.group_size ≡ group_size
  pub valid : IsValid s.buffer
  pub out_whole : strict_group s.buffer ≡ true → Grouped s.buffer.group_size s.delivered
  pub order :
      strict_group s.buffer ≡ true
      → (g : ℕ)
      → of_group g s.added ≡ of_group g (s.delivered ++ s.buffer.queue) ++ members g s.buffer.groups
  pub fifo : strict_group s.buffer ≡ false → s.added ≡ s.delivered ++ s.buffer.queue

module _ {m n : ℕ} (s : Run) (v : RunValid m n s) where
  same_items :
      (k : ℕ)
      → s.delivered ++ s.buffer.queue
        ≡ s.delivered ++ take k s.buffer.queue ++ drop k s.buffer.queue
  same_items k = rw (append_assoc, take-append-drop)

  get-RunValid :
      (minimum multiple : ℕ) (c : Buffer) (xs : List Item)
      → Got minimum multiple s.buffer c xs
      → RunValid m n (after_get s xs c)
  get-RunValid minimum multiple c xs got =
      let k : ℕ = length s.buffer.queue / stride multiple s.buffer * stride multiple s.buffer in
      rw (got.left, got.taken)
        (record {
          max_same = v.max_same;
          group_same = v.group_same;
          valid = rw got.left at (get_items-IsValid minimum multiple s.buffer c xs got v.valid);
          out_whole = λ t.
              let (j, e) = taken_groups multiple s.buffer t in
              Grouped-append s.buffer.group_size s.delivered (take k s.buffer.queue) (v.out_whole t)
                (rw e (Grouped-split s.buffer.group_size j s.buffer.queue (v.valid.whole t)).0);
          order = λ t g.
              v.order t g ∙ ap (λ zs. of_group g zs ++ members g s.buffer.groups) (same_items k);
          fifo = λ t. v.fifo t ∙ same_items k;
        })

  grouped-RunValid :
      (g : ℕ) (item : Item)
      → length s.buffer.queue < s.buffer.max_size
      → strict_group s.buffer ≡ true
      → IsOf g item
      → RunValid m n (after_add s item (add_grouped g item s.buffer))
  grouped-RunValid g item room t of =
      let w = add_grouped-IsValid g item s.buffer t of room v.valid in
      elim (Bool-cases (leb s.buffer.group_size (length (grown g item s.buffer)))) [
        | inl full ↦
            unfold add_grouped in
            rw full (record {
              max_same = v.max_same;
              group_same = v.group_same;
              valid = rw (add_grouped, full) at w;
              out_whole = v.out_whole;
              order = λ u h.
                  full_order g h item s.buffer s.added s.delivered of
                    (xs_pure g item s.buffer t of room v.valid) (v.order t h);
              fifo = λ u. cc (t, u);
            })
        | inr few ↦
            unfold add_grouped in
            rw few (record {
              max_same = v.max_same;
              group_same = v.group_same;
              valid = rw (add_grouped, few) at w;
              out_whole = v.out_whole;
              order = λ u h. few_order g h item s.buffer s.added s.delivered of (v.order t h);
              fifo = λ u. cc (t, u);
            })
      ]

  single-RunValid :
      (item : Item)
      → length s.buffer.queue < s.buffer.max_size
      → strict_group s.buffer ≡ false
      → RunValid m n (
          after_add s item
            (record s.buffer { queue = s.buffer.queue ++ item ∷ []; put_signal = true }))
  single-RunValid item room t = record {
    max_same = v.max_same;
    group_same = v.group_same;
    valid = single-IsValid item s.buffer room t v.valid;
    out_whole = v.out_whole;
    order = λ u. cc (t, u);
    fifo = λ u. rw (v.fifo t) (append_assoc s.delivered s.buffer.queue (item ∷ []));
  }

  add-RunValid :
      (item : Item) (c : Buffer) → Added item s.buffer c → RunValid m n (after_add s item c)
  add-RunValid item c (grouped g room t of e) = rw e (grouped-RunValid g item room t of)
  add-RunValid item c (single room t e) = rw e (single-RunValid item room t)

-- The signals play no part.
signals-RunValid :
    {m n : ℕ} (s : Run) (p g : Bool)
    → RunValid m n s
    → RunValid m n (record s { buffer = record s.buffer { put_signal = p; get_signal = g } })
signals-RunValid s p g v = record {
  max_same = v.max_same;
  group_same = v.group_same;
  valid = signals-IsValid s.buffer p g v.valid;
  out_whole = v.out_whole;
  order = v.order;
  fifo = v.fifo;
}

Step-RunValid : {m n : ℕ} {s t : Run} → Step s t → RunValid m n s → RunValid m n t
unfolding add_resume get_resume
Step-RunValid {s} (put item b e q) v = rw q (add-RunValid s v item b (add_view item s.buffer b e))
Step-RunValid {s} (put_late item b e q) v =
    let w = signals-RunValid s s.buffer.put_signal false v in
    rw q (add-RunValid _ w item b (add_view item _ b e))
Step-RunValid {s} (take_now i j xs b e q) v =
    rw q (get-RunValid s v i j b xs (get_view i j s.buffer b xs e))
Step-RunValid {s} (take_late i j xs b e q) v =
    let w = signals-RunValid s false s.buffer.get_signal v in
    rw q (get-RunValid _ w i j b xs (get_view i j _ b xs e))
Step-RunValid {s} (wake_put q) v = rw q (signals-RunValid s s.buffer.put_signal false v)
Step-RunValid {s} (wake_take q) v = rw q (signals-RunValid s false s.buffer.get_signal v)

start-RunValid : (m n : ℕ) → RunValid m n (start m n)
unfolding new_buffer members get of_group
start-RunValid m n = record {
  max_same = refl;
  group_same = refl;
  valid = record {
    bounded = ground arith;
    short = λ t g. ground arith;
    pure = λ g. tt;
    whole = λ t. none_left refl;
  };
  out_whole = λ t. none_left refl;
  order = λ t g. refl;
  fifo = λ t. refl;
}

pub Reach-RunValid : {m n : ℕ} {s : Run} → Reach m n s → RunValid m n s
Reach-RunValid {m} {n} here = start-RunValid m n
Reach-RunValid (next r st) = Step-RunValid st (Reach-RunValid r)
