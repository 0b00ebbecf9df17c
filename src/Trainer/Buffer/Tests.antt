-- ===== src/Trainer/Buffer/Tests.antt =====
-- The buffer on concrete runs: groups of two in a buffer of four, and a plain queue.
use agent_rl.Common.{
  Bool, nat_eq, ℕ, ◌+◌, ◌≤◌, ◌<◌, ◌≡◌, refl, none, some, List, [], ◌∷◌, ◌++◌, arith, length, String,
  ltb, if◌then◌else◌,
}
use agent_rl.Common.Divides.{Divides, gcd, lcm}
use agent_rl.Common.Table.{get, put, remove}
use agent_rl.Trainer.Buffer.{
  Item, Buffer, returns, waits, raises, members, new_buffer, add, get_items, stride,
}
use agent_rl.Trainer.Buffer.Groups.{Grouped}
use agent_rl.Trainer.Buffer.Order.{of_group}
use agent_rl.Trainer.Buffer.Run.{Run, Reach, Step, here, next}
use agent_rl.Trainer.Buffer.Service.{get_whole_groups, queue_bounded, group_order}

abbrev item_of : ℕ → String → Item
item_of g c = record { group_id = some g; content = c }

abbrev two : List Item
two = item_of 7 "a" ∷ item_of 7 "b" ∷ []

abbrev waiting : Buffer
waiting = record (new_buffer 4 2) { groups = (7, item_of 7 "a" ∷ []) ∷ [] }

abbrev full_pair : Buffer
full_pair = record (new_buffer 4 2) { queue = two; put_signal = Bool.true }

abbrev after_two : Run
after_two = record { buffer = full_pair; added = two; delivered = [] }

after_two_reached : Reach 4 2 after_two
unfolding add new_buffer members get put remove
after_two_reached =
    next (next here (Step.put (item_of 7 "a") waiting refl refl))
      (Step.put (item_of 7 "b") full_pair refl refl)

get_two :
    get_items 1 1 full_pair
    ≡ returns (two, record (new_buffer 4 2) { put_signal = Bool.true; get_signal = Bool.true })
unfolding get_items stride gcd lcm new_buffer
get_two = refl

get_whole_groups_example : Grouped 2 two × (1 ≤ length two) × Divides 1 (length two)
get_whole_groups_example =
    get_whole_groups 1 1 two
      (record (new_buffer 4 2) { put_signal = Bool.true; get_signal = Bool.true }) after_two_reached
      (omega arith) get_two

queue_bounded_example : length full_pair.queue + 1 ≤ 4 + (if ltb 1 2 then 2 else 1)
queue_bounded_example = queue_bounded after_two_reached

group_order_example :
    (of_group 7 two ≡ of_group 7 ([] ++ full_pair.queue) ++ members 7 full_pair.groups)
    × (length (members 7 full_pair.groups) < 2)
group_order_example = group_order 7 after_two_reached (omega arith)

abbrev plain : Buffer
plain = record (new_buffer 4 1) { queue = item_of 1 "x" ∷ []; put_signal = Bool.true }

plain_reached : Reach 4 1 (record { buffer = plain; added = item_of 1 "x" ∷ []; delivered = [] })
unfolding add new_buffer
plain_reached = next here (Step.put (item_of 1 "x") plain refl refl)

-- A strict buffer raises on an item with no group, and a full buffer makes its producer wait.
raises_without_group : add (record { group_id = none; content = "z" }) waiting ≡ raises
unfolding add new_buffer
raises_without_group = refl

waits_when_full : add (item_of 1 "y") (record full_pair { max_size = 2 }) ≡ waits
unfolding add new_buffer
waits_when_full = refl
