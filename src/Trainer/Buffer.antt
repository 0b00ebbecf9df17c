-- ===== src/Trainer/Buffer.antt =====
-- trainer/src/agentrl/trainer/components/buffer.py: the bounded buffer of finished samples.
-- A coroutine runs without interruption between two awaits, so `add` and `get` are the tests of
-- their loops and the bodies after them; `resume` is what runs when a wait on a signal returns.

pub mod Groups
pub mod Run
pub mod View
pub mod Invariant
pub mod Order
pub mod Delivery
pub mod Service
mod Tests
use agent_rl.Common.{
  nat_eq, ℕ, ◌*◌, ◌/◌, Bool, true, false, Option, none, some, List, [], ◌∷◌, ◌++◌, String, ltb, leb,
  ◌==◌, if◌then◌else◌, length, take, drop,
}
use agent_rl.Common.Divides.{lcm}
use agent_rl.Common.Table.{Table, get, put, remove}

-- Of an item the buffer reads `item["group_id"]` alone, which may be missing.
pub record Item : Type 0 where
  pub group_id : Option ℕ
  pub content : String

pub record Buffer : Type 0 where
  pub max_size : ℕ
  pub group_size : ℕ
  pub groups : Table ℕ (List Item)
  pub queue : List Item
  pub put_signal : Bool
  pub get_signal : Bool

-- `Buffer(max_size, group_size)`
unfoldable pub new_buffer : ℕ → ℕ → Buffer
new_buffer max_size group_size = record {
  max_size = max_size;
  group_size = group_size;
  groups = [];
  queue = [];
  put_signal = false;
  get_signal = false;
}

abbrev pub strict_group : Buffer → Bool
strict_group b = ltb 1 b.group_size

-- What a coroutine does next: wait for the signal, raise, or return.
pub data Turn (A : Type 0) : Type 0 where
  waits : Turn A
  raises : Turn A
  returns : A → Turn A

-- self.groups[group_id], with the empty list that the code first puts there
unfoldable pub members : ℕ → Table ℕ (List Item) → List Item
members g groups = elim (get g groups) [ none ↦ [] | some xs ↦ xs ]

-- The body of `add` for a strict group whose id is `g`.
unfoldable pub add_grouped : ℕ → Item → Buffer → Buffer
add_grouped g item b =
    let xs = members g b.groups ++ item ∷ [] in
    if leb b.group_size (length xs)
    then record b {
      queue = b.queue ++ xs;
      put_signal = true;
      groups = remove g (put g xs b.groups);
    }
    else record b { groups = put g xs b.groups }

unfoldable pub add_body : Item → Buffer → Turn Buffer
add_body item b =
    if strict_group b
    then elim item.group_id [ none ↦ raises | some g ↦ returns (add_grouped g item b) ]
    else returns (record b { queue = b.queue ++ item ∷ []; put_signal = true })

-- `add`, from the test of its loop
unfoldable pub add : Item → Buffer → Turn Buffer
unfolding add_body add_grouped
add item b = if leb b.max_size (length b.queue) then waits else add_body item b

-- the number of items that `get` takes at a time
unfoldable pub stride : ℕ → Buffer → ℕ
stride multiple b = if strict_group b then lcm b.group_size multiple else multiple

-- `get`, from the test of its loop; the division by zero raises
unfoldable pub get_items : ℕ → ℕ → Buffer → Turn (List Item × Buffer)
get_items minimum multiple b =
    let m = stride multiple b in
    let n = length b.queue / m * m in
    if m == 0
    then raises
    else if leb minimum n
    then returns (take n b.queue, record b { queue = drop n b.queue; get_signal = true })
    else waits

-- What runs when `await self.get_signal.wait()` returns in `add`: clear, and test again.
unfoldable pub add_resume : Item → Buffer → Turn Buffer
unfolding add
add_resume item b = add item (record b { get_signal = false })

-- The same for `put_signal` in `get`.
unfoldable pub get_resume : ℕ → ℕ → Buffer → Turn (List Item × Buffer)
unfolding get_items
get_resume minimum multiple b = get_items minimum multiple (record b { put_signal = false })
