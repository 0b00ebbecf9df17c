-- ===== src/Trainer/TaskManager.antt =====
-- trainer/src/agentrl/trainer/components/task_manager.py: LocalTaskManager. Producers put items into
-- a bounded queue, workers run a task on each and add the result to the sample buffer, a consumer
-- takes batches. Each function is what runs between two awaits.

pub mod Steps
pub mod Accounting
mod Tests
use agent_rl.Common.{
  ℕ, Bool, true, false, ◌&&◌, Option, none, some, List, [], ◌∷◌, ◌++◌, length, ltb, leb,
  if◌then◌else◌,
}
use agent_rl.Common.Int.{ℤ, pos, ◌+ℤ◌, ◌-ℤ◌, pos_part}
use agent_rl.Trainer.Buffer.{Item, Buffer, new_buffer, Turn, returns, waits, raises, add, get_items}

pub record TaskManager : Type 0 where
  pub queue : List Item
  pub queue_maxsize : ℕ
  pub buffer : Buffer
  pub num_workers : ℕ
  pub started : Bool
  pub stop_signal : Bool
  pub pending_count : ℤ

unfoldable pub new_manager : ℕ → ℕ → ℕ → ℕ → TaskManager
unfolding new_buffer
new_manager max_queue_size max_buffer_size buffer_group_size num_workers = record {
  queue = [];
  queue_maxsize = max_queue_size;
  buffer = new_buffer max_buffer_size buffer_group_size;
  num_workers = num_workers;
  started = false;
  stop_signal = false;
  pending_count = pos 0;
}

-- `asyncio.Queue.full`: a maximum of 0 is no maximum.
abbrev pub is_full : TaskManager → Bool
is_full m = ltb 0 m.queue_maxsize && leb m.queue_maxsize (length m.queue)

-- `put` up to its await: the item is counted before it has room.
unfoldable pub put_begin : TaskManager → TaskManager
put_begin m = record m { pending_count = m.pending_count +ℤ pos 1 }

-- `queue.put`, once there is room
unfoldable pub put_end : Item → TaskManager → Option TaskManager
put_end item m = if is_full m then none else some (record m { queue = m.queue ++ item ∷ [] })

-- `put_nowait`; `none` is QueueFull, and the item stays counted. The manager comes back either way.
unfoldable pub put_nowait : Item → TaskManager → Bool × TaskManager
unfolding put_begin
put_nowait item m =
    let m' = put_begin m in
    if is_full m then (false, m') else (true, record m' { queue = m.queue ++ item ∷ [] })

-- What `task_fn` gave: an Exception, a CancelledError, which is no Exception and ends the worker, None,
-- or the item updated with the result.
pub data Outcome : Type 0 where
  failed : Outcome
  cancelled : Outcome
  nothing : Outcome
  result : Item → Outcome

abbrev pub uncount : TaskManager → TaskManager
uncount m = record m { pending_count = m.pending_count -ℤ pos 1 }

-- The rest of a worker's round after `task_fn`.
unfoldable pub worker_end : Outcome → TaskManager → Turn TaskManager
unfolding add
worker_end failed m = returns (uncount m)
worker_end cancelled m = raises
worker_end nothing m = returns (uncount m)
worker_end (result item) m = elim (add item m.buffer) [
  | waits ↦ waits
  | raises ↦ raises
  | returns b ↦ returns (record (uncount m) { buffer = b })
]

-- `get`; the count is taken down once more for each item.
unfoldable pub get : ℕ → ℕ → TaskManager → Turn (List Item × TaskManager)
unfolding get_items
get minimum multiple m = elim (get_items minimum multiple m.buffer) [
  | waits ↦ waits
  | raises ↦ raises
  | returns (xs, b) ↦
      returns (xs, record m { buffer = b; pending_count = m.pending_count -ℤ pos (length xs) })
]

-- `get_all`, which leaves the count alone. A negative count asks for no item at all.
unfoldable pub get_all : TaskManager → Turn (List Item × TaskManager)
unfolding get_items
get_all m = elim (get_items (pos_part m.pending_count) 1 m.buffer) [
  | waits ↦ waits
  | raises ↦ raises
  | returns (xs, b) ↦ returns (xs, record m { buffer = b })
]

-- `start`: how many workers it creates, and the manager after it.
unfoldable pub start : TaskManager → ℕ × TaskManager
start m =
    if m.started then (0, m) else (m.num_workers, record m { started = true; stop_signal = false })

-- `stop` up to the wait for its workers, and after it
unfoldable pub stop_begin : TaskManager → TaskManager
stop_begin m = record m { stop_signal = true }

unfoldable pub stop_end : TaskManager → TaskManager
stop_end m = record m { started = false }
