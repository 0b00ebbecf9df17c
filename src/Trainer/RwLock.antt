-- ===== src/Trainer/RwLock.antt =====
-- trainer/src/agentrl/trainer/utils/aio_rwlock.py: a reader-writer lock for coroutines, whose
-- writers cancel the readers that hold it. The inner asyncio lock is never held across an await
-- (the wait of the condition gives it up), so each stretch from taking it to the next wait or to
-- the end is one atomic step of a task.
pub mod Steps
pub mod Invariant
pub mod Wakeup
pub mod Safety
pub mod Progress
mod Tests
use agent_rl.Common.{
  ℕ, ◌+◌, ◌-◌, Bool, true, false, ◌||◌, Option, none, some, ltb, ◌==◌, if◌then◌else◌,
}
use agent_rl.Common.Family.{update}

-- The set of reader tasks by its characteristic function.
pub record RwLock : Type 0 where
  pub readers : ℕ
  pub writer_active : Bool
  pub waiting_writers : ℕ
  pub active_reader_tasks : ℕ → Bool

abbrev pub new_lock : RwLock
new_lock = record {
  readers = 0;
  writer_active = false;
  waiting_writers = 0;
  active_reader_tasks = λ _. false;
}

-- Where a task stands. A waiting task has been notified or not; a reading task has been asked to
-- cancel or not.
pub data Pc : Type 0 where
  idle : Pc
  wait_reader : (notified : Bool) → Pc
  reading : (cancelled : Bool) → Pc
  wait_writer : (notified : Bool) → Pc
  writing : Pc

pub record System : Type 0 where
  pub lock : RwLock
  pub pc : ℕ → Pc

-- The test of the loop in `acquire_reader` and what follows it; `none` is `cond.wait()`.
unfoldable pub acquire_reader : ℕ → RwLock → Option RwLock
acquire_reader i l =
    if l.writer_active || ltb 0 l.waiting_writers
    then none
    else some (record l {
      readers = l.readers + 1;
      active_reader_tasks = update l.active_reader_tasks i true;
    })

-- The lock after `release_reader`, and whether it notifies.
unfoldable pub release_reader : ℕ → RwLock → RwLock × Bool
release_reader i l = (
  record l { readers = l.readers - 1; active_reader_tasks = update l.active_reader_tasks i false },
  l.readers - 1 == 0,
)

-- The test of the loop in `acquire_writer`, then `_writer_active = True` and the `finally`.
unfoldable pub acquire_writer : RwLock → Option RwLock
acquire_writer l =
    if l.writer_active || ltb 0 l.readers
    then none
    else some (record l { writer_active = true; waiting_writers = l.waiting_writers - 1 })

unfoldable pub release_writer : RwLock → RwLock
release_writer l = record l { writer_active = false }

-- `notify_all` wakes the tasks that wait on the condition.
abbrev pub notified : Pc → Pc
notified (wait_reader _) = wait_reader true
notified (wait_writer _) = wait_writer true
notified p = p

-- `t.cancel()` on a task that has not finished
abbrev pub asked : Bool → Pc → Pc
asked true (reading _) = reading true
asked _ p = p

-- One turn of task `i` in `acquire_reader`, from its start or from a wake-up.
unfoldable pub reader_turn : ℕ → System → System
unfolding acquire_reader
reader_turn i s = elim (acquire_reader i s.lock) [
  | none ↦ record s { pc = update s.pc i (wait_reader false) }
  | some l ↦ record s { lock = l; pc = update s.pc i (reading false) }
]

unfoldable pub reader_leave : ℕ → System → System
unfolding release_reader
reader_leave i s =
    let (l, notify) = release_reader i s.lock in
    let pc = update s.pc i idle in
    record s { lock = l; pc = if notify then (λ j. notified (pc j)) else pc }

unfoldable pub writer_turn : ℕ → System → System
unfolding acquire_writer
writer_turn i s = elim (acquire_writer s.lock) [
  | none ↦ record s { pc = update s.pc i (wait_writer false) }
  | some l ↦ record s { lock = l; pc = update s.pc i writing }
]

-- The start of `acquire_writer`: count the writer, cancel the active readers.
abbrev pub counted : System → System
counted s = record s {
  lock = record s.lock { waiting_writers = s.lock.waiting_writers + 1 };
  pc = λ j. asked (s.lock.active_reader_tasks j) (s.pc j);
}

unfoldable pub writer_enter : ℕ → System → System
unfolding writer_turn
writer_enter i s = writer_turn i (counted s)

unfoldable pub writer_leave : ℕ → System → System
unfolding release_writer
writer_leave i s = record s {
  lock = release_writer s.lock;
  pc = λ j. notified (update s.pc i idle j);
}

-- A writer that is cancelled in its wait runs the `finally` alone.
unfoldable pub writer_cancelled : ℕ → System → System
writer_cancelled i s = record s {
  lock = record s.lock { waiting_writers = s.lock.waiting_writers - 1 };
  pc = update s.pc i idle;
}
