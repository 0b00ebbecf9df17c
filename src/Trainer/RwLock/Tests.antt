-- ===== src/Trainer/RwLock/Tests.antt =====
-- The lock on concrete schedules of three tasks.
use agent_rl.Common.{ℕ, ◌≤◌, ◌<◌, ◌≡◌, ◌≢◌, refl, Bool, true, false, arith, inr}
use native.Mathlib.Decide.{ℕ_discrete}
use agent_rl.Trainer.RwLock.{
  System, idle, wait_reader, reading, wait_writer, writing, reader_turn, reader_leave, writer_enter,
  writer_leave, writer_cancelled,
}
use agent_rl.Trainer.RwLock.Steps.{
  Reach, init, read_enter, read_leave, write_enter, read_wake, write_leave, write_give_up, here,
  next,
}
use agent_rl.Trainer.RwLock.Safety.{mutual_exclusion, writer_preempts}
use agent_rl.Trainer.RwLock.Progress.{no_deadlock, CanMove}

abbrev one_writes : System
one_writes = writer_enter 0 init

one_writes_reached : Reach 3 false one_writes
one_writes_reached = next here (write_enter 0 (omega arith) refl refl)

writes_now : one_writes.pc 0 ≡ writing
unfolding writer_enter ℕ_discrete
writes_now = refl

mutual_exclusion_example :
    (one_writes.pc 0 ≡ writing → ◌≡◌ {A = ℕ} 0 0) × ((b : Bool) → one_writes.pc 0 ≢ reading b)
mutual_exclusion_example =
    mutual_exclusion 0 0 one_writes_reached (omega arith) (omega arith) writes_now

-- Task 0 reads and task 1 waits to write: task 0 has been asked to cancel.
abbrev reader_in : System
reader_in = reader_turn 0 init

abbrev writer_queued : System
writer_queued = writer_enter 1 reader_in

idle_one : reader_in.pc 1 ≡ idle
unfolding reader_turn ℕ_discrete
idle_one = refl

writer_queued_reached : Reach 3 false writer_queued
writer_queued_reached =
    next (next here (read_enter 0 (omega arith) refl refl))
      (write_enter 1 (omega arith) idle_one refl)

asked_to_leave : writer_queued.pc 0 ≡ reading true
unfolding reader_turn writer_enter ℕ_discrete
asked_to_leave = refl

one_waits : 0 < writer_queued.lock.waiting_writers
unfolding reader_turn writer_enter ℕ_discrete
one_waits = omega arith

writer_preempts_example :
    (writer_queued.pc 0 ≡ reading true → true ≡ true)
    × ((reader_leave 0 writer_queued).lock.readers ≤ writer_queued.lock.readers)
writer_preempts_example =
    writer_preempts 0 true writer_queued_reached one_waits
      (read_leave 0 true (omega arith) asked_to_leave refl)

waits_in_line : writer_queued.pc 1 ≡ wait_writer false
unfolding reader_turn writer_enter ℕ_discrete
waits_in_line = refl

no_deadlock_example : (j : ℕ) × (j < 3) × CanMove (writer_queued.pc j)
no_deadlock_example = no_deadlock 1 writer_queued_reached (omega arith) (false, inr waits_in_line)

-- A writer that is cancelled in its wait notifies no one. Task 0 writes, task 1 waits to read, task
-- 2 waits to write; task 0 leaves, task 1 tests first and waits again, and task 2 is cancelled. The
-- lock is then free, and task 1 waits without a notification that could come.
abbrev stuck : System
stuck =
    writer_cancelled 2 (reader_turn 1 (writer_leave 0 (writer_enter 2 (reader_turn 1 one_writes))))

stuck_reached : Reach 3 true stuck
unfolding writer_enter writer_leave reader_turn writer_cancelled ℕ_discrete
stuck_reached =
    next
      (next
        (next
          (next
            (next (next here (write_enter 0 (omega arith) refl refl))
              (read_enter 1 (omega arith) refl refl))
            (write_enter 2 (omega arith) refl refl))
          (write_leave 0 (omega arith) refl refl))
        (read_wake 1 (omega arith) refl refl))
      (write_give_up 2 true (omega arith) refl refl refl)

nobody_moves :
    (stuck.pc 0 ≡ idle)
    × (stuck.pc 1 ≡ wait_reader false)
    × (stuck.pc 2 ≡ idle)
    × (stuck.lock.writer_active ≡ false)
    × (stuck.lock.readers ≡ 0)
    × (stuck.lock.waiting_writers ≡ 0)
unfolding writer_enter writer_leave reader_turn writer_cancelled ℕ_discrete
nobody_moves = (refl, refl, refl, refl, refl, refl)
