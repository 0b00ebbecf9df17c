-- ===== src/Trainer/RwLock/Wakeup.antt =====
-- No lost wake-up, as long as no writer is cancelled while it waits: a task that waits and was not
-- notified is one whose test still fails.
use agent_rl.Common.{ℕ, ◌≡◌, true, false, arith, ltb, ◌||◌}
use agent_rl.Common.Family.{update}
use agent_rl.Trainer.RwLock.{
  RwLock, Pc, System, idle, wait_reader, wait_writer, counted, reader_turn, reader_leave,
  writer_turn, writer_enter, writer_leave,
}
use agent_rl.Trainer.RwLock.Steps.{
  Step, Reach, read_enter, read_wake, read_leave, write_enter, write_wake, write_leave,
  read_give_up, write_give_up, here, next,
}

-- The test that keeps a task waiting.
abbrev pub Blocked : RwLock → Pc → Type 0
Blocked l (wait_reader false) = (l.writer_active || ltb 0 l.waiting_writers) ≡ true
Blocked l (wait_writer false) = (l.writer_active || ltb 0 l.readers) ≡ true
Blocked l _ = Unit

abbrev pub IsAlert : System → Type 0
IsAlert s = (j : ℕ) → Blocked s.lock (s.pc j)

module _ (s : System) (a : IsAlert s) (i : ℕ) where
  reader_turn-IsAlert : IsAlert (reader_turn i s)
  unfolding reader_turn
  reader_turn-IsAlert j = ground (arith, a j)

  reader_leave-IsAlert : IsAlert (reader_leave i s)
  unfolding reader_leave
  reader_leave-IsAlert j = ground (arith, a j)

  writer_turn-IsAlert : IsAlert (writer_turn i s)
  unfolding writer_turn
  writer_turn-IsAlert j = ground (arith, a j)

  writer_leave-IsAlert : IsAlert (writer_leave i s)
  unfolding writer_leave
  writer_leave-IsAlert j = ground arith

  idle-IsAlert : IsAlert (record s { pc = update s.pc i idle })
  idle-IsAlert j = ground (arith, a j)

counted-IsAlert : (s : System) → IsAlert s → IsAlert (counted s)
counted-IsAlert s a j = ground (arith, a j)

writer_enter-IsAlert : (s : System) (i : ℕ) → IsAlert s → IsAlert (writer_enter i s)
unfolding writer_enter
writer_enter-IsAlert s i a = writer_turn-IsAlert (counted s) (counted-IsAlert s a) i

Step-IsAlert : {n : ℕ} {s t : System} → Step n false s t → IsAlert s → IsAlert t
Step-IsAlert {s} (read_enter i lt p e) a = rw e (reader_turn-IsAlert s a i)
Step-IsAlert {s} (read_wake i lt p e) a = rw e (reader_turn-IsAlert s a i)
Step-IsAlert {s} (read_leave i c lt p e) a = rw e (reader_leave-IsAlert s a i)
Step-IsAlert {s} (write_enter i lt p e) a = rw e (writer_enter-IsAlert s i a)
Step-IsAlert {s} (write_wake i lt p e) a = rw e (writer_turn-IsAlert s a i)
Step-IsAlert {s} (write_leave i lt p e) a = rw e (writer_leave-IsAlert s a i)
Step-IsAlert {s} (read_give_up i b lt p e) a = rw e (idle-IsAlert s a i)
Step-IsAlert {s} (write_give_up i b lt c p e) a = cc c

pub Reach-IsAlert : {n : ℕ} {s : System} → Reach n false s → IsAlert s
Reach-IsAlert here = λ j. tt
Reach-IsAlert (next r st) = Step-IsAlert st (Reach-IsAlert r)
