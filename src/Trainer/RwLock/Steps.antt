-- ===== src/Trainer/RwLock/Steps.antt =====
-- `n` tasks over one lock, each at most once in it at a time, interleaved in any order.
use agent_rl.Common.{ℕ, ◌<◌, ◌≡◌, Bool, true}
use agent_rl.Common.Family.{update}
use agent_rl.Trainer.RwLock.{
  System, new_lock, idle, wait_reader, reading, wait_writer, writing, reader_turn, reader_leave,
  writer_turn, writer_enter, writer_leave, writer_cancelled,
}

-- A step of task `i`. With `cancels` false no writer is cancelled while it waits.
pub data Step (n : ℕ) (cancels : Bool) (s t : System) : Type 0 where
  read_enter : (i : ℕ) → i < n → s.pc i ≡ idle → t ≡ reader_turn i s → Step n cancels s t
  read_wake : (i : ℕ) → i < n → s.pc i ≡ wait_reader true → t ≡ reader_turn i s → Step n cancels s t
  read_leave :
      (i : ℕ) (c : Bool) → i < n → s.pc i ≡ reading c → t ≡ reader_leave i s → Step n cancels s t
  write_enter : (i : ℕ) → i < n → s.pc i ≡ idle → t ≡ writer_enter i s → Step n cancels s t
  write_wake :
      (i : ℕ) → i < n → s.pc i ≡ wait_writer true → t ≡ writer_turn i s → Step n cancels s t
  write_leave : (i : ℕ) → i < n → s.pc i ≡ writing → t ≡ writer_leave i s → Step n cancels s t
  -- a task that is cancelled in a wait
  read_give_up :
      (i : ℕ) (b : Bool)
      → i < n
      → s.pc i ≡ wait_reader b
      → t ≡ record s { pc = update s.pc i idle }
      → Step n cancels s t
  write_give_up :
      (i : ℕ) (b : Bool)
      → i < n
      → cancels ≡ true
      → s.pc i ≡ wait_writer b
      → t ≡ writer_cancelled i s
      → Step n cancels s t

abbrev pub init : System
init = record { lock = new_lock; pc = λ _. idle }

pub data Reach (n : ℕ) (cancels : Bool) : System → Type 0 where
  here : Reach n cancels init
  next : {s t : System} → Reach n cancels s → Step n cancels s t → Reach n cancels t
