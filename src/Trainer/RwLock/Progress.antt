-- ===== src/Trainer/RwLock/Progress.antt =====
-- Some task can always move.
use agent_rl.Common.{ℕ, ◌<◌, ◌≡◌, ◌⊎◌, inl, inr, refl, Bool, true, false, arith, Bool-cases}
use agent_rl.Common.Family.{total_positive}
use agent_rl.Trainer.RwLock.{Pc, System, idle, wait_reader, reading, wait_writer, writing}
use agent_rl.Trainer.RwLock.Steps.{Reach}
use agent_rl.Trainer.RwLock.Invariant.{Inv, reads, writes, queues}
use agent_rl.Trainer.RwLock.Wakeup.{IsAlert, Reach-IsAlert}
use agent_rl.Trainer.RwLock.Safety.{Reach-Inv}

-- The task stands where it waits for the lock, or holds it, or has been notified.
abbrev pub IsWaiting : Pc → Type 0
IsWaiting p = (b : Bool) × ((p ≡ wait_reader b) ⊎ (p ≡ wait_writer b))

abbrev pub CanMove : Pc → Type 0
CanMove p =
    (p ≡ writing)
    ⊎ (((b : Bool) × (p ≡ reading b)) ⊎ ((p ≡ wait_reader true) ⊎ (p ≡ wait_writer true)))

Mover : ℕ → System → Type 0
Mover n s = (j : ℕ) × (j < n) × CanMove (s.pc j)

writes_pos : (p : Pc) → 0 < writes p → p ≡ writing
writes_pos p h = ground arith

reads_pos : (p : Pc) → 0 < reads p → (b : Bool) × (p ≡ reading b)
reads_pos (reading b) h = (b, refl)
reads_pos idle h = absurd (omega arith)
reads_pos (wait_reader b) h = absurd (omega arith)
reads_pos (wait_writer b) h = absurd (omega arith)
reads_pos writing h = absurd (omega arith)

queues_pos : (p : Pc) → 0 < queues p → (b : Bool) × (p ≡ wait_writer b)
queues_pos (wait_writer b) h = (b, refl)
queues_pos idle h = absurd (omega arith)
queues_pos (wait_reader b) h = absurd (omega arith)
queues_pos (reading b) h = absurd (omega arith)
queues_pos writing h = absurd (omega arith)

module _ {n : ℕ} {s : System} (v : Inv n s) (a : IsAlert s) where
  by_writer : s.lock.writer_active ≡ true → Mover n s
  unfolding Mover
  by_writer h =
      let (j, lt, w) = total_positive writes n s.pc (ground (arith, v.writer_count)) in
      (j, lt, inl (writes_pos (s.pc j) w))

  by_reader : 0 < s.lock.readers → Mover n s
  unfolding Mover
  by_reader h =
      let (j, lt, w) = total_positive reads n s.pc (omega (arith, v.reader_count)) in
      (j, lt, inr (inl (reads_pos (s.pc j) w)))

  -- A writer that waits was notified, or waits for a task that holds the lock.
  by_queued : (j : ℕ) (b : Bool) → j < n → s.pc j ≡ wait_writer b → Mover n s
  unfolding Mover
  by_queued j true lt e = (j, lt, inr (inr (inr e)))
  by_queued j false lt e = elim (Bool-cases s.lock.writer_active) [
    | inl active ↦ by_writer active
    | inr free ↦ by_reader (ground (arith, a j))
  ]

  by_waiting : (j : ℕ) (b : Bool) → j < n → s.pc j ≡ wait_reader b → Mover n s
  unfolding Mover
  by_waiting j true lt e = (j, lt, inr (inr (inl e)))
  by_waiting j false lt e = elim (Bool-cases s.lock.writer_active) [
    | inl active ↦ by_writer active
    | inr free ↦
        let (k, kl, w) = total_positive queues n s.pc (ground (arith, a j, v.queue_count)) in
        let (b, f) = queues_pos (s.pc k) w in by_queued k b kl f
  ]

-- No deadlock, where no writer is cancelled while it waits: if some task waits, then some task holds
-- the lock or has been notified and takes its turn next.
pub no_deadlock :
    {n : ℕ} {s : System} (i : ℕ)
    → Reach n false s
    → i < n
    → IsWaiting (s.pc i)
    → (j : ℕ) × (j < n) × CanMove (s.pc j)
unfolding Mover
no_deadlock i r li (b, inl e) = by_waiting (Reach-Inv r) (Reach-IsAlert r) i b li e
no_deadlock i r li (b, inr e) = by_queued (Reach-Inv r) (Reach-IsAlert r) i b li e
