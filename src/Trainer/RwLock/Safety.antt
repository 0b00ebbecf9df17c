-- ===== src/Trainer/RwLock/Safety.antt =====
-- What the lock guarantees to the tasks that use it.
use agent_rl.Common.{refl, sym, ℕ, ◌≤◌, ◌<◌, ◌≡◌, ◌≢◌, Bool, true, arith}
use agent_rl.Common.Family.{total_member, total_two, total_zero}
use agent_rl.Trainer.RwLock.{
  System, reading, writing, reader_turn, reader_leave, writer_turn, writer_enter, writer_leave,
  writer_cancelled,
}
use agent_rl.Trainer.RwLock.Steps.{
  Step, Reach, read_enter, read_wake, read_leave, write_enter, write_wake, write_leave,
  read_give_up, write_give_up, here, next,
}
use agent_rl.Trainer.RwLock.Invariant.{
  Inv, reads, writes, queues, reader_turn-Inv, reader_leave-Inv, writer_leave-Inv,
  reader_given_up-Inv, writer_cancelled-Inv, writer_wake-Inv, writer_enter-Inv,
}

Step-Inv : {n : ℕ} {c : Bool} {s t : System} → Step n c s t → Inv n s → Inv n t
Step-Inv {s} (read_enter i lt p e) v =
    rw e (reader_turn-Inv s v i lt (ground arith) (ground arith) (ground arith))
Step-Inv {s} (read_wake i lt p e) v =
    rw e (reader_turn-Inv s v i lt (ground arith) (ground arith) (ground arith))
Step-Inv {s} (read_leave i c lt p e) v = rw e (reader_leave-Inv s v i lt c p)
Step-Inv {s} (write_enter i lt p e) v = rw e (writer_enter-Inv s v i lt p)
Step-Inv {s} (write_wake i lt p e) v = rw e (writer_wake-Inv s v i lt p)
Step-Inv {s} (write_leave i lt p e) v = rw e (writer_leave-Inv s v i lt p)
Step-Inv {s} (read_give_up i b lt p e) v = rw e (reader_given_up-Inv s v i lt b p)
Step-Inv {s} (write_give_up i b lt c p e) v = rw e (writer_cancelled-Inv s v i lt b p)

pub Reach-Inv : {n : ℕ} {c : Bool} {s : System} → Reach n c s → Inv n s
Reach-Inv {n} here = record {
  reader_count = sym (total_zero reads n _ (λ i. refl));
  writer_count = sym (total_zero writes n _ (λ i. refl));
  queue_count = sym (total_zero queues n _ (λ i. refl));
  exclusive = λ h. refl;
  active = λ i. refl;
  yields = λ h i. tt;
}
Reach-Inv (next r st) = Step-Inv st (Reach-Inv r)

two_writers :
    {n : ℕ} {s : System}
    → Inv n s
    → (i j : ℕ) → j < n
    → s.pc i ≡ writing
    → s.pc j ≡ writing
    → ¬ (i < j)
two_writers {n} {s} v i j lj e f p =
    ground (arith, v.writer_count, total_two writes n s.pc i j p lj)

same_writer :
    {n : ℕ} {s : System}
    → Inv n s
    → (i j : ℕ) → i < n
    → j < n
    → s.pc i ≡ writing
    → s.pc j ≡ writing
    → i ≡ j
same_writer v i j li lj e f = omega (arith, two_writers v i j lj e f, two_writers v j i li f e)

readers-Step :
    {n : ℕ} {c : Bool} {s t : System}
    → Inv n s
    → 0 < s.lock.waiting_writers
    → Step n c s t
    → t.lock.readers ≤ s.lock.readers
unfolding reader_turn reader_leave writer_enter writer_turn writer_leave writer_cancelled
readers-Step v h (read_enter i lt p e) = ground arith
readers-Step v h st = ground arith

-- In every reachable state, with writers cancelled or not, a task that writes excludes every other
-- task: another that writes is itself, and none reads.
pub mutual_exclusion :
    {n : ℕ} {c : Bool} {s : System} (i j : ℕ)
    → Reach n c s
    → i < n
    → j < n
    → s.pc i ≡ writing
    → (s.pc j ≡ writing → i ≡ j) × ((b : Bool) → s.pc j ≢ reading b)
mutual_exclusion {n} {s} i j r li lj e =
    let v = Reach-Inv r in
    (
      λ f. same_writer v i j li lj e f,
      λ b f. ground (
        arith,
        v.exclusive,
        v.writer_count,
        v.reader_count,
        total_member writes n s.pc i li,
        total_member reads n s.pc j lj,
      ),
    )

-- While a writer waits, every reader that holds the lock has been asked to cancel, and no step of
-- any task lets a further reader in.
pub writer_preempts :
    {n : ℕ} {c : Bool} {s t : System} (i : ℕ) (b : Bool)
    → Reach n c s
    → 0 < s.lock.waiting_writers
    → Step n c s t
    → (s.pc i ≡ reading b → b ≡ true) × (t.lock.readers ≤ s.lock.readers)
writer_preempts {s} i b r h st =
    let v = Reach-Inv r in (λ e. ground (arith, v.yields h i), readers-Step v h st)
