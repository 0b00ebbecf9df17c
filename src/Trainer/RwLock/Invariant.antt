-- ===== src/Trainer/RwLock/Invariant.antt =====
-- The counters of the lock agree with where the tasks stand.
use agent_rl.Common.{
  ◌∙◌, sym, ℕ, ◌+◌, ◌<◌, ◌≡◌, inl, inr, refl, Bool, true, false, arith, if◌then◌else◌, Bool-cases,
}
use agent_rl.Common.Family.{update, total, total-update, total_congr, total_member}
use agent_rl.Trainer.RwLock.{
  Pc, System, idle, wait_reader, reading, wait_writer, writing, notified, asked, reader_turn,
  reader_leave, writer_turn, writer_enter, writer_leave, writer_cancelled, release_reader,
}

abbrev pub reads : Pc → ℕ
reads (reading _) = 1
reads _ = 0

abbrev pub writes : Pc → ℕ
writes writing = 1
writes _ = 0

abbrev pub queues : Pc → ℕ
queues (wait_writer _) = 1
queues _ = 0

abbrev pub holds_reader : Pc → Bool
holds_reader (reading _) = true
holds_reader _ = false

-- A reader that has been asked to cancel, or no reader at all.
abbrev pub Yielding : Pc → Type 0
Yielding (reading c) = c ≡ true
Yielding _ = Unit

pub record Inv (n : ℕ) (s : System) : Type 0 where
  pub reader_count : s.lock.readers ≡ total reads n s.pc
  pub writer_count : (if s.lock.writer_active then 1 else 0) ≡ total writes n s.pc
  pub queue_count : s.lock.waiting_writers ≡ total queues n s.pc
  pub exclusive : s.lock.writer_active ≡ true → s.lock.readers ≡ 0
  pub active : (i : ℕ) → s.lock.active_reader_tasks i ≡ holds_reader (s.pc i)
  pub yields : 0 < s.lock.waiting_writers → (i : ℕ) → Yielding (s.pc i)

-- `notify_all` changes no count, and no task's hold on the lock.
total-notified :
    (w : Pc → ℕ)
    → ((p : Pc) → w (notified p) ≡ w p)
    → (n : ℕ) (pc : ℕ → Pc) → total w n (λ j. notified (pc j)) ≡ total w n pc
total-notified w h n pc = total_congr w n _ pc (λ j. h (pc j))

reads-notified : (p : Pc) → reads (notified p) ≡ reads p
reads-notified p = ground arith

writes-notified : (p : Pc) → writes (notified p) ≡ writes p
writes-notified p = ground arith

queues-notified : (p : Pc) → queues (notified p) ≡ queues p
queues-notified p = ground arith

module _ {n : ℕ} (s : System) (v : Inv n s) where
  pub notify-Inv : Inv n (record s { pc = λ j. notified (s.pc j) })
  notify-Inv = record {
    reader_count = rw (total-notified reads reads-notified n s.pc) v.reader_count;
    writer_count = rw (total-notified writes writes-notified n s.pc) v.writer_count;
    queue_count = rw (total-notified queues queues-notified n s.pc) v.queue_count;
    exclusive = v.exclusive;
    active = λ j. ground (arith, v.active j);
    yields = λ h j. ground (arith, v.yields h j);
  }

module _ {n : ℕ} (s : System) (v : Inv n s) (i : ℕ) (lt : i < n) where
  pub reader_turn-Inv :
      holds_reader (s.pc i) ≡ false
      → queues (s.pc i) ≡ 0
      → writes (s.pc i) ≡ 0
      → Inv n (reader_turn i s)
  unfolding reader_turn
  reader_turn-Inv p q r = record {
    reader_count = ground (
      arith,
      v.reader_count,
      total-update reads n s.pc i (reading false) lt,
      total-update reads n s.pc i (wait_reader false) lt,
    );
    writer_count = ground (
      arith,
      v.writer_count,
      total-update writes n s.pc i (reading false) lt,
      total-update writes n s.pc i (wait_reader false) lt,
    );
    queue_count = ground (
      arith,
      v.queue_count,
      total-update queues n s.pc i (reading false) lt,
      total-update queues n s.pc i (wait_reader false) lt,
    );
    exclusive = ground (arith, v.exclusive);
    active = λ j. ground (arith, v.active j);
    yields = λ h j. ground (arith, λ (p : 0 < s.lock.waiting_writers). v.yields p j);
  }

  -- A task that leaves, with the lock that it leaves behind, and no task notified yet.
  leave_counts :
      (w : Pc → ℕ) → w idle ≡ 0 → total w n (update s.pc i idle) + w (s.pc i) ≡ total w n s.pc
  leave_counts w z = omega (arith, total-update w n s.pc i idle lt, z)

  pub reader_gone-Inv :
      (c : Bool)
      → s.pc i ≡ reading c
      → Inv n (record { lock = (release_reader i s.lock).0; pc = update s.pc i idle })
  unfolding release_reader
  reader_gone-Inv c p = record {
    reader_count =
        ground (arith, v.reader_count, leave_counts reads refl, total_member reads n s.pc i lt);
    writer_count = ground (arith, v.writer_count, leave_counts writes refl);
    queue_count = ground (arith, v.queue_count, leave_counts queues refl);
    exclusive = ground (arith, v.exclusive);
    active = λ j. ground (arith, v.active j);
    yields = λ h j. ground (arith, v.yields h j);
  }

  pub reader_leave-Inv : (c : Bool) → s.pc i ≡ reading c → Inv n (reader_leave i s)
  unfolding reader_leave
  reader_leave-Inv c p = elim (Bool-cases (release_reader i s.lock).1) [
    | inl e ↦ rw e (notify-Inv _ (reader_gone-Inv c p))
    | inr e ↦ rw e (reader_gone-Inv c p)
  ]

  pub writer_leave-Inv : s.pc i ≡ writing → Inv n (writer_leave i s)
  unfolding writer_leave
  writer_leave-Inv p =
      notify-Inv
        (record { lock = record s.lock { writer_active = false }; pc = update s.pc i idle })
        (record {
          reader_count = ground (arith, v.reader_count, leave_counts reads refl);
          writer_count =
              ground
                (arith, v.writer_count, leave_counts writes refl, total_member writes n s.pc i lt);
          queue_count = ground (arith, v.queue_count, leave_counts queues refl);
          exclusive = λ h. cc h;
          active = λ j. ground (arith, v.active j);
          yields = λ h j. ground (arith, v.yields h j);
        })

  pub reader_given_up-Inv :
      (b : Bool) → s.pc i ≡ wait_reader b → Inv n (record s { pc = update s.pc i idle })
  reader_given_up-Inv b p = record {
    reader_count = ground (arith, v.reader_count, leave_counts reads refl);
    writer_count = ground (arith, v.writer_count, leave_counts writes refl);
    queue_count = ground (arith, v.queue_count, leave_counts queues refl);
    exclusive = v.exclusive;
    active = λ j. ground (arith, v.active j);
    yields = λ h j. ground (arith, v.yields h j);
  }

  pub writer_cancelled-Inv : (b : Bool) → s.pc i ≡ wait_writer b → Inv n (writer_cancelled i s)
  unfolding writer_cancelled
  writer_cancelled-Inv b p = record {
    reader_count = ground (arith, v.reader_count, leave_counts reads refl);
    writer_count = ground (arith, v.writer_count, leave_counts writes refl);
    queue_count =
        ground (arith, v.queue_count, leave_counts queues refl, total_member queues n s.pc i lt);
    exclusive = v.exclusive;
    active = λ j. ground (arith, v.active j);
    yields = λ h j. ground (arith, λ (q : 0 < s.lock.waiting_writers). v.yields q j);
  }

-- A writer's turn, where the lock counts it among the waiting writers.
module _ {n : ℕ} (s : System) (i : ℕ) (lt : i < n) (readers : s.lock.readers ≡ total reads n s.pc)
    (writers : (if s.lock.writer_active then 1 else 0) ≡ total writes n s.pc)
    (queued : s.lock.waiting_writers + queues (s.pc i) ≡ total queues n s.pc + 1)
    (exclusive : s.lock.writer_active ≡ true → s.lock.readers ≡ 0)
    (active : (j : ℕ) → s.lock.active_reader_tasks j ≡ holds_reader (s.pc j))
    (yields : (j : ℕ) → Yielding (s.pc j)) (no_reader : holds_reader (s.pc i) ≡ false)
    (no_writer : writes (s.pc i) ≡ 0) where
  pub writer_turn-Inv : Inv n (writer_turn i s)
  unfolding writer_turn
  writer_turn-Inv = record {
    reader_count = ground (
      arith,
      total-update reads n s.pc i writing lt,
      total-update reads n s.pc i (wait_writer false) lt,
    );
    writer_count = ground (
      arith,
      total-update writes n s.pc i writing lt,
      total-update writes n s.pc i (wait_writer false) lt,
    );
    queue_count = ground (
      arith,
      total-update queues n s.pc i writing lt,
      total-update queues n s.pc i (wait_writer false) lt,
      total_member queues n s.pc i lt,
    );
    exclusive = ground arith;
    active = λ j. ground (arith, active j);
    yields = λ h j. ground (arith, yields j);
  }

module _ {n : ℕ} (s : System) (v : Inv n s) (i : ℕ) (lt : i < n) where
  pub writer_wake-Inv : s.pc i ≡ wait_writer true → Inv n (writer_turn i s)
  writer_wake-Inv p =
      writer_turn-Inv s i lt v.reader_count v.writer_count (ground (arith, v.queue_count))
        v.exclusive v.active
        (v.yields (ground (arith, v.queue_count, total_member queues n s.pc i lt))) (ground arith)
        (ground arith)

  asked_same :
      (w : Pc → ℕ)
      → ((b : Bool) (p : Pc) → w (asked b p) ≡ w p)
      → total w n (λ j. asked (s.lock.active_reader_tasks j) (s.pc j)) ≡ total w n s.pc
  asked_same w h = total_congr w n _ s.pc (λ j. h (s.lock.active_reader_tasks j) (s.pc j))

  pub writer_enter-Inv : s.pc i ≡ idle → Inv n (writer_enter i s)
  unfolding writer_enter
  writer_enter-Inv p =
      writer_turn-Inv _ i lt (v.reader_count ∙ sym (asked_same reads (λ b p. ground arith)))
        (v.writer_count ∙ sym (asked_same writes (λ b p. ground arith)))
        (ground (arith, v.queue_count, asked_same queues (λ b p. ground arith))) v.exclusive
        (λ j. ground (arith, v.active j)) (λ j. ground (arith, v.active j)) (ground arith)
        (ground arith)
