-- ===== src/Worker/Etcd/Tests.antt =====
-- Runs of worker/src/agentrl/worker/environment/state/etcd.py on a store in memory.
use agent_rl.Common.{
  ℕ, zero, leb, ◌&&◌, arith, ◌≡◌, refl, ◌∙◌, Bool, true, false, Option, some, [], ◌∷◌, list_eq,
  pair_eq,
}
use agent_rl.Common.Table.{get, put}
use agent_rl.Worker.Etcd.{Bytes, Local, done, unavailable, ◌>>=◌}
use agent_rl.Worker.Etcd.Keys.{ascii, root, lock_key, starts_with, in_range, range_end}
use agent_rl.Worker.Etcd.Ranges.{IsBytes, in_range-range_end}
use agent_rl.Worker.Etcd.Numbers.{str, digits, int_or_zero, int_from}
use agent_rl.Worker.Etcd.Containers.{
  found, number, one_more, swap, total, increment_once, increments,
}
use agent_rl.Worker.Etcd.Counting
use agent_rl.Worker.Etcd.Counting.{Uses, counts, runs, won}
use agent_rl.Worker.Etcd.Counting.Exact.{total_exact}
use agent_rl.Worker.Etcd.Calls.{attempts, or_retry, lease_of, lease_for, ensure_lock_lease}
use agent_rl.Worker.Etcd.Locks.{
  owner_of, claim, is_granted, note_key, answer, acquire_as, acquire_lock,
}
use agent_rl.Worker.Etcd.Service.{replies, loses, advance, to_list}
use agent_rl.Worker.Etcd.Memory.{Memory, memory, look}
use agent_rl.Worker.Etcd.Memory.Lawful.{memory-IsEtcd, holds-look}
use agent_rl.Worker.Etcd.Locking.{
  outside, inside, acquiring, System, Reached, here, then_step, begins, acquires, enters,
}
use agent_rl.Worker.Etcd.Locking.Exclusion.{IsStart, one_inside}

abbrev no_local : Local
no_local = record {
  session_leases = [];
  lock_leases = [];
  lock_keys = [];
  default_lock_client = ascii "lock-0";
}

abbrev empty_store : Memory
empty_store = record { entries = []; last = 0 }

abbrev session_name : ℕ → Bytes
session_name i = 115 ∷ i ∷ []

abbrev at_start : System Memory
at_start = record {
  store = empty_store;
  locals = λ w. no_local;
  phases = λ i. outside;
  tasks = λ n. done tt;
}

at_start-IsStart : IsStart at_start
at_start-IsStart = record { no_keys = λ w. refl; all_outside = λ i. refl; no_tasks = λ n. refl }

abbrev as_text : Bytes → Bytes
as_text b = b

abbrev as_value : Bytes → Option Bytes
as_value b = some b

abbrev Leads : System Memory → Type 0
Leads s =
    Reached memory memory-IsEtcd (ascii "web") (ascii "a") 10 as_text as_value session_name (λ i. i)
      at_start s

-- Two sessions ask; the first gets the lock although the answer to its claim is lost, and the second
-- is told that it is taken.
one_in :
    (s : System Memory) × Leads s × (s.phases 0 ≡ inside) × (s.phases 1 ≡ acquiring (done false))
unfolding acquire_lock acquire_as owner_of ensure_lock_lease lease_for attempts or_retry lease_of
    answer is_granted note_key claim lock_key root advance ◌>>=◌ get put
    native.Mathlib.Decide.ℕ_discrete
one_in =
    let asked = then_step (then_step here (begins 0 refl)) (begins 1 refl) in
    let has_lease =
      then_step
        (then_step
          (then_step (then_step asked (acquires 0 _ replies [] refl))
            (acquires 0 _ replies [] refl))
          (acquires 0 _ replies [] refl))
        (acquires 0 _ replies [] refl) in
    let claims = then_step has_lease (acquires 0 _ (loses unavailable) [] refl) in
    let told =
      then_step (then_step claims (acquires 0 _ replies [] refl)) (acquires 0 _ replies [] refl) in
    let entered = then_step told (enters 0 refl) in
    let other =
      then_step
        (then_step
          (then_step
            (then_step (then_step entered (acquires 1 _ replies [] refl))
              (acquires 1 _ replies [] refl))
            (acquires 1 _ replies [] refl))
          (acquires 1 _ replies [] refl))
        (acquires 1 _ replies [] refl) in
    (_, other, refl, refl)

names_differ : (i j : ℕ) → session_name i ≡ session_name j → i ≡ j
names_differ i j e = cc e

abbrev are_bytes : Bytes → Bool
are_bytes [] = true
are_bytes (b ∷ rest) = leb b 255 && are_bytes rest

are_bytes-IsBytes : (text : Bytes) → are_bytes text ≡ true → IsBytes text
are_bytes-IsBytes [] e = tt
are_bytes-IsBytes (b ∷ rest) e = (ground (arith, e), are_bytes-IsBytes rest (ground (arith, e)))

key_IsBytes : IsBytes (lock_key (ascii "web") (ascii "a"))
unfolding lock_key root
key_IsBytes = are_bytes-IsBytes (lock_key (ascii "web") (ascii "a")) refl

one_inside_example : zero ≡ zero
one_inside_example =
    one_inside memory memory-IsEtcd (ascii "web") (ascii "a") 10 as_text as_value session_name
      (λ i. i) (λ i e. cc e) names_differ key_IsBytes at_start one_in.0 at_start-IsStart one_in.1 0
      0 one_in.2 one_in.2

in_range-range_end_example :
    in_range
      (ascii "web:container-uses:")
      (range_end (ascii "web:container-uses:"))
      (ascii "web:container-uses:a")
    ≡ starts_with (ascii "web:container-uses:") (ascii "web:container-uses:a")
in_range-range_end_example =
    in_range-range_end (ascii "web:container-uses:") (ascii "web:container-uses:a")
      (are_bytes-IsBytes (ascii "web:container-uses:a") refl)

abbrev count_key : Bytes
count_key = ascii "uses:a"

abbrev no_uses : Uses Memory
no_uses = record { store = empty_store; tasks = λ n. done tt; made = 0 }

abbrev Runs : Uses Memory → Type 0
Runs s = Counting.Reached memory memory-IsEtcd count_key no_uses s

-- Two increments read before either writes: the second fails, reads again, and its answer is lost.
two_uses :
    (s : Uses Memory) × Runs s × (s.made ≡ 2) × (total (to_list (look s.store count_key)) ≡ done 2)
unfolding increments increment_once found one_more number swap attempts or_retry advance won ◌>>=◌
    str digits int_or_zero int_from get put total native.Mathlib.Decide.ℕ_discrete
two_uses =
    let started = Counting.then_step (Counting.then_step Counting.here (counts 0)) (counts 1) in
    let both_read =
      Counting.then_step (Counting.then_step started (runs 0 replies [] no_local))
        (runs 1 replies [] no_local) in
    let both_wrote =
      Counting.then_step (Counting.then_step both_read (runs 0 replies [] no_local))
        (runs 1 replies [] no_local) in
    let again =
      Counting.then_step (Counting.then_step both_wrote (runs 1 replies [] no_local))
        (runs 1 (loses unavailable) [] no_local) in
    (_, again, refl, refl)

total_exact_example :
    total (to_list (memory-IsEtcd.holds two_uses.0.store count_key)) ≡ done two_uses.0.made
unfolding get
total_exact_example =
    total_exact memory memory-IsEtcd count_key no_uses two_uses.0
      (holds-look empty_store count_key ∙ refl) (λ n. refl) refl two_uses.1
