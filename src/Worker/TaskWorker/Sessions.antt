-- ===== src/Worker/TaskWorker/Sessions.antt =====
-- The map of sessions: its bound, and what a cancellation leaves in it.
use agent_rl.Common.{
  nat_eq, beq_iff, ℕ, ◌≤◌, ◌<◌, ◌≡◌, ◌≢◌, ◌↔◌, inl, inr, refl, Bool, true, false, Option, some,
  List, [], arith, String, Option-cases, length,
}
use agent_rl.Common.Table.{
  Table, get, has, put, remove, has-remove, has-get, length-put_new, length-put_old,
  length-remove-le,
}
use agent_rl.Worker.Session.{SampleIndex, HistoryItem}
use agent_rl.Worker.TaskWorker.{
  returned, returned_nothing, raised, task_cancelled, RunningSampleData, TaskWorker, Reply, ok,
  http_error, fails, start_sample, interact, interact_with, new_running, marked, cancel_begin,
  cancel_end, wrapper_end, TaskEnd, agent_cancelled,
}

-- What the handlers do to the worker, at their awaits, in any order.
pub data Step (w v : TaskWorker) : Type 0 where
  starts :
      (sid : ℕ) (i : SampleIndex) (c : Option String) → start_sample sid i c w ≡ ok v → Step w v
  interacts : (sid : ℕ) (ms : List String) → interact sid ms w ≡ ok v → Step w v
  cancels : (sid : ℕ) → cancel_begin sid w ≡ ok v → Step w v
  cancelled : (sid : ℕ) (notice : Bool) (e : TaskEnd) → cancel_end sid notice e w ≡ ok v → Step w v
  ends :
      (sid : ℕ) (i : SampleIndex) (h : List HistoryItem) (e : TaskEnd)
      → v ≡ (wrapper_end sid i h e w).1
      → Step w v

pub data Reach (concurrency : ℕ) (full_async : Bool) : TaskWorker → Type 0 where
  here : Reach concurrency full_async (record {
    session_map = [];
    concurrency = concurrency;
    full_async = full_async;
    notices = [];
  })
  next :
      {w v : TaskWorker}
      → Reach concurrency full_async w
      → Step w v
      → Reach concurrency full_async v

abbrev IsBounded : ℕ → TaskWorker → Type 0
IsBounded n w = (w.concurrency ≡ n) × (length w.session_map ≤ n)

-- The parts of what the handlers test and write.
pub start_view :
    (sid : ℕ) (i : SampleIndex) (c : Option String) (w v : TaskWorker)
    → start_sample sid i c w ≡ ok v
    → (has sid w.session_map ≡ false)
      × (length w.session_map < w.concurrency)
      × (v ≡ record w { session_map = put sid (new_running sid i c) w.session_map })
unfolding start_sample
start_view sid i c w v e = (ground arith, ground arith, ground arith)

interact_view :
    (sid : ℕ) (ms : List String) (w v : TaskWorker)
    → interact sid ms w ≡ ok v
    → (q : RunningSampleData) × (r : RunningSampleData) × (get sid w.session_map ≡ some q)
      × (v ≡ record w { session_map = put sid r w.session_map })
unfolding interact
interact_view sid ms w v e = elim (Option-cases (get sid w.session_map)) [
  | inl n ↦ absurd (ground arith)
  | inr (q, s) ↦ by_reply q s (interact_with ms q) refl
]
  where
    by_reply :
        (q : RunningSampleData)
        → get sid w.session_map ≡ some q
        → (o : Reply RunningSampleData) → interact_with ms q ≡ o
        → (q : RunningSampleData) × (r : RunningSampleData) × (get sid w.session_map ≡ some q)
          × (v ≡ record w { session_map = put sid r w.session_map })
    by_reply q s (ok r) f = (q, r, s, ground arith)
    by_reply q s (http_error n) f = absurd (ground arith)
    by_reply q s fails f = absurd (ground arith)

cancel_view :
    (sid : ℕ) (w v : TaskWorker)
    → cancel_begin sid w ≡ ok v
    → (q : RunningSampleData) × (get sid w.session_map ≡ some q)
      × (v ≡ record w { session_map = put sid (marked q) w.session_map })
unfolding cancel_begin
cancel_view sid w v e = elim (Option-cases (get sid w.session_map)) [
  | inl n ↦ absurd (ground arith)
  | inr (q, s) ↦ (q, s, ground arith)
]

update_bound :
    {n : ℕ} (w : TaskWorker) (sid : ℕ) (r q : RunningSampleData)
    → IsBounded n w
    → get sid w.session_map ≡ some q
    → IsBounded n (record w { session_map = put sid r w.session_map })
update_bound w sid r q b e =
    (b.0, omega (arith, b.1, length-put_old sid r w.session_map (has-get sid w.session_map q e)))

Step-IsBounded : {n : ℕ} {w v : TaskWorker} → Step w v → IsBounded n w → IsBounded n v
unfolding cancel_end wrapper_end
Step-IsBounded {w} {v} (starts sid i c e) b =
    let (new, room, q) = start_view sid i c w v e in
    rw q (b.0, omega (arith, length-put_new sid (new_running sid i c) w.session_map new, b.0))
Step-IsBounded {w} {v} (interacts sid ms e) b =
    let (q, r, s, p) = interact_view sid ms w v e in rw p (update_bound w sid r q b s)
Step-IsBounded {w} {v} (cancels sid e) b =
    let (q, s, p) = cancel_view sid w v e in rw p (update_bound w sid (marked q) q b s)
Step-IsBounded {w} (cancelled sid n e p) b = ground (arith, length-remove-le sid w.session_map)
Step-IsBounded {w} (ends sid i h e p) b = ground (arith, length-remove-le sid w.session_map)

Reach-IsBounded : {n : ℕ} {f : Bool} {w : TaskWorker} → Reach n f w → IsBounded n w
Reach-IsBounded here = (refl, omega arith)
Reach-IsBounded (next r st) = Step-IsBounded st (Reach-IsBounded r)

-- However requests and ends of tasks interleave, `session_map` never has more entries than the
-- worker's concurrency.
pub capacity : {n : ℕ} {f : Bool} {w : TaskWorker} → Reach n f w → length w.session_map ≤ n
capacity r = (Reach-IsBounded r).1

-- The worker after the task of a session that is being cancelled has ended in some way, and before
-- `cancel_task` goes on.
abbrev pub after_end : ℕ → SampleIndex → List HistoryItem → TaskEnd → TaskWorker → TaskWorker
after_end sid i h e w = (wrapper_end sid i h e w).1

-- The worker that a handler leaves, whether it returns or raises.
abbrev pub settled : Reply TaskWorker → TaskWorker → TaskWorker
settled (ok v) w = v
settled (http_error n) w = w
settled fails w = w

stays_out : (sid : ℕ) (m : Table ℕ RunningSampleData) → has sid (remove sid m) ≢ true
stays_out sid m h = ground (arith, has-remove sid sid m, beq_iff sid sid)

-- In a worker whose tasks are not fully asynchronous, a session that runs when it is cancelled is
-- still in the map after its task has ended and `_cancel` is through exactly when the task let
-- AgentCancelledException out, as `action` raises it: it then goes on counting against the
-- concurrency.
pub cancel_leaks :
    (sid : ℕ) (i : SampleIndex) (h : List HistoryItem) (notice : Bool) (e : TaskEnd)
    (w : TaskWorker)
    → w.full_async ≡ false
    → has sid w.session_map ≡ true
    → (has sid
          (settled
            (cancel_end sid notice e (after_end sid i h e w))
            (after_end sid i h e w)).session_map
        ≡ true)
      ↔ (e ≡ agent_cancelled)
unfolding cancel_end wrapper_end
cancel_leaks sid i h notice (returned a b) w f p =
    (λ q. absurd (stays_out sid (remove sid w.session_map) (ground arith)), λ q. cc q)
cancel_leaks sid i h notice (returned_nothing t) w f p =
    (λ q. absurd (stays_out sid (remove sid w.session_map) (ground arith)), λ q. cc q)
cancel_leaks sid i h notice (raised t) w f p =
    (λ q. absurd (stays_out sid (remove sid w.session_map) (ground arith)), λ q. cc q)
cancel_leaks sid i h notice task_cancelled w f p =
    (λ q. absurd (stays_out sid (remove sid w.session_map) (ground arith)), λ q. cc q)
cancel_leaks sid i h notice agent_cancelled w f p = (λ q. refl, λ q. ground arith)
