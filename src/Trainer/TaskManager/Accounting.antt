-- ===== src/Trainer/TaskManager/Accounting.antt =====
-- What `_pending_count` counts, and what `stop` waits for.
use agent_rl.Common.{
  ◌≢◌, ℕ, ◌+◌, ◌<◌, ◌≡◌, refl, true, false, List, [], ◌∷◌, ◌++◌, arith, length, length-append,
}
use agent_rl.Common.Int.{pos, ◌-ℤ◌, pos_part, neg_part, +ℤ_parts, -ℤ_parts, eq_of_parts}
use agent_rl.Trainer.Buffer.{Item, returns}
use agent_rl.Trainer.TaskManager.{
  TaskManager, Outcome, put_begin, put_end, put_nowait, worker_end, uncount, failed, cancelled,
  nothing, result, get, get_all, start, stop_begin, stop_end, new_manager,
}
use agent_rl.Trainer.TaskManager.Steps.{
  System, Step, Steps, init, put_call, put_room, put_at_once, put_refused, work_start, work_take,
  work_done, work_died, consume, consume_all, start_call, stop_call, stop_return, here, next,
}

-- The items that were put and are not done with.
abbrev pub in_flight : System → ℕ
in_flight s = length s.putting + length s.manager.queue + length s.running + s.lost

-- The count and the items that `get` delivered make up the items in flight, in whole numbers.
abbrev pub Balances : TaskManager → ℕ → ℕ → Type 0
Balances m delivered flying =
    pos_part m.pending_count + delivered ≡ neg_part m.pending_count + flying

abbrev pub Accounts : System → Type 0
Accounts s = Balances s.manager s.delivered (in_flight s)

length-middle :
    (xs ys zs : List Item) (item : Item) → zs ≡ xs ++ item ∷ ys → length zs ≡ length (xs ++ ys) + 1
length-middle xs ys zs item e =
    rw e (omega (arith, length-append xs (item ∷ ys), length-append xs ys))

module _ (m n : TaskManager) (d : ℕ) (k : ℕ) (a : Balances m d k) where
  put_begin-Balances : Balances (put_begin m) d (k + 1)
  unfolding put_begin
  put_begin-Balances = omega (arith, +ℤ_parts m.pending_count (pos 1))

  uncount-Balances : (l : ℕ) → k ≡ l + 1 → Balances (uncount m) d l
  uncount-Balances l e = omega (arith, -ℤ_parts m.pending_count (pos 1))

  worker_end-Balances :
      (o : Outcome) (l : ℕ)
      → k ≡ l + 1
      → worker_end o m ≡ returns n
      → Balances n d l × (n.queue ≡ m.queue)
  unfolding worker_end
  worker_end-Balances failed l e p = (ground (arith, uncount-Balances l e), ground arith)
  worker_end-Balances cancelled l e p = cc p
  worker_end-Balances nothing l e p = (ground (arith, uncount-Balances l e), ground arith)
  worker_end-Balances (result item) l e p = (ground (arith, uncount-Balances l e), ground arith)

  get-Balances :
      (i j : ℕ) (xs : List Item)
      → get i j m ≡ returns (xs, n)
      → Balances n (d + length xs) k × (n.queue ≡ m.queue)
  unfolding get
  get-Balances i j xs p = (ground (arith, -ℤ_parts m.pending_count (pos (length xs))), ground arith)

Step-Accounts : {s t : System} → Step true s t → Accounts s → Accounts t
unfolding put_end put_nowait get_all start stop_begin stop_end
Step-Accounts {s} (put_call item p e) a =
    rw e (omega (arith, +ℤ_parts s.manager.pending_count (pos 1)))
Step-Accounts {s} (put_room item xs ys m w p e) a = rw e (
    ground (arith, length-middle xs ys s.putting item w, length-append s.manager.queue (item ∷ [])))
Step-Accounts {s} (put_at_once item m b p e) a = rw e (
    ground
      (arith, +ℤ_parts s.manager.pending_count (pos 1), length-append s.manager.queue (item ∷ [])))
Step-Accounts {s} (put_refused item m b p e) a =
    rw e (ground (arith, +ℤ_parts s.manager.pending_count (pos 1)))
Step-Accounts {s} (work_start k q e) a = rw e a
Step-Accounts {s} (work_take item rest k q i e) a = rw e (ground arith)
Step-Accounts {s} (work_done item xs ys o m w p e) a =
    let l : ℕ = length s.putting + length s.manager.queue + length (xs ++ ys) + s.lost in
    let same : in_flight s ≡ l + 1 = omega (arith, length-middle xs ys s.running item w) in
    let r = worker_end-Balances s.manager m s.delivered (in_flight s) a o l same p in
    rw (e, r.1) r.0
Step-Accounts {s} (work_died item xs ys o w p e) a =
    rw e (omega (arith, length-middle xs ys s.running item w))
Step-Accounts {s} (consume i j xs m p e) a =
    let r = get-Balances s.manager m s.delivered (in_flight s) a i j xs p in rw (e, r.1) r.0
Step-Accounts {s} (consume_all xs m p e) a = rw e (ground arith)
Step-Accounts {s} (start_call e) a = rw e (ground arith)
Step-Accounts {s} (stop_call e) a = rw e a
Step-Accounts {s} (stop_return f z w e) a = rw e a

Steps-Accounts : {s t : System} → Steps true s t → Accounts s → Accounts t
Steps-Accounts here a = a
Steps-Accounts (next r st) a = Step-Accounts st (Steps-Accounts r a)

-- In every state that a new manager reaches, `_pending_count` is the number of items in flight (with
-- a producer, in the queue, with a worker, or lost to a refused `put_nowait` or a worker that
-- raised) less the number of items that `get` returned.
pub pending_accounts :
    (q b g w : ℕ) {s : System}
    → Steps true (init q b g w) s
    → s.manager.pending_count ≡ pos (in_flight s) -ℤ pos s.delivered
unfolding new_manager
pending_accounts q b g w {s} r =
    let a = Steps-Accounts r refl in
    eq_of_parts _ _ (omega (arith, a, -ℤ_parts (pos (in_flight s)) (pos s.delivered)))

-- No step but a producer's changes this: some worker waits for an item, and none is on its way.
record Stuck (s : System) : Type 0 where
  waiting : 0 < s.idle
  none_queued : s.manager.queue ≡ []
  none_coming : s.putting ≡ []

no-middle : (xs ys : List Item) (item : Item) → [] ≢ xs ++ item ∷ ys
no-middle [] ys item e = cc e
no-middle (x ∷ xs) ys item e = cc e

worker_end-queue :
    (o : Outcome) (m n : TaskManager) → worker_end o m ≡ returns n → n.queue ≡ m.queue
unfolding worker_end
worker_end-queue failed m n p = ground arith
worker_end-queue cancelled m n p = cc p
worker_end-queue nothing m n p = ground arith
worker_end-queue (result item) m n p = ground arith

Step-Stuck : {s t : System} → Step false s t → Stuck s → Stuck t
unfolding get get_all start stop_begin stop_end
Step-Stuck {s} (put_call item p e) a = cc p
Step-Stuck {s} (put_room item xs ys m w p e) a =
    absurd (no-middle xs ys item (cc (w, a.none_coming)))
Step-Stuck {s} (put_at_once item m b p e) a = cc b
Step-Stuck {s} (put_refused item m b p e) a = cc b
Step-Stuck {s} (work_start k q e) a = ground arith
Step-Stuck {s} (work_take item rest k q i e) a = cc (q, a.none_queued)
Step-Stuck {s} (work_done item xs ys o m w p e) a = rw e (record {
  waiting = ground arith;
  none_queued = cc (worker_end-queue o s.manager m p);
  none_coming = a.none_coming;
})
Step-Stuck {s} (work_died item xs ys o w p e) a = ground arith
Step-Stuck {s} (consume i j xs m p e) a = ground arith
Step-Stuck {s} (consume_all xs m p e) a = ground arith
Step-Stuck {s} (start_call e) a = ground arith
Step-Stuck {s} (stop_call e) a = ground arith
Step-Stuck {s} (stop_return f z w e) a = ground arith

Steps-Stuck : {s t : System} → Steps false s t → Stuck s → Stuck t
Steps-Stuck here a = a
Steps-Stuck (next r st) a = Step-Stuck st (Steps-Stuck r a)

-- While a worker waits on an empty queue and no producer acts, whatever else happens (`stop`, the
-- other workers, consumers, `start`), that worker still waits: `stop` cannot return.
pub stop_hangs :
    {s t : System}
    → 0 < s.idle
    → s.manager.queue ≡ []
    → s.putting ≡ []
    → Steps false s t
    → t.idle ≢ 0
stop_hangs p q n r =
    let w = (Steps-Stuck r (record { waiting = p; none_queued = q; none_coming = n })).waiting in
    omega arith
