-- ===== src/Trainer/TaskManager/Steps.antt =====
-- Producers, workers and a consumer around one manager, interleaved at their awaits.
use agent_rl.Common.{
  ℕ, suc, ◌+◌, ◌≡◌, Bool, true, false, some, List, [], ◌∷◌, ◌++◌, length, if◌then◌else◌,
}
use agent_rl.Trainer.Buffer.{Item, returns, raises}
use agent_rl.Trainer.TaskManager.{
  TaskManager, Outcome, put_begin, put_end, put_nowait, worker_end, get, get_all, start, stop_begin,
  stop_end, new_manager,
}

-- `putting`: the items of producers that wait for room; `fresh`: the workers that were created and
-- have not run yet; `idle`: the workers that wait for an item; `running`: the items that workers have
-- taken. `lost` counts the items that `put_nowait` refused or whose worker raised, `delivered` those
-- that `get` returned. Nothing cancels a worker from outside.
pub record System : Type 0 where
  pub manager : TaskManager
  pub putting : List Item
  pub fresh : ℕ
  pub idle : ℕ
  pub running : List Item
  pub lost : ℕ
  pub delivered : ℕ

-- A worker looks at the stop signal before each round.
abbrev pub back : System → TaskManager → ℕ
back s m = s.idle + (if m.stop_signal then 0 else 1)

-- With `puts` false no producer acts.
pub data Step (puts : Bool) (s t : System) : Type 0 where
  put_call :
      (item : Item)
      → puts ≡ true
      → t ≡ record s { manager = put_begin s.manager; putting = item ∷ s.putting }
      → Step puts s t
  put_room :
      (item : Item) (xs ys : List Item) (m : TaskManager)
      → s.putting ≡ xs ++ item ∷ ys
      → put_end item s.manager ≡ some m
      → t ≡ record s { manager = m; putting = xs ++ ys }
      → Step puts s t
  put_at_once :
      (item : Item) (m : TaskManager)
      → puts ≡ true
      → put_nowait item s.manager ≡ (true, m)
      → t ≡ record s { manager = m }
      → Step puts s t
  put_refused :
      (item : Item) (m : TaskManager)
      → puts ≡ true
      → put_nowait item s.manager ≡ (false, m)
      → t ≡ record s { manager = m; lost = s.lost + 1 }
      → Step puts s t
  work_start :
      (k : ℕ)
      → s.fresh ≡ suc k
      → t ≡ record s { fresh = k; idle = back s s.manager }
      → Step puts s t
  work_take :
      (item : Item) (rest : List Item) (k : ℕ)
      → s.manager.queue ≡ item ∷ rest
      → s.idle ≡ suc k
      → t ≡ record s {
        manager = record s.manager { queue = rest };
        idle = k;
        running = item ∷ s.running;
      }
      → Step puts s t
  work_done :
      (item : Item) (xs ys : List Item) (o : Outcome) (m : TaskManager)
      → s.running ≡ xs ++ item ∷ ys
      → worker_end o s.manager ≡ returns m
      → t ≡ record s { manager = m; running = xs ++ ys; idle = back s m }
      → Step puts s t
  work_died :
      (item : Item) (xs ys : List Item) (o : Outcome)
      → s.running ≡ xs ++ item ∷ ys
      → worker_end o s.manager ≡ raises
      → t ≡ record s { running = xs ++ ys; lost = s.lost + 1 }
      → Step puts s t
  consume :
      (minimum multiple : ℕ) (xs : List Item) (m : TaskManager)
      → get minimum multiple s.manager ≡ returns (xs, m)
      → t ≡ record s { manager = m; delivered = s.delivered + length xs }
      → Step puts s t
  consume_all :
      (xs : List Item) (m : TaskManager)
      → get_all s.manager ≡ returns (xs, m)
      → t ≡ record s { manager = m }
      → Step puts s t
  start_call :
      t ≡ record s { manager = (start s.manager).1; fresh = s.fresh + (start s.manager).0 }
      → Step puts s t
  stop_call : t ≡ record s { manager = stop_begin s.manager } → Step puts s t
  -- `stop` returns when no worker is left
  stop_return :
      s.fresh ≡ 0
      → s.idle ≡ 0
      → s.running ≡ []
      → t ≡ record s { manager = stop_end s.manager }
      → Step puts s t

abbrev pub init : ℕ → ℕ → ℕ → ℕ → System
init queue_size buffer_size group_size workers = record {
  manager = new_manager queue_size buffer_size group_size workers;
  putting = [];
  fresh = 0;
  idle = 0;
  running = [];
  lost = 0;
  delivered = 0;
}

-- Any number of steps from `s`.
pub data Steps (puts : Bool) (s : System) : System → Type 0 where
  here : Steps puts s s
  next : {t u : System} → Steps puts s t → Step puts t u → Steps puts s u
