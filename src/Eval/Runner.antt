-- ===== src/Eval/Runner.antt =====
-- eval/src/agentrl/eval/session/runner.py: which samples are run, by how many workers, and what is
-- resumed. `random.shuffle` and the printing of a key (`run_key`) are parameters.
pub mod Steps
pub mod Ended
pub mod Complete
mod Tests
use agent_rl.Common.{
  ℕ, zero, suc, Bool, true, false, not, ◌&&◌, Option, none, some, List, [], ◌∷◌, ◌++◌, map, String,
  string_eq, beq, ◌==◌, if◌then◌else◌,
}
use agent_rl.Common.Int.{ℤ, pos, negsuc}
use agent_rl.Common.Table.{Table, get, has, put}
use agent_rl.Eval.Types.{SampleStatus, is_completed}

pub data TaskIndex : Type 0 where
  number : ℤ → TaskIndex
  name : String → TaskIndex

pub record RunSpec : Type 0 where
  pub model : String
  pub run : ℕ
  pub task : String
  pub index : TaskIndex

abbrev pub same_int : ℤ → ℤ → Bool
same_int (pos m) (pos n) = m == n
same_int (negsuc m) (negsuc n) = m == n
same_int (pos m) (negsuc n) = false
same_int (negsuc m) (pos n) = false

abbrev pub same_index : TaskIndex → TaskIndex → Bool
same_index (number m) (number n) = same_int m n
same_index (name s) (name t) = beq s t
same_index (number m) (name t) = false
same_index (name s) (number n) = false

unfoldable pub is_among : TaskIndex → List TaskIndex → Bool
is_among i [] = false
is_among i (j ∷ js) = if same_index i j then true else is_among i js

-- `index != -1 and (not self.indices or index in self.indices)`; no set and an empty one are alike.
abbrev pub is_wanted : List TaskIndex → TaskIndex → Bool
is_wanted [] i = not (same_index i (number (negsuc 0)))
is_wanted (j ∷ js) i = not (same_index i (number (negsuc 0))) && is_among i (j ∷ js)

unfoldable pub wanted : List TaskIndex → String → List TaskIndex → List (String × TaskIndex)
wanted indices task [] = []
wanted indices task (i ∷ is) =
    let rest = wanted indices task is in if is_wanted indices i then (task, i) ∷ rest else rest

-- The indices of all tasks, as the controller lists them
unfoldable pub all_wanted :
    List TaskIndex → Table String (List TaskIndex) → List (String × TaskIndex)
all_wanted indices [] = []
all_wanted indices ((task, is) ∷ rest) = wanted indices task is ++ all_wanted indices rest

abbrev pub spec_of : ℕ → String × TaskIndex → String → RunSpec
spec_of run ti model = record { model = model; run = run; task = ti.0; index = ti.1 }

unfoldable pub specs_of : List String → ℕ → List (String × TaskIndex) → List RunSpec
specs_of models run [] = []
specs_of models run (ti ∷ rest) = map (spec_of run ti) models ++ specs_of models run rest

module _ (shuffle : ℕ → List (String × TaskIndex) → List (String × TaskIndex)) where
  -- The runs from one on, so many; the indices are shuffled in place.
  unfoldable pub specs_from :
      List String → (first runs : ℕ) → List (String × TaskIndex) → List RunSpec
  specs_from models first zero indices = []
  specs_from models first (suc runs) indices =
      let shuffled = shuffle first indices in
      specs_of models first shuffled ++ specs_from models (suc first) runs shuffled

  -- `gather_tasks`
  abbrev pub gather_tasks :
      List String → (runs : ℕ) → List TaskIndex → Table String (List TaskIndex) → List RunSpec
  gather_tasks models runs indices listed = specs_from models 0 runs (all_wanted indices listed)

-- The store by its keys: `record` puts a result in the place of one with the same key.
abbrev pub Results : Type 0
Results = Table String SampleStatus

-- `run_key() in completed`
abbrev pub is_done : Results → String → Bool
is_done results key = elim (get key results) [ none ↦ false | some status ↦ is_completed status ]

-- The runner with its workers: those between two samples, and the samples that the others run. `ran` are
-- the samples that workers took so far.
pub record Runner : Type 0 where
  pub queue : List RunSpec
  pub idle : ℕ
  pub running : List RunSpec
  pub results : Results
  pub ran : List RunSpec
  pub is_failed : Bool

module _ (run_key : RunSpec → String) where
  unfoldable pub not_done : Results → List RunSpec → List RunSpec
  not_done results [] = []
  not_done results (s ∷ ss) =
      let rest = not_done results ss in if is_done results (run_key s) then rest else s ∷ rest

  -- `run`, up to the start of the workers
  abbrev pub start_run : (concurrency : ℕ) → Results → List RunSpec → Runner
  start_run concurrency results specs = record {
    queue = not_done results specs;
    idle = concurrency;
    running = [];
    results = results;
    ran = [];
    is_failed = false;
  }

  abbrev pub take_first : ℕ → List RunSpec → Runner → Runner
  take_first others [] r = record r { idle = others }
  take_first others (s ∷ queue) r = record r {
    queue = queue;
    idle = others;
    running = s ∷ r.running;
    ran = r.ran ++ s ∷ [];
  }

  -- What a worker between two samples does: it takes one, or ends.
  abbrev pub worker_next : ℕ → Runner → Runner
  worker_next others r = take_first others r.queue r

  -- The end of a sample, with its result (`_run_spec`)
  abbrev pub record_result : RunSpec → SampleStatus → (others : List RunSpec) → Runner → Runner
  record_result s status others r = record r {
    idle = suc r.idle;
    running = others;
    results = put (run_key s) status r.results;
  }

  -- An exception of one worker cancels the others.
  abbrev pub fail_run : Runner → Runner
  fail_run r = record r { idle = 0; running = []; is_failed = true }
