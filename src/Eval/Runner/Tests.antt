-- ===== src/Eval/Runner/Tests.antt =====
-- Two models, one task with the indices -1, 4 and 7, one run, and a store that has one of the results.
use agent_rl.Common.{ℕ, ◌≡◌, refl, true, List, [], ◌∷◌, String, string_eq, All, arith}
use agent_rl.Common.Int.{pos, negsuc}
use agent_rl.Common.Table.{Table, get, has, put}
use agent_rl.Eval.Types.{SampleStatus}
use agent_rl.Eval.Runner.{
  TaskIndex, number, RunSpec, spec_of, specs_of, specs_from, gather_tasks, all_wanted, wanted,
  is_among, Results, Runner, not_done, start_run,
}
use agent_rl.Eval.Runner.Steps.{goes_on, finishes, Reached, at_start, step}
use agent_rl.Eval.Runner.Complete.{all_recorded}

abbrev run_key : RunSpec → String
run_key s = s.model

abbrev unshuffled : ℕ → List (String × TaskIndex) → List (String × TaskIndex)
unshuffled n xs = xs

abbrev listed : Table String (List TaskIndex)
listed = ("shop", number (negsuc 0) ∷ number (pos 4) ∷ number (pos 7) ∷ []) ∷ []

abbrev old_results : Results
old_results = ("small", SampleStatus.completed) ∷ ("large", SampleStatus.model_error) ∷ []

abbrev specs : List RunSpec
specs = gather_tasks unshuffled ("small" ∷ "large" ∷ []) 1 (number (pos 7) ∷ []) listed

abbrev seven : String → RunSpec
seven model = record { model = model; run = 0; task = "shop"; index = number (pos 7) }

-- Index -1 is left out, and so is 4, which was not asked for.
gathered : specs ≡ seven "small" ∷ seven "large" ∷ []
unfolding specs_from specs_of all_wanted wanted is_among
gathered = refl

abbrev begun : Runner
begun = start_run run_key 1 old_results specs

abbrev at_work : Runner
at_work = record begun {
  queue = [];
  idle = 0;
  running = seven "large" ∷ [];
  ran = seven "large" ∷ [];
}

abbrev at_end : Runner
at_end = record at_work {
  running = [];
  results = ("small", SampleStatus.completed) ∷ ("large", SampleStatus.completed) ∷ [];
}

to_end : Reached run_key begun at_end
unfolding specs_from specs_of all_wanted wanted is_among not_done get put
to_end =
    step
      (step (step at_start (goes_on 0 refl refl))
        (finishes (seven "large") SampleStatus.completed [] [] refl refl))
      (goes_on 0 refl refl)

all_recorded_example :
    (at_end.ran ≡ not_done run_key old_results specs)
    × All
        (λ ti.
          All (λ m. has (run_key (spec_of 0 ti m)) at_end.results ≡ true) ("small" ∷ "large" ∷ []))
        (all_wanted (number (pos 7) ∷ []) listed)
all_recorded_example =
    all_recorded run_key unshuffled (λ P n xs a. a) 1 old_results ("small" ∷ "large" ∷ []) 1
      (number (pos 7) ∷ []) listed at_end 0 (omega arith) (omega arith) to_end refl refl refl
