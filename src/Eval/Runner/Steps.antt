-- ===== src/Eval/Runner/Steps.antt =====
-- The steps of the workers, which interleave at their awaits.
use agent_rl.Common.{ℕ, suc, ◌≡◌, List, ◌∷◌, ◌++◌, String}
use agent_rl.Eval.Types.{SampleStatus}
use agent_rl.Eval.Runner.{RunSpec, Runner, worker_next, record_result, fail_run}

module _ (run_key : RunSpec → String) where
  pub data Step (r t : Runner) : Type 0 where
    goes_on : (others : ℕ) → r.idle ≡ suc others → t ≡ worker_next run_key others r → Step r t
    finishes :
        (s : RunSpec) (status : SampleStatus) (before after : List RunSpec)
        → r.running ≡ before ++ s ∷ after
        → t ≡ record_result run_key s status (before ++ after) r
        → Step r t
    fails :
        (s : RunSpec) (before after : List RunSpec)
        → r.running ≡ before ++ s ∷ after
        → t ≡ fail_run run_key r
        → Step r t

  pub data Reached (start : Runner) : Runner → Type 0 where
    at_start : Reached start start
    step : {r t : Runner} → Reached start r → Step r t → Reached start t
