-- ===== src/Eval/Runner/Complete.antt =====
-- What has a result when the workers have ended.
use agent_rl.Common.{
  ℕ, zero, suc, ◌+◌, ◌<◌, ◌≡◌, true, false, List, [], ◌∷◌, ◌++◌, map, String, string_eq, All, arith,
}
use agent_rl.Common.Table.{Table, has}
use agent_rl.Eval.Runner.{
  TaskIndex, RunSpec, spec_of, specs_of, specs_from, gather_tasks, all_wanted, Results, Runner,
  not_done, start_run,
}
use agent_rl.Eval.Runner.Steps.{Reached}
use agent_rl.Eval.Runner.Ended.{ended}

All-front {ℓ κ} : {A : Type ℓ} (P : A → Type κ) (xs ys : List A) → All P (xs ++ ys) → All P xs
All-front P [] ys a = tt
All-front P (x ∷ xs) ys a = (a.0, All-front P xs ys a.1)

All-back {ℓ κ} : {A : Type ℓ} (P : A → Type κ) (xs ys : List A) → All P (xs ++ ys) → All P ys
All-back P [] ys a = a
All-back P (x ∷ xs) ys a = All-back P xs ys a.1

All-of_map {ℓ κ μ} :
    {A : Type ℓ} {B : Type κ} (P : B → Type μ) (f : A → B) (xs : List A)
    → All P (map f xs)
    → All (λ x. P (f x)) xs
All-of_map P f [] a = tt
All-of_map P f (x ∷ xs) a = (a.0, All-of_map P f xs a.1)

first_run : (first k : ℕ) → k ≡ first + 0 → k ≡ first
first_run first k e = omega (arith, e)

module _ (run_key : RunSpec → String)
    (shuffle : ℕ → List (String × TaskIndex) → List (String × TaskIndex))
    (keeps : (P : String × TaskIndex → Type 0) (n : ℕ) (xs : List (String × TaskIndex))
      → All P (shuffle n xs)
      → All P xs) where
  specs_of-each :
      (P : RunSpec → Type 0) (models : List String) (run : ℕ) (tis : List (String × TaskIndex))
      → All P (specs_of models run tis)
      → All (λ ti. All (λ m. P (spec_of run ti m)) models) tis
  unfolding specs_of
  specs_of-each P models run [] a = tt
  specs_of-each P models run (ti ∷ tis) a = (
    All-of_map P (spec_of run ti) models
        (All-front P (map (spec_of run ti) models) (specs_of models run tis) a),
    specs_of-each P models run tis
        (All-back P (map (spec_of run ti) models) (specs_of models run tis) a),
  )

  specs_from-each :
      (P : RunSpec → Type 0) (models : List String) (first runs n k : ℕ)
      (tis : List (String × TaskIndex))
      → All P (specs_from shuffle models first runs tis)
      → n < runs
      → k ≡ first + n
      → All (λ ti. All (λ m. P (spec_of k ti m)) models) tis
  unfolding specs_from
  specs_from-each P models first zero n k tis a l e = absurd (ground (arith, l))
  specs_from-each P models first (suc runs) zero k tis a l e = rw (first_run first k e) (
      keeps _ first tis (
        specs_of-each P models first (shuffle first tis) (
          All-front P (specs_of models first (shuffle first tis))
            (specs_from shuffle models (suc first) runs (shuffle first tis)) a)))
  specs_from-each P models first (suc runs) (suc n) k tis a l e = keeps _ first tis (
      specs_from-each P models (suc first) runs n k (shuffle first tis)
        (All-back P (specs_of models first (shuffle first tis))
          (specs_from shuffle models (suc first) runs (shuffle first tis)) a)
        (ground (arith, l)) (omega (arith, e)))

  -- When all workers have ended, of at least one, and none raised, they have run exactly the samples that
  -- were gathered and had no completed result, each once and in their order; and every model has a
  -- result for every wanted index of every task in every run. The shuffle drops no index.
  pub all_recorded :
      (workers : ℕ) (results : Results) (models : List String) (runs : ℕ) (indices : List TaskIndex)
      (listed : Table String (List TaskIndex)) (r : Runner) (k : ℕ)
      → 0 < workers
      → k < runs
      → Reached run_key
          (start_run run_key workers results (gather_tasks shuffle models runs indices listed))
          r
      → r.idle ≡ 0
      → r.running ≡ []
      → r.is_failed ≡ false
      → (r.ran ≡ not_done run_key results (gather_tasks shuffle models runs indices listed))
        × All
            (λ ti. All (λ m. has (run_key (spec_of k ti m)) r.results ≡ true) models)
            (all_wanted indices listed)
  all_recorded workers results models runs indices listed r k l m p i e n =
      let (all_ran, a) =
        ended run_key workers results (gather_tasks shuffle models runs indices listed) r l p i e
          n in
      (
        all_ran,
        specs_from-each (λ s. has (run_key s) r.results ≡ true) models 0 runs k k
            (all_wanted indices listed) a m (omega arith),
      )
