-- ===== src/Eval/Runner/Ended.antt =====
-- What the workers have done when all of them have ended.
use agent_rl.Common.{
  ℕ, suc, ◌+◌, ◌<◌, ◌≡◌, refl, sym, ap, ◌∙◌, true, false, ◌||◌, ◌⊎◌, inl, inr, List, [], ◌∷◌, ◌++◌,
  map, length, String, string_eq, beq, beq_iff, contains, if◌then◌else◌, Bool-cases, Option-cases,
  All, All-append, append_assoc, append-nil, arith,
}
use mathlib.Core.Path.{subst}
use agent_rl.Common.Table.{get, has, has-put, has-get}
use agent_rl.Eval.Types.{SampleStatus}
use agent_rl.Eval.Runner.{
  RunSpec, Results, is_done, Runner, not_done, start_run, take_first, record_result,
}
use agent_rl.Eval.Runner.Steps.{Step, goes_on, finishes, fails, Reached, at_start, step}

All-map {ℓ κ μ} :
    {A : Type ℓ} {P : A → Type κ} {Q : A → Type μ} (xs : List A)
    → ((a : A) → P a → Q a)
    → All P xs
    → All Q xs
All-map [] h a = tt
All-map (x ∷ xs) h a = (h x a.0, All-map xs h a.1)

module _ (run_key : RunSpec → String) where
  abbrev keys_of : List RunSpec → List String
  keys_of ss = map run_key ss

  contains-between :
      (before after : List RunSpec) (s : RunSpec) (k : String)
      → contains (keys_of (before ++ s ∷ after)) k
        ≡ (if beq (run_key s) k then true else contains (keys_of (before ++ after)) k)
  contains-between [] after s k = refl
  contains-between (b ∷ before) after s k = ground (arith, contains-between before after s k)

  length-between :
      (before after : List RunSpec) (s : RunSpec)
      → length (before ++ s ∷ after) ≡ suc (length (before ++ after))
  length-between [] after s = refl
  length-between (b ∷ before) after s = ground (arith, length-between before after s)

  -- A sample that is run, or has a result
  abbrev IsCovered : Runner → RunSpec → Type 0
  IsCovered r s = (contains (keys_of r.running) (run_key s) || has (run_key s) r.results) ≡ true

  record Inv (queued : List RunSpec) (results : Results) (r : Runner) : Type 0 where
    split : r.ran ++ r.queue ≡ queued
    covered : r.is_failed ≡ false → All (IsCovered r) r.ran
    alive : r.is_failed ≡ false → (r.queue ≡ []) ⊎ (0 < r.idle + length r.running)
    kept : (k : String) → has k results ≡ true → has k r.results ≡ true

  take-Inv :
      (queued : List RunSpec) (results : Results) (others : ℕ) (queue : List RunSpec) (r : Runner)
      → r.queue ≡ queue
      → r.idle ≡ suc others
      → Inv queued results r
      → Inv queued results (take_first run_key others queue r)
  take-Inv queued results others [] r e i v = record {
    split = v.split;
    covered = v.covered;
    alive = λ n. inl e;
    kept = v.kept;
  }
  take-Inv queued results others (s ∷ queue) r e i v = record {
    split = append_assoc r.ran (s ∷ []) queue ∙ ap (λ q. r.ran ++ q) (sym e) ∙ v.split;
    covered = λ n.
        All-append (IsCovered (take_first run_key others (s ∷ queue) r)) r.ran (s ∷ [])
          (All-map r.ran (λ x c. ground (arith, c)) (v.covered n))
          (ground (arith, beq_iff (run_key s) (run_key s)), tt);
    alive = λ n. inr (ground arith);
    kept = v.kept;
  }

  finish-Inv :
      (queued : List RunSpec) (results : Results) (s : RunSpec) (status : SampleStatus)
      (before after : List RunSpec) (r : Runner)
      → r.running ≡ before ++ s ∷ after
      → Inv queued results r
      → Inv queued results (record_result run_key s status (before ++ after) r)
  finish-Inv queued results s status before after r e v = record {
    split = v.split;
    covered = λ n.
        All-map r.ran
          (λ x c. ground (
            arith,
            contains-between before after s (run_key x),
            has-put (run_key s) (run_key x) status r.results,
            c,
            ap (λ l. contains (keys_of l) (run_key x)) e,
          ))
          (v.covered n);
    alive = λ n. inr (ground arith);
    kept = λ k h. ground (arith, has-put (run_key s) k status r.results, v.kept k h);
  }

  step-Inv :
      (queued : List RunSpec) (results : Results) (r t : Runner)
      → Step run_key r t
      → Inv queued results r
      → Inv queued results t
  step-Inv queued results r t (goes_on others i q) v =
      rw q (take-Inv queued results others r.queue r refl i v)
  step-Inv queued results r t (finishes s status before after e q) v =
      rw q (finish-Inv queued results s status before after r e v)
  step-Inv queued results r t (fails s before after e q) v = rw q (record {
    split = v.split;
    covered = λ n. absurd (ground (arith, n));
    alive = λ n. absurd (ground (arith, n));
    kept = v.kept;
  })

  start-Inv :
      (workers : ℕ) (results : Results) (specs : List RunSpec)
      → 0 < workers
      → Inv (not_done run_key results specs) results (start_run run_key workers results specs)
  start-Inv workers results specs l = record {
    split = refl;
    covered = λ n. tt;
    alive = λ n. inr (ground (arith, l));
    kept = λ k h. h;
  }

  Reached-Inv :
      (workers : ℕ) (results : Results) (specs : List RunSpec) (r : Runner)
      → 0 < workers
      → Reached run_key (start_run run_key workers results specs) r
      → Inv (not_done run_key results specs) results r
  Reached-Inv workers results specs r l at_start = start-Inv workers results specs l
  Reached-Inv workers results specs r l (step p e) =
      step-Inv (not_done run_key results specs) results _ r e
        (Reached-Inv workers results specs _ l p)

  is_done-has : (results : Results) (k : String) → is_done results k ≡ true → has k results ≡ true
  is_done-has results k e = elim (Option-cases (get k results)) [
    | inl n ↦ absurd (ground (arith, n, e))
    | inr (status, g) ↦ has-get k results status g
  ]

  not_done-skip :
      (results : Results) (s : RunSpec) (ss : List RunSpec)
      → is_done results (run_key s) ≡ true
      → not_done run_key results (s ∷ ss) ≡ not_done run_key results ss
  unfolding not_done
  not_done-skip results s ss e = rw e refl

  not_done-keep :
      (results : Results) (s : RunSpec) (ss : List RunSpec)
      → is_done results (run_key s) ≡ false
      → not_done run_key results (s ∷ ss) ≡ s ∷ not_done run_key results ss
  unfolding not_done
  not_done-keep results s ss e = rw e refl

  -- What was not done has a result, and what was done has its old one or a new one.
  done_or_ran :
      (results now : Results) (specs : List RunSpec)
      → ((k : String) → has k results ≡ true → has k now ≡ true)
      → All (λ s. has (run_key s) now ≡ true) (not_done run_key results specs)
      → All (λ s. has (run_key s) now ≡ true) specs
  done_or_ran results now [] h a = tt
  done_or_ran results now (s ∷ specs) h a = elim (Bool-cases (is_done results (run_key s))) [
    | inl d ↦ (
      h (run_key s) (is_done-has results (run_key s) d),
      done_or_ran results now specs h
          (subst (All (λ x. has (run_key x) now ≡ true)) (not_done-skip results s specs d) a),
    )
    | inr d ↦
        let b = subst (All (λ x. has (run_key x) now ≡ true)) (not_done-keep results s specs d) a in
        (b.0, done_or_ran results now specs h b.1)
  ]

  queue_empty :
      (workers : ℕ) (results : Results) (specs : List RunSpec) (r : Runner)
      → 0 < workers
      → Reached run_key (start_run run_key workers results specs) r
      → r.idle ≡ 0
      → r.running ≡ []
      → r.is_failed ≡ false
      → r.queue ≡ []
  queue_empty workers results specs r l p i e n =
      elim ((Reached-Inv workers results specs r l p).alive n) [
        | inl q ↦ q
        | inr m ↦ absurd (ground (arith, m, i, ap length e))
      ]

  pub ended :
      (workers : ℕ) (results : Results) (specs : List RunSpec) (r : Runner)
      → 0 < workers
      → Reached run_key (start_run run_key workers results specs) r
      → r.idle ≡ 0
      → r.running ≡ []
      → r.is_failed ≡ false
      → (r.ran ≡ not_done run_key results specs) × All (λ s. has (run_key s) r.results ≡ true) specs
  ended workers results specs r l p i e n =
      let v = Reached-Inv workers results specs r l p in
      let empty = queue_empty workers results specs r l p i e n in
      let all_ran = sym (append-nil r.ran) ∙ ap (λ q. r.ran ++ q) (sym empty) ∙ v.split in
      (
        all_ran,
        done_or_ran results r.results specs v.kept (
            subst (All (λ x. has (run_key x) r.results ≡ true)) all_ran (
              All-map r.ran (λ x c. ground (arith, c, ap (λ l. contains (keys_of l) (run_key x)) e))
                (v.covered n))),
      )
