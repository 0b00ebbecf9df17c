-- ===== src/Eval/Workflow/Fuel.antt =====
-- The loop of `_run` ends if the server's patience does, and how much fuel that takes.
use agent_rl.Common.{
  ℕ, zero, suc, ◌+◌, ◌≤◌, ◌<◌, ◌≡◌, refl, Option-cases, Bool-cases, Bool, false, Option, none, some,
  List, [], ◌∷◌, String, inl, inr, arith,
}
use agent_rl.Eval.Types.{SampleStatus, InteractResponse, is_finished, MessageRecord, RunResult}
use agent_rl.Eval.Workflow.{
  Workflow, Http, StartEnd, started, http_status_error, other_error, start_sample, start_tries,
  start_end, RunEnd, TurnEnd, goes_on, gives_up, answered, ask, respond, interactions, run_started,
  run, settle, evaluate, opened, taken, raised, returned, set_tools, server_complete,
  client_complete, stub, fresh_workflow,
}
use agent_rl.Eval.Workflow.Log.{start_tries_once}

-- A server that lets a session go on only so often: each response that does not finish lowers what is
-- left, and nothing raises it.
pub record IsLimited {W : Type 0} (http : Http W) (left : W → ℕ) : Type 0 where
  pub lowers :
      (sid : ℕ) (ms : List MessageRecord) (w : W) (r : InteractResponse)
      → answered (http.post_interact sid ms w).0 ≡ goes_on r
      → is_finished r ≡ false
      → left (http.post_interact sid ms w).1 < left w
  pub queries :
      (ms : List MessageRecord) (tools : List String) (w : W)
      → left (http.query ms tools w).1 ≤ left w
  pub starts : (w : W) → left (http.post_start w).1 ≤ left w
  pub starting : (sid : ℕ) (w : W) → left (http.on_started sid w).1 ≤ left w

module _ {W : Type 0} (http : Http W) (left : W → ℕ) (h : IsLimited http left) where
  respond-lowers :
      (sid : ℕ) (s : Workflow) (said : Option (List MessageRecord)) (w : W) (r : InteractResponse)
      → (respond http sid s said w).0 ≡ goes_on r
      → is_finished r ≡ false
      → left (respond http sid s said w).2 < left w
  respond-lowers sid s none w r e f = cc e
  respond-lowers sid s (some []) w r e f = cc e
  respond-lowers sid s (some (m ∷ ms)) w r e f = h.lowers sid (m ∷ ms) w r e f

  turn_returns :
      (t : TurnEnd) (given_up : (status : SampleStatus) → RunEnd × Workflow × W)
      (rest : InteractResponse → Option (RunEnd × Workflow × W))
      → ((r : InteractResponse) → t ≡ goes_on r → (o : RunEnd × Workflow × W) × (rest r ≡ some o))
      → (o : RunEnd × Workflow × W) × (elim t [
        | gives_up status ↦ some (given_up status)
        | goes_on r ↦ rest r
      ]
          ≡ some o)
  turn_returns (gives_up status) given_up rest k = (given_up status, refl)
  turn_returns (goes_on r) given_up rest k = k r refl

  interactions_return :
      (fuel sid : ℕ) (response : InteractResponse) (s : Workflow) (w : W)
      → 0 < fuel
      → (is_finished response ≡ false → left w + 1 < fuel)
      → (o : RunEnd × Workflow × W) × (interactions fuel http sid response s w ≡ some o)
  unfolding interactions ask
  interactions_return zero sid response s w p l = absurd (omega arith)
  interactions_return (suc fuel) sid response s w p l = elim (Option-cases response.messages) [
    | inl n ↦
        ((raised, record s { tools = set_tools response.tools s.tools }, w), ground (arith, n))
    | inr (ms, m) ↦ elim (Bool-cases (is_finished response)) [
      | inl done ↦ (
        (server_complete (taken response ms s) response, taken response ms s, w),
        ground (arith, m, done),
      )
      | inr more ↦
          let s1 = taken response ms s in
          let said = http.query s1.messages s1.tools w in
          let t = respond http sid s1 said.0 said.1 in
          let (o, q) =
            turn_returns t.0 (λ status. (returned (client_complete t.1 status), t.1, t.2))
              (λ r. interactions fuel http sid r t.1 t.2)
              (λ r g. interactions_return fuel sid r t.1 t.2 (omega (arith, l more)) (λ f. omega (
                arith,
                l more,
                respond-lowers sid s1 said.0 said.1 r g f,
                h.queries s1.messages s1.tools w,
              ))) in
          (o, ground (arith, m, more, q))
    ]
  ]

  run_started-returns :
      (fuel : ℕ) (start_only : Bool) (sid : ℕ) (response : InteractResponse) (w : W)
      → left w + 1 < fuel
      → (o : RunEnd × Workflow × W) × (run_started fuel start_only http sid response w ≡ some o)
  unfolding run_started
  run_started-returns fuel start_only sid response w l =
      let v = (http.on_started sid w).1 in
      let (o, q) =
        interactions_return fuel sid response (opened sid) v (omega (arith, l))
          (λ f. omega (arith, l, h.starting sid w)) in
      elim (Bool-cases (http.on_started sid w).0) [
        | inr failed ↦ ((raised, opened sid, v), ground (arith, failed))
        | inl went ↦ elim (Bool-cases start_only) [
          | inl only ↦ (
            (
              server_complete fresh_workflow (stub response),
              fresh_workflow,
              http.post_cancel sid v,
            ),
            ground (arith, went, only),
          )
          | inr all ↦ (o, ground (arith, went, all, q))
        ]
      ]

  run_returns :
      (fuel : ℕ) (start_only : Bool) (w : W)
      → left w + 1 < fuel
      → (o : RunEnd × Workflow × W) × (run fuel start_only http w ≡ some o)
  unfolding run start_sample
  run_returns fuel start_only w l = by_end (start_end (http.post_start w).0) refl
    where
      v : W
      v = (http.post_start w).1

      first : start_tries 10 http w ≡ (start_end (http.post_start w).0, v)
      first = start_tries_once 9 http w

      by_end :
          (g : StartEnd)
          → start_end (http.post_start w).0 ≡ g
          → (o : RunEnd × Workflow × W) × (run fuel start_only http w ≡ some o)
      by_end (started sid response) g =
          let (o, q) =
            run_started-returns fuel start_only sid response v (omega (arith, l, h.starts w)) in
          (o, ground (arith, first, g, q))
      by_end http_status_error g = (
        (returned (client_complete fresh_workflow SampleStatus.server_error), fresh_workflow, v),
        ground (arith, first, g),
      )
      by_end other_error g = (
        (returned (client_complete fresh_workflow SampleStatus.server_error), fresh_workflow, v),
        ground (arith, first, g),
      )

-- With a server that lets a session go on only so often, the workflow returns a result, on two more
-- units of fuel than what is left.
pub evaluate_returns :
    {W : Type 0} (http : Http W) (left : W → ℕ) (fuel : ℕ) (start_only : Bool) (w : W)
    → IsLimited http left
    → left w + 1 < fuel
    → (result : RunResult) × (v : W) × (evaluate fuel start_only http w ≡ some (result, v))
unfolding evaluate
evaluate_returns http left fuel start_only w h l =
    let ((end, s, v), q) = run_returns http left h fuel start_only w l in
    let (result, u) = settle http end s v in (result, u, ground (arith, q))
