-- ===== src/Eval/Workflow/Settled.antt =====
-- How a sample ends between the client and the server, seen in a log of what passes between them.
use agent_rl.Common.{
  ℕ, zero, suc, ◌≡◌, refl, sym, ap, Option-cases, Bool-cases, ◌∙◌, Bool, true, Option, none, some,
  List, [], ◌∷◌, ◌⊎◌, inl, inr, arith,
}
use agent_rl.Eval.Types.{
  SampleStatus, is_client_error, InteractResponse, is_finished, MessageRecord, RunResult,
}
use agent_rl.Eval.Workflow.{
  Workflow, Http, StartEnd, started, http_status_error, other_error, start_end, start_sample,
  start_tries, RunEnd, returned, raised, TurnEnd, goes_on, gives_up, answered, ask, respond,
  set_tools, interactions, run_started, run, settle, evaluate, opened, result_of, server_complete,
  taken, client_complete, stub, fresh_workflow,
}
use agent_rl.Eval.Workflow.Log.{
  start_end-status, start_tries_once, Event, start_reply, cancelled, logged, finished_start,
  is_ended, TurnFits, answered-TurnFits,
}

module _ {W : Type 0} (http : Http W) where
  respond-TurnFits :
      (sid : ℕ) (s : Workflow) (said : Option (List MessageRecord)) (x : List Event × W)
      → let (e, t, y) = respond (logged http) sid s said x in
        (t.session_id ≡ s.session_id) × TurnFits e y.0
  respond-TurnFits sid s none x = (refl, refl)
  respond-TurnFits sid s (some []) x = (refl, refl)
  respond-TurnFits sid s (some (m ∷ ms)) x = (
    refl,
    answered-TurnFits (http.post_interact sid (m ∷ ms) x.1).0
        (answered (http.post_interact sid (m ∷ ms) x.1).0) x.0 refl,
  )

  -- What a run has come to: a result that makes the client cancel the session, or an ended log.
  abbrev Closes : ℕ → RunEnd × Workflow × (List Event × W) → Type 0
  Closes sid (end, s, x) =
      (s.session_id ≡ some sid)
      × ((is_client_error (result_of end s).status ≡ true) ⊎ (is_ended x.0 ≡ true))

  close_at :
      {sid : ℕ} (p o : RunEnd × Workflow × (List Event × W))
      → some p ≡ some o
      → Closes sid p
      → Closes sid o
  close_at {sid} p o e c = same (cc e)
    where
      same : o ≡ p → Closes sid o
      same q = rw q c

  turn-Closes :
      (sid : ℕ) (t : TurnEnd × Workflow × (List Event × W))
      (o : RunEnd × Workflow × (List Event × W))
      (rest : InteractResponse → Option (RunEnd × Workflow × (List Event × W)))
      → t.1.session_id ≡ some sid
      → TurnFits t.0 t.2.0
      → ((r : InteractResponse) → is_ended t.2.0 ≡ is_finished r → rest r ≡ some o → Closes sid o)
      → elim t.0 [
        | gives_up status ↦ some (returned (client_complete t.1 status), t.1, t.2)
        | goes_on r ↦ rest r
      ]
        ≡ some o
      → Closes sid o
  turn-Closes sid (gives_up status, s, x) o rest i f again e =
      close_at (returned (client_complete s status), s, x) o e (i, inl f)
  turn-Closes sid (goes_on r, s, x) o rest i f again e = again r f e

  interactions-Closes :
      (fuel : ℕ) (sid : ℕ) (response : InteractResponse) (s : Workflow) (x : List Event × W)
      (o : RunEnd × Workflow × (List Event × W))
      → interactions fuel (logged http) sid response s x ≡ some o
      → s.session_id ≡ some sid
      → is_ended x.0 ≡ is_finished response
      → Closes sid o
  unfolding interactions ask
  interactions-Closes zero sid response s x o e i f = cc e
  interactions-Closes (suc fuel) sid response s x o e i f = elim (Option-cases response.messages) [
    | inl n ↦
        close_at (raised, record s { tools = set_tools response.tools s.tools }, x) o
          (ground (arith, n, e)) (i, inl refl)
    | inr (ms, m) ↦ elim (Bool-cases (is_finished response)) [
      | inl done ↦
          close_at (server_complete (taken response ms s) response, taken response ms s, x) o
            (ground (arith, m, done, e)) (i, inr (f ∙ done))
      | inr more ↦
          let t = ask (logged http) sid (taken response ms s) x in
          let said = http.query (taken response ms s).messages (taken response ms s).tools x.1 in
          let (same, fits) = respond-TurnFits sid (taken response ms s) said.0 (x.0, said.1) in
          turn-Closes sid t o (λ r. interactions fuel (logged http) sid r t.1 t.2) (same ∙ i) fits
            (λ r g h. interactions-Closes fuel sid r t.1 t.2 o h (same ∙ i) g)
            (ground (arith, m, more, e))
    ]
  ]

  -- A result that makes the client cancel a session, or an ended log.
  abbrev Ends : RunEnd × Workflow × (List Event × W) → Type 0
  Ends (end, s, x) =
      ((sid : ℕ) × (s.session_id ≡ some sid) × (is_client_error (result_of end s).status ≡ true))
      ⊎ (is_ended x.0 ≡ true)

  Closes-Ends : (sid : ℕ) (o : RunEnd × Workflow × (List Event × W)) → Closes sid o → Ends o
  Closes-Ends sid (end, s, x) (i, inl c) = inl (sid, i, c)
  Closes-Ends sid (end, s, x) (i, inr c) = inr c

  end_at : (p o : RunEnd × Workflow × (List Event × W)) → some p ≡ some o → Ends p → Ends o
  end_at p o e c = same (cc e)
    where
      same : o ≡ p → Ends o
      same q = rw q c

  run_started-Ends :
      (fuel : ℕ) (start_only : Bool) (sid : ℕ) (response : InteractResponse) (x : List Event × W)
      (o : RunEnd × Workflow × (List Event × W))
      → run_started fuel start_only (logged http) sid response x ≡ some o
      → is_ended x.0 ≡ is_finished response
      → Ends o
  unfolding run_started
  run_started-Ends fuel start_only sid response x o e f =
      let went_on = http.on_started sid x.1 in
      elim (Bool-cases went_on.0) [
        | inr failed ↦
            end_at (raised, opened sid, (x.0, went_on.1)) o (ground (arith, failed, e))
              (inl (sid, refl, refl))
        | inl went ↦ elim (Bool-cases start_only) [
          | inl only ↦
              end_at
                (
                  server_complete fresh_workflow (stub response),
                  fresh_workflow,
                  (cancelled sid ∷ x.0, http.post_cancel sid went_on.1),
                )
                o (ground (arith, went, only, e)) (inr refl)
          | inr all ↦ Closes-Ends sid o (
              interactions-Closes fuel sid response (opened sid) (x.0, went_on.1) o
                (ground (arith, went, all, e)) refl f)
        ]
      ]

  settle-ended :
      (end : RunEnd) (s : Workflow) (x : List Event × W)
      → Ends (end, s, x)
      → is_ended (settle (logged http) end s x).1.0 ≡ true
  unfolding settle
  settle-ended end s x (inl (sid, i, c)) = ground (arith, i, c)
  settle-ended end s x (inr c) = ground (arith, c)

  run-Ends :
      (fuel : ℕ) (start_only : Bool) (w : W) (o : RunEnd × Workflow × (List Event × W))
      → run fuel start_only (logged http) ([], w) ≡ some o
      → Ends o
  unfolding run start_sample
  run-Ends fuel start_only w o e = by_end (start_end (http.post_start w).0) refl
    where
      first : start_tries 10 (logged http) ([], w) ≡ (
        start_end (http.post_start w).0,
        (start_reply (http.post_start w).0 ∷ [], (http.post_start w).1),
      )
      first = start_tries_once 9 (logged http) ([], w)

      by_end : (g : StartEnd) → start_end (http.post_start w).0 ≡ g → Ends o
      by_end (started sid response) g =
          run_started-Ends fuel start_only sid response
            (start_reply (http.post_start w).0 ∷ [], (http.post_start w).1) o
            (ground (arith, e, first, g)) (ap finished_start g)
      by_end http_status_error g = absurd (start_end-status (http.post_start w).0 g)
      by_end other_error g =
          end_at
            (
              returned (client_complete fresh_workflow SampleStatus.server_error),
              fresh_workflow,
              (start_reply (http.post_start w).0 ∷ [], (http.post_start w).1),
            )
            o (ground (arith, e, first, g)) (inr (ap finished_start g))

  -- When a sample's workflow returns, the last thing that has passed between it and the server is a
  -- cancel, a response that finished, or a start that failed or whose response was not valid: no other
  -- session is left running.
  pub evaluate-ended :
      (fuel : ℕ) (start_only : Bool) (w v : W) (result : RunResult) (log : List Event)
      → evaluate fuel start_only (logged http) ([], w) ≡ some (result, (log, v))
      → is_ended log ≡ true
  unfolding evaluate
  evaluate-ended fuel start_only w v result log e =
      by_run (run fuel start_only (logged http) ([], w)) refl
    where
      settled :
          (end : RunEnd) (s : Workflow) (x : List Event × W)
          → run fuel start_only (logged http) ([], w) ≡ some (end, s, x)
          → settle (logged http) end s x ≡ (result, (log, v))
      settled end s x q = ground (arith, e, q)

      by_run :
          (o : Option (RunEnd × Workflow × (List Event × W)))
          → run fuel start_only (logged http) ([], w) ≡ o
          → is_ended log ≡ true
      by_run none q = absurd (ground (arith, e, q))
      by_run (some (end, s, x)) q =
          let ended = settle-ended end s x (run-Ends fuel start_only w (end, s, x) q) in
          let same = settled end s x q in
          ap (λ (t : RunResult × (List Event × W)). is_ended t.1.0) (sym same) ∙ ended
