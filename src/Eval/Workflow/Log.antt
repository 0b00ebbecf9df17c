-- ===== src/Eval/Workflow/Log.antt =====
-- What passes between the workflow and the server, as a log around the interface.
use agent_rl.Common.{ℕ, suc, ◌≡◌, ap, Bool, true, false, Option, none, some, List, [], ◌∷◌, arith}
use agent_rl.Eval.Types.{SampleStatus, is_client_error, InteractResponse, is_finished}
use agent_rl.Eval.Workflow.{
  Reply, lost, refused, replied, Http, StartEnd, started, http_status_error, other_error, start_end,
  start_sample, start_tries, TurnEnd, goes_on, gives_up, answered,
}

pub start_end-status :
    (r : Reply (ℕ × Option InteractResponse)) → start_end r ≡ http_status_error → ⊥
start_end-status lost e = cc e
start_end-status refused e = cc e
start_end-status (replied (sid, body)) e = ground (arith, e)

-- However many tries are allowed, the first failure to start a sample is the last: only an
-- HTTPStatusError is tried again, which `start_sample` never raises.
pub start_tries_once :
    {W : Type 0} (more : ℕ) (http : Http W) (w : W)
    → start_tries (suc more) http w ≡ start_sample http w
unfolding start_tries start_sample
start_tries_once more http w = ground (arith, start_end-status (http.post_start w).0)

pub data Event : Type 0 where
  start_reply : Reply (ℕ × Option InteractResponse) → Event
  interact_reply : Reply (Option InteractResponse) → Event
  cancelled : ℕ → Event

-- The interface with a log, latest first.
abbrev pub logged : {W : Type 0} → Http W → Http (List Event × W)
logged http = record {
  post_start = λ x. let (r, v) = http.post_start x.1 in (r, (start_reply r ∷ x.0, v));
  post_interact =
      λ sid ms x. let (r, v) = http.post_interact sid ms x.1 in (r, (interact_reply r ∷ x.0, v));
  post_cancel = λ sid x. (cancelled sid ∷ x.0, http.post_cancel sid x.1);
  query = λ ms tools x. let (r, v) = http.query ms tools x.1 in (r, (x.0, v));
  on_started = λ sid x. let (r, v) = http.on_started sid x.1 in (r, (x.0, v));
}

abbrev pub finished_turn : TurnEnd → Bool
finished_turn (gives_up status) = false
finished_turn (goes_on r) = is_finished r

abbrev pub finished_start : StartEnd → Bool
finished_start (started sid r) = is_finished r
finished_start http_status_error = true
finished_start other_error = true

-- The last thing that passed is a cancel, a response that finishes, or a start that did not give the
-- client a session.
abbrev pub is_ended : List Event → Bool
is_ended [] = true
is_ended (cancelled sid ∷ log) = true
is_ended (interact_reply r ∷ log) = finished_turn (answered r)
is_ended (start_reply r ∷ log) = finished_start (start_end r)

abbrev pub TurnFits : TurnEnd → List Event → Type 0
TurnFits (gives_up status) log = is_client_error status ≡ true
TurnFits (goes_on r) log = is_ended log ≡ is_finished r

pub answered_status :
    (r : Reply (Option InteractResponse)) (status : SampleStatus)
    → answered r ≡ gives_up status
    → is_client_error status ≡ true
answered_status lost status e = ground (arith, e)
answered_status refused status e = ground (arith, e)
answered_status (replied none) status e = ground (arith, e)
answered_status (replied (some r)) status e = ground (arith, e)

pub answered-TurnFits :
    (r : Reply (Option InteractResponse)) (e : TurnEnd) (log : List Event)
    → answered r ≡ e
    → TurnFits e (interact_reply r ∷ log)
answered-TurnFits r (gives_up status) log f = answered_status r status f
answered-TurnFits r (goes_on q) log f = ap finished_turn f
