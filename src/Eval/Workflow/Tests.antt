-- ===== src/Eval/Workflow/Tests.antt =====
-- A server that goes on once and then finishes, a model that says one thing.
use agent_rl.Common.{
  ℕ, zero, suc, ◌+◌, ◌<◌, ◌≡◌, refl, true, false, none, some, List, [], ◌∷◌, arith, Option,
}
use agent_rl.Common.Int.{pos}
use agent_rl.Eval.Types.{
  SampleStatus, Role, ChatMessage, InteractResponse, is_finished, MessageRecord, input, model,
  RunResult, messages_not_empty,
}
use agent_rl.Eval.Workflow.{
  Http, replied, refused, start_sample, start_tries, evaluate, run, run_started, interactions, ask,
  set_messages, settle, slice_message, slice_all, goes_on, answered,
}
use agent_rl.Eval.Workflow.Slices.{contents, after, set_messages-after}
use agent_rl.Eval.Workflow.Log.{
  logged, is_ended, Event, start_reply, interact_reply, start_tries_once,
}
use agent_rl.Eval.Workflow.Settled.{evaluate-ended}
use agent_rl.Eval.Workflow.Fuel.{IsLimited, evaluate_returns}

abbrev asked : ChatMessage
asked = record { role = Role.user; content = "question" }

abbrev open_response : InteractResponse
open_response = record {
  finish = some false;
  reward = none;
  status = some SampleStatus.running;
  messages = some (asked ∷ []);
  tools = [];
  metrics = none;
  result = none;
}

abbrev last_response : InteractResponse
last_response = record open_response {
  finish = some true;
  reward = some (pos 1);
  status = some SampleStatus.completed;
}

-- The world is the number of responses that go on.
abbrev server : Http ℕ
server = record {
  post_start = λ w. (replied (4, some open_response), w);
  post_interact = λ sid ms w. elim w [
    | zero ↦ (replied (some last_response), 0)
    | suc k ↦ (replied (some open_response), k)
  ];
  post_cancel = λ sid w. w;
  query = λ ms tools w. (some (model "answer" ∷ []), w);
  on_started = λ sid w. (true, w);
}

abbrev trace : List MessageRecord
trace = input (asked ∷ []) ∷ model "answer" ∷ input (asked ∷ []) ∷ []

abbrev result : RunResult
result = record {
  session_id = some 4;
  status = SampleStatus.completed;
  reward = some (pos 1);
  score = none;
  metrics = none;
  result = none;
  task_trace = none;
  raw_trace = trace;
}

abbrev events : List Event
events =
    interact_reply (replied (some last_response))
    ∷ start_reply (replied (4, some open_response))
    ∷ []

one_turn : evaluate 3 false (logged server) ([], 0) ≡ some (result, (events, 0))
unfolding evaluate run run_started start_tries start_sample interactions ask set_messages slice_all
    slice_message settle messages_not_empty
one_turn = refl

evaluate-ended_example : is_ended events ≡ true
evaluate-ended_example = evaluate-ended server 3 false 0 0 result events one_turn

server-lowers :
    (sid : ℕ) (ms : List MessageRecord) (w : ℕ) (r : InteractResponse)
    → answered (server.post_interact sid ms w).0 ≡ goes_on r
    → is_finished r ≡ false
    → (server.post_interact sid ms w).1 < w
unfolding messages_not_empty
server-lowers sid ms zero r e f = ground (arith, e, f)
server-lowers sid ms (suc k) r e f = omega arith

server-IsLimited : IsLimited server (λ w. w)
server-IsLimited = record {
  lowers = server-lowers;
  queries = λ ms tools w. omega arith;
  starts = λ w. omega arith;
  starting = λ sid w. omega arith;
}

evaluate_returns_example : (r : RunResult) × (v : ℕ) × (evaluate 9 false server 5 ≡ some (r, v))
evaluate_returns_example = evaluate_returns server (λ w. w) 9 false 5 server-IsLimited (omega arith)

abbrev down : Http ℕ
down = record server { post_start = λ w. (refused, w + 1) }

start_tries_once_example : start_tries 10 down 0 ≡ start_sample down 0
start_tries_once_example = start_tries_once 9 down 0

set_messages-after_example :
    (contents (set_messages (asked ∷ asked ∷ []) trace).0
      ≡ after (asked ∷ asked ∷ []) (contents trace))
    × (contents (set_messages (asked ∷ asked ∷ []) trace).1 ≡ after (asked ∷ asked ∷ []) [])
set_messages-after_example = set_messages-after (asked ∷ asked ∷ []) trace

-- A response that finishes and has no messages is valid, but the loop raises on it, and the sample
-- ends as a WORKFLOW_ERROR.
abbrev silent : InteractResponse
silent = record last_response { messages = none }

abbrev outcome : Option (RunResult × ℕ) → Option SampleStatus
outcome none = none
outcome (some (r, w)) = some r.status

finish_without_messages :
    outcome (evaluate 3 false (record server { post_start = λ w. (replied (4, some silent), w) }) 0)
    ≡ some SampleStatus.workflow_error
unfolding evaluate run run_started start_tries start_sample interactions settle messages_not_empty
finish_without_messages = refl
