-- ===== src/Eval/Workflow.antt =====
-- eval/src/agentrl/eval/session/workflow.py, with the requests of
-- eval/src/agentrl/eval/session/controller.py: one sample from its start to its result. The HTTP
-- server, the model and the callback are an interface over a state of the world.
pub mod Slices
pub mod Log
pub mod Settled
pub mod Fuel
mod Tests
use agent_rl.Common.{
  ℕ, zero, suc, Bool, true, false, Option, none, some, List, [], ◌∷◌, ◌++◌, String, string_eq,
  length, drop, if◌then◌else◌,
}
use agent_rl.Common.Int.{ℤ, pos}
use agent_rl.Common.Table.{Table, get, remove}
use agent_rl.Eval.Types.{
  SampleStatus, is_client_error, Role, ChatMessage, InteractResponse, is_finished,
  messages_not_empty, MessageRecord, input, RunResult,
}

pub record Workflow : Type 0 where
  pub session_id : Option ℕ
  pub messages : List MessageRecord
  pub tools : List String

-- The local variables of `_set_messages`.
pub record Slicing : Type 0 where
  pub history : List MessageRecord
  pub len_before : ℕ
  pub current_slice : List ChatMessage

-- `if current_slice: history.append(...)`
abbrev pub flushed : List MessageRecord → List ChatMessage → List MessageRecord
flushed history [] = history
flushed history (m ∷ ms) = history ++ input (m ∷ ms) ∷ []

-- a new history, which begins with this message
abbrev pub restarted : ChatMessage → Slicing
restarted message = record {
  history = input (message ∷ []) ∷ [];
  len_before = 0;
  current_slice = [];
}

-- a slice of its own
abbrev pub set_apart : ChatMessage → Slicing → Slicing
set_apart message s = record s {
  history = flushed s.history s.current_slice ++ input (message ∷ []) ∷ [];
  current_slice = [];
}

unfoldable pub slice_message : ChatMessage → Slicing → Slicing
slice_message message s = elim message.role [
  | Role.system ↦ restarted message
  | Role.developer ↦ restarted message
  | Role.assistant ↦ set_apart message s
  | Role.tool ↦ set_apart message s
  | Role.user ↦ record s { current_slice = s.current_slice ++ message ∷ [] }
]

unfoldable pub slice_all : List ChatMessage → Slicing → Slicing
slice_all [] s = s
slice_all (m ∷ ms) s = slice_all ms (slice_message m s)

abbrev pub unsliced : List MessageRecord → Slicing
unsliced before = record { history = before; len_before = length before; current_slice = [] }

-- `_set_messages`: the new history, and its part that is new
unfoldable pub set_messages :
    List ChatMessage → List MessageRecord → List MessageRecord × List MessageRecord
set_messages messages before =
    let s = slice_all messages (unsliced before) in
    let history = flushed s.history s.current_slice in (history, drop s.len_before history)

-- `_set_tools`
abbrev pub set_tools : List String → List String → List String
set_tools [] before = before
set_tools (t ∷ ts) before = t ∷ ts

-- What comes back from the server: no answer, a status that is an error, or a body, which is
-- `none` if a field of it does not have its type.
pub data Reply (A : Type 0) : Type 0 where
  lost : Reply A
  refused : Reply A
  replied : A → Reply A

pub record Http (W : Type 0) : Type 0 where
  pub post_start : W → Reply (ℕ × Option InteractResponse) × W
  pub post_interact : ℕ → List MessageRecord → W → Reply (Option InteractResponse) × W
  pub post_cancel : ℕ → W → W
  -- `none` is an exception of the model's client
  pub query : List MessageRecord → List String → W → Option (List MessageRecord) × W
  -- `session_started_callback`, which raises if this is false
  pub on_started : ℕ → W → Bool × W

-- `InteractResponse.model_validate`
abbrev pub validated : Option InteractResponse → Option InteractResponse
validated none = none
validated (some r) = messages_not_empty r

pub data StartEnd : Type 0 where
  started : ℕ → InteractResponse → StartEnd
  http_status_error : StartEnd
  other_error : StartEnd

abbrev pub start_end : Reply (ℕ × Option InteractResponse) → StartEnd
start_end lost = other_error
start_end refused = other_error
start_end (replied (sid, body)) = elim (validated body) [
  | none ↦ other_error
  | some r ↦ started sid r
]

-- `ControllerClient.start_sample`; `_raise_for_status` makes a RuntimeError of an error status.
unfoldable pub start_sample : {W : Type 0} → Http W → W → StartEnd × W
start_sample http w = let (reply, v) = http.post_start w in (start_end reply, v)

-- The tries to start, on the tries left.
unfoldable pub start_tries : {W : Type 0} → ℕ → Http W → W → StartEnd × W
start_tries zero http w = (other_error, w)
start_tries (suc left) http w =
    let (e, v) = start_sample http w in
    let again = start_tries left http v in
    elim e [
      | http_status_error ↦ again
      | other_error ↦ (other_error, v)
      | started sid r ↦ (started sid r, v)
    ]

-- `_client_complete`
abbrev pub client_complete : Workflow → SampleStatus → RunResult
client_complete s status = record {
  session_id = s.session_id;
  status = status;
  reward = none;
  score = none;
  metrics = none;
  result = some "error";
  task_trace = none;
  raw_trace = s.messages;
}

abbrev pub field : String → Option (Table String String) → Option String
field k none = none
field k (some t) = get k t

abbrev pub without_fields : Option (Table String String) → Option (Table String String)
without_fields none = none
without_fields (some t) = some (remove "trace" (remove "score" t))

-- `_run` returns a result, or raises.
pub data RunEnd : Type 0 where
  returned : RunResult → RunEnd
  raised : RunEnd

-- `_server_complete`; a result without a status does not validate.
abbrev pub server_complete : Workflow → InteractResponse → RunEnd
server_complete s response = elim response.status [
  | none ↦ raised
  | some status ↦ returned (record {
    session_id = s.session_id;
    status = status;
    reward = response.reward;
    score = field "score" response.metrics;
    metrics = without_fields response.metrics;
    result = response.result;
    task_trace = field "trace" response.metrics;
    raw_trace = s.messages;
  })
]

pub data TurnEnd : Type 0 where
  goes_on : InteractResponse → TurnEnd
  gives_up : SampleStatus → TurnEnd

-- What `interact` makes of a reply.
abbrev pub answered : Reply (Option InteractResponse) → TurnEnd
answered lost = gives_up SampleStatus.server_error
answered refused = gives_up SampleStatus.server_error
answered (replied body) = elim (validated body) [
  | none ↦ gives_up SampleStatus.server_error
  | some r ↦ goes_on r
]

-- What follows the model's messages; that there are none is an error.
abbrev pub respond :
    {W : Type 0} → Http W → ℕ → Workflow → Option (List MessageRecord) → W → TurnEnd × Workflow × W
respond http sid s none v = (gives_up SampleStatus.model_error, s, v)
respond http sid s (some []) v = (gives_up SampleStatus.model_error, s, v)
respond http sid s (some (m ∷ ms)) v =
    let (reply, u) = http.post_interact sid (m ∷ ms) v in
    (answered reply, record s { messages = s.messages ++ m ∷ ms }, u)

-- The model's messages, and the controller's response to them.
unfoldable pub ask : {W : Type 0} → Http W → ℕ → Workflow → W → TurnEnd × Workflow × W
ask http sid s w = let (said, v) = http.query s.messages s.tools w in respond http sid s said v

-- The workflow with a response's tools and messages.
abbrev pub taken : InteractResponse → List ChatMessage → Workflow → Workflow
taken response ms s = record s {
  tools = set_tools response.tools s.tools;
  messages = (set_messages ms s.messages).0;
}

-- The loop of `_run`, on fuel. Messages that are None are not iterable, which raises.
unfoldable pub interactions :
    {W : Type 0} → ℕ → Http W → ℕ → InteractResponse → Workflow → W → Option (RunEnd × Workflow × W)
interactions zero http sid response s w = none
interactions (suc fuel) http sid response s w = elim response.messages [
  | none ↦ some (raised, record s { tools = set_tools response.tools s.tools }, w)
  | some ms ↦
      let s1 = taken response ms s in
      let (e, s2, v) = ask http sid s1 w in
      let rest = λ (r : InteractResponse). interactions fuel http sid r s2 v in
      elim (is_finished response) [
        | true ↦ some (server_complete s1 response, s1, w)
        | false ↦ elim e [
          | gives_up status ↦ some (returned (client_complete s2 status), s2, v)
          | goes_on r ↦ rest r
        ]
      ]
]

abbrev pub fresh_workflow : Workflow
fresh_workflow = record { session_id = none; messages = []; tools = [] }

abbrev pub opened : ℕ → Workflow
opened sid = record { session_id = some sid; messages = []; tools = [] }

-- `cancel`
abbrev pub cancel : {W : Type 0} → Http W → Workflow → W → Workflow × W
cancel http s w = elim s.session_id [
  | none ↦ (s, w)
  | some sid ↦ (record s { session_id = none }, http.post_cancel sid w)
]

-- The session that is only started: the response as if it had completed.
abbrev pub stub : InteractResponse → InteractResponse
stub response = record response {
  finish = some true;
  status = some SampleStatus.completed;
  reward = some (pos 1);
}

-- `_run`, once the sample has started
unfoldable pub run_started :
    {W : Type 0} → ℕ → Bool → Http W → ℕ → InteractResponse → W → Option (RunEnd × Workflow × W)
run_started fuel start_only http sid response w =
    let (went_on, v) = http.on_started sid w in
    let loop = interactions fuel http sid response (opened sid) v in
    let (s, u) = cancel http (opened sid) v in
    if went_on
    then if start_only then some (server_complete s (stub response), s, u) else loop
    else some (raised, opened sid, v)

unfoldable pub run : {W : Type 0} → ℕ → Bool → Http W → W → Option (RunEnd × Workflow × W)
run fuel start_only http w =
    let (e, v) = start_tries 10 http w in
    let failed =
      some
        (returned (client_complete fresh_workflow SampleStatus.server_error), fresh_workflow, v) in
    elim e [
      | started sid response ↦ run_started fuel start_only http sid response v
      | http_status_error ↦ failed
      | other_error ↦ failed
    ]

abbrev pub result_of : RunEnd → Workflow → RunResult
result_of (returned r) s = r
result_of raised s = client_complete s SampleStatus.workflow_error

-- The end of `__call__`: an exception is a WORKFLOW_ERROR, and a client error cancels the session.
unfoldable pub settle : {W : Type 0} → Http W → RunEnd → Workflow → W → RunResult × W
settle http end s w =
    let result = result_of end s in
    if is_client_error result.status then (result, (cancel http s w).1) else (result, w)

-- `__call__`
unfoldable pub evaluate : {W : Type 0} → ℕ → Bool → Http W → W → Option (RunResult × W)
evaluate fuel start_only http w = elim (run fuel start_only http w) [
  | none ↦ none
  | some (end, s, v) ↦ some (settle http end s v)
]
