-- ===== src/Worker/TaskWorker.antt =====
-- worker/src/agentrl/worker/task_worker.py: the requests of the worker and its map of running
-- samples. Handlers are cut at their awaits; each part returns the worker after it.

pub mod Sessions
pub mod Responses
mod Tests
use agent_rl.Common.{
  nat_eq, ℕ, ◌+◌, Bool, true, false, ◌||◌, Option, none, some, List, [], ◌∷◌, ◌++◌, map, String,
  length, leb, drop, if◌then◌else◌,
}
use agent_rl.Common.Int.{ℤ, pos}
use agent_rl.Common.Table.{Table, get, has, put, remove}
use agent_rl.Worker.Session.{
  SampleStatus, SampleIndex, HistoryItem, chat, rewarded, RewardHistoryItem, normal, cancel,
  TaskOutput, Session, new_session, agent_send,
}

pub record RunningSampleData : Type 0 where
  pub index : SampleIndex
  pub custom_task : Option String
  pub session : Session
  pub cancelling : Bool

pub record TaskWorker : Type 0 where
  pub session_map : Table ℕ RunningSampleData
  pub concurrency : ℕ
  pub full_async : Bool
  -- the sessions that `/cancel_notice` was called for; nothing waits for a call, or sees it fail
  pub notices : List ℕ

-- A handler returns, or raises HTTPException with this status, or fails with another exception.
pub data Reply (A : Type 0) : Type 0 where
  ok : A → Reply A
  http_error : ℕ → Reply A
  fails : Reply A

-- `split_history`
unfoldable pub split_history : List HistoryItem → List String × List RewardHistoryItem
split_history [] = ([], [])
split_history (chat m ∷ rest) = let (cs, rs) = split_history rest in (m ∷ cs, rs)
split_history (rewarded r ∷ rest) = let (cs, rs) = split_history rest in (cs, r ∷ rs)

pub record ResponseContent : Type 0 where
  pub messages : List String
  pub status : SampleStatus
  pub finish : Bool
  pub reward : ℤ
  pub metric : String

-- reward_history[-1].reward and .metrics, or 0 and {}
unfoldable pub last_reward : List RewardHistoryItem → ℤ × String
last_reward [] = (pos 0, "{}")
last_reward (r ∷ []) = (r.reward, r.metrics)
last_reward (r ∷ q ∷ rest) = last_reward (q ∷ rest)

abbrev pub is_running : SampleStatus → Bool
is_running SampleStatus.running = true
is_running _ = false

abbrev pub not_running : SampleStatus → Bool
not_running s = if is_running s then false else true

-- The content that `start_sample` and `interact` make of what `agent_pull` returned.
unfoldable pub response_content : TaskOutput → ResponseContent
response_content env_output =
    let (history, reward_history) =
      split_history (drop env_output.history_ptr env_output.history) in
    let (reward, metrics) = last_reward reward_history in
    record {
      messages = history;
      status = env_output.status;
      finish = not_running env_output.status;
      reward = reward;
      metric = metrics;
    }

-- `RunningSampleData(...)` around a new `Session`, whose controller `agent_pull` has locked
abbrev pub new_running : ℕ → SampleIndex → Option String → RunningSampleData
new_running sid index custom_task = record {
  index = index;
  custom_task = custom_task;
  session = record (new_session sid) {
    controller = record (new_session sid).controller { agent_lock = true };
  };
  cancelling = false;
}

-- `start_sample` up to its `agent_pull`, which the new session lets through at once
unfoldable pub start_sample : ℕ → SampleIndex → Option String → TaskWorker → Reply TaskWorker
start_sample sid index custom_task w =
    if has sid w.session_map
    then http_error 400
    else if leb w.concurrency (length w.session_map)
    then http_error 406
    else ok (record w { session_map = put sid (new_running sid index custom_task) w.session_map })

-- `interact` up to the wait in `agent_pull`. An AgentOutput without messages does not validate.
unfoldable pub interact_with : List String → RunningSampleData → Reply RunningSampleData
unfolding agent_send
interact_with messages running =
    if running.session.controller.agent_lock || running.cancelling
    then http_error 400
    else elim messages [
      | [] ↦ fails
      | m ∷ ms ↦ elim (agent_send (some (normal (m ∷ ms))) running.session.controller) [
        | none ↦ fails
        | some c ↦ ok (record running { session = record running.session { controller = c } })
      ]
    ]

unfoldable pub interact : ℕ → List String → TaskWorker → Reply TaskWorker
interact sid messages w = elim (get sid w.session_map) [
  | none ↦ http_error 400
  | some running ↦ elim (interact_with messages running) [
    | http_error n ↦ http_error n
    | fails ↦ fails
    | ok r ↦ ok (record w { session_map = put sid r w.session_map })
  ]
]

-- The sample with the flag and the signals of `_cancel`
abbrev pub marked : RunningSampleData → RunningSampleData
marked running = record running {
  cancelling = true;
  session = record running.session {
    controller = record running.session.controller {
      env_input = some cancel;
      env_signal = running.session.controller.env_signal + 1;
    };
  };
}

-- `_cancel` up to `cancel_task`
unfoldable pub cancel_begin : ℕ → TaskWorker → Reply TaskWorker
cancel_begin sid w = elim (get sid w.session_map) [
  | none ↦ http_error 400
  | some running ↦ ok (record w { session_map = put sid (marked running) w.session_map })
]

-- How the coroutine of the task came to its end.
pub data TaskEnd : Type 0 where
  returned : SampleStatus → Option String → TaskEnd
  -- a false result, for which the wrapper itself raises ValueError
  returned_nothing : (traceback : String) → TaskEnd
  raised : (traceback : String) → TaskEnd
  -- asyncio's CancelledError
  task_cancelled : TaskEnd
  -- AgentCancelledException, a BaseException that is no Exception
  agent_cancelled : TaskEnd

-- `cancel_task`: a fully asynchronous task is cancelled and not waited for; of any other the end is
-- awaited, and an exception that is neither CancelledError nor TimeoutError passes through. The
-- wrapper lets nothing but AgentCancelledException out (`wrapper_end`). A fully asynchronous task still
-- runs after this, with no entry in the map, and its end is a later `wrapper_end`.
unfoldable pub cancel_end : ℕ → Bool → TaskEnd → TaskWorker → Reply TaskWorker
cancel_end sid with_notice end w =
    let done = record w {
      session_map = remove sid w.session_map;
      notices = if with_notice then w.notices ++ sid ∷ [] else w.notices;
    } in
    if w.full_async then ok done else elim end [ agent_cancelled ↦ fails | _ ↦ ok done ]

-- `task_start_sample_wrapper`, from the end of the task to `env_finish`: the output that it hands
-- over, where it gets there, and the worker.
unfoldable pub wrapper_end :
    ℕ → SampleIndex → List HistoryItem → TaskEnd → TaskWorker → Option TaskOutput × TaskWorker
wrapper_end sid index history end w =
    let popped = record w { session_map = remove sid w.session_map } in
    let output = λ (status : SampleStatus) (result : Option String). some (record {
      index = some index;
      status = status;
      result = result;
      history = history;
      history_ptr = 0;
    }) in
    elim end [
      | returned status result ↦ (output status result, popped)
      | returned_nothing traceback ↦ (output SampleStatus.task_error (some traceback), popped)
      | raised traceback ↦ (output SampleStatus.task_error (some traceback), popped)
      | task_cancelled ↦ (output SampleStatus.cancelled none, popped)
      | agent_cancelled ↦ (none, w)
    ]

-- `worker_status`
abbrev pub worker_status : TaskWorker → ℕ × ℕ
worker_status w = (w.concurrency, length w.session_map)

-- `sample_status`: the index and the locks (`get_status`)
unfoldable pub sample_status : ℕ → TaskWorker → Reply (SampleIndex × Bool × Bool)
sample_status sid w = elim (get sid w.session_map) [
  | none ↦ http_error 400
  | some running ↦
      ok (running.index, running.session.controller.agent_lock, running.session.controller.env_lock)
]

-- `get_sessions`
unfoldable pub get_sessions : TaskWorker → List (ℕ × SampleIndex)
get_sessions w = map (λ r. (r.0, r.1.index)) w.session_map
