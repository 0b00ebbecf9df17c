-- ===== src/Worker/Session.antt =====
-- worker/src/agentrl/worker/task.py: SessionController and Session, the hand-over of histories and
-- answers between the task's coroutine and the request that waits for it. Each function is what
-- runs between two awaits; `none` is a coroutine that waits for a lock or a semaphore.
pub mod Protocol
pub mod Delivery
mod Tests
use agent_rl.Common.{
  ℕ, ◌+◌, ◌-◌, Bool, true, false, Option, none, some, List, [], ◌∷◌, ◌++◌, map, String, length,
  ◌==◌, if◌then◌else◌,
}
use agent_rl.Common.Int.{ℤ}

pub data SampleStatus : Type 0 where
  running completed agent_context_limit agent_validation_failed agent_invalid_action : SampleStatus
  task_limit_reached unknown task_error cancelled : SampleStatus

pub data SampleIndex : Type 0 where
  number : ℤ → SampleIndex
  name : String → SampleIndex

-- The reward is only passed on; an integer stands for the float.
pub record RewardHistoryItem : Type 0 where
  pub reward : ℤ
  pub metrics : String

-- A chat message (its JSON text) or a reward.
pub data HistoryItem : Type 0 where
  chat : String → HistoryItem
  rewarded : RewardHistoryItem → HistoryItem

pub data AgentOutput : Type 0 where
  normal : List String → AgentOutput
  cancel : AgentOutput

pub record TaskOutput : Type 0 where
  pub index : Option SampleIndex
  pub status : SampleStatus
  pub result : Option String
  pub history : List HistoryItem
  pub history_ptr : ℕ

abbrev pub new_output : TaskOutput
new_output = record { index = none; status = running; result = none; history = []; history_ptr = 0 }

pub record SessionController : Type 0 where
  pub agent_lock : Bool
  pub env_lock : Bool
  pub agent_signal : ℕ
  pub env_signal : ℕ
  pub env_input : Option AgentOutput
  pub env_output : TaskOutput
  pub full_history : Bool

abbrev pub new_controller : SessionController
new_controller = record {
  agent_lock = false;
  env_lock = false;
  agent_signal = 0;
  env_signal = 0;
  env_input = none;
  env_output = new_output;
  full_history = false;
}

-- `agent_pull` up to the wait for the task's signal
unfoldable pub agent_send : Option AgentOutput → SessionController → Option SessionController
agent_send input c = if c.agent_lock then none else elim input [
  | none ↦ some (record c { agent_lock = true })
  | some o ↦
      some (record c { agent_lock = true; env_input = some o; env_signal = c.env_signal + 1 })
]

-- the rest of `agent_pull`
unfoldable pub agent_receive : SessionController → Option (TaskOutput × SessionController)
agent_receive c =
    if c.agent_signal == 0
    then none
    else some (c.env_output, record c { agent_lock = false; agent_signal = c.agent_signal - 1 })

-- `env_pull` up to the wait for the agent's signal
unfoldable pub env_send : List HistoryItem → SessionController → Option SessionController
env_send history c =
    if c.env_lock
    then none
    else some (record c {
      env_lock = true;
      env_output = record c.env_output {
        history_ptr = if c.full_history then 0 else length c.env_output.history;
        history = history;
      };
      agent_signal = c.agent_signal + 1;
    })

-- the rest of `env_pull`
unfoldable pub env_receive : SessionController → Option (Option AgentOutput × SessionController)
env_receive c =
    if c.env_signal == 0
    then none
    else some (c.env_input, record c { env_lock = false; env_signal = c.env_signal - 1 })

unfoldable pub env_finish : TaskOutput → SessionController → Option SessionController
env_finish result c =
    if c.env_lock
    then none
    else some (record c {
      env_output = record result {
        history_ptr = if c.full_history then 0 else length c.env_output.history;
      };
      agent_signal = c.agent_signal + 1;
    })

pub record Session : Type 0 where
  pub id : ℕ
  pub history : List HistoryItem
  pub controller : SessionController

abbrev pub new_session : ℕ → Session
new_session id = record { id = id; history = []; controller = new_controller }

-- What a task hands to `inject`: nothing (a false value), an item, one that does not validate, or a
-- list of such.
mutual
  pub data Injection : Type 0 where
    nothing : Injection
    one : HistoryItem → Injection
    invalid : Injection
    many : Injections → Injection

  pub data Injections : Type 0 where
    nil : Injections
    cons : Injection → Injections → Injections

-- The history after `inject`, and whether it went through; an invalid item raises, with the items
-- before it already in the history.
unfoldable mutual
  pub inject : Injection → List HistoryItem → Bool × List HistoryItem
  inject nothing h = (true, h)
  inject (one item) h = (true, h ++ item ∷ [])
  inject invalid h = (false, h)
  inject (many items) h = inject_all items h

  pub inject_all : Injections → List HistoryItem → Bool × List HistoryItem
  inject_all nil h = (true, h)
  inject_all (cons x xs) h =
      let (done, h') = inject x h in
      let rest = inject_all xs h' in if done then rest else (false, h')

-- `action` up to the wait in `env_pull`, once `inject` has gone through
unfoldable pub action_begin : Session → Option Session
unfolding env_send
action_begin s = elim (env_send s.history s.controller) [
  | none ↦ none
  | some c ↦ some (record s { controller = c })
]

-- What `action` does with the agent's answer: raise AgentCancelledException, or take its messages.
pub data Action : Type 0 where
  raises_cancelled : Session → Action
  answered : Session → Action

unfoldable pub take_answer : AgentOutput → Session → Action
take_answer cancel s = raises_cancelled s
take_answer (normal messages) s =
    let h = s.history ++ map chat messages in
    answered (record s {
      history = h;
      controller = record s.controller {
        env_output = record s.controller.env_output { history = h };
      };
    })

-- The rest of `action`; `none` waits. (No input would be an attribute error: see Protocol.)
unfoldable pub action_end : Session → Option Action
unfolding env_receive take_answer
action_end s = elim (env_receive s.controller) [
  | none ↦ none
  | some (input, c) ↦ elim input [
    | none ↦ none
    | some o ↦ some (take_answer o (record s { controller = c }))
  ]
]
