-- ===== src/Eval/Types.antt =====
-- eval/src/agentrl/eval/session/types.py: statuses, responses of the controller, and results.
use agent_rl.Common.{Bool, true, false, Option, none, some, List, [], ◌∷◌, String, ℕ}
use agent_rl.Common.Int.{ℤ}
use agent_rl.Common.Table.{Table}

pub data SampleStatus : Type 0 where
  unknown running completed validation_failed invalid_action task_limit_reached : SampleStatus
  task_error cancelled model_error server_error workflow_error : SampleStatus

abbrev pub is_completed : SampleStatus → Bool
is_completed unknown = true
is_completed completed = true
is_completed validation_failed = true
is_completed invalid_action = true
is_completed task_limit_reached = true
is_completed _ = false

abbrev pub is_client_error : SampleStatus → Bool
is_client_error cancelled = true
is_client_error model_error = true
is_client_error server_error = true
is_client_error workflow_error = true
is_client_error _ = false

pub data Role : Type 0 where
  system developer assistant tool user : Role

pub record ChatMessage : Type 0 where
  pub role : Role
  pub content : String

-- A response whose fields have their types; the reward is only passed on.
pub record InteractResponse : Type 0 where
  pub finish : Option Bool
  pub reward : Option ℤ
  pub status : Option SampleStatus
  pub messages : Option (List ChatMessage)
  pub tools : List String
  pub metrics : Option (Table String String)
  pub result : Option String

abbrev pub is_finished : InteractResponse → Bool
is_finished r = elim r.finish [ none ↦ false | some b ↦ b ]

-- `messages_not_empty`: a finished response has a status, any other has messages.
unfoldable pub messages_not_empty : InteractResponse → Option InteractResponse
messages_not_empty r = elim (is_finished r) [
  | true ↦ elim r.status [ none ↦ some (record r { status = some unknown }) | some s ↦ some r ]
  | false ↦ elim r.messages [ none ↦ none | some [] ↦ none | some (m ∷ ms) ↦ some r ]
]

-- Messages as the workflow keeps them: a slice of the environment's, or a record of a model's.
pub data MessageRecord : Type 0 where
  input : List ChatMessage → MessageRecord
  model : String → MessageRecord

pub record RunResult : Type 0 where
  pub session_id : Option ℕ
  pub status : SampleStatus
  pub reward : Option ℤ
  pub score : Option String
  pub metrics : Option (Table String String)
  pub result : Option String
  pub task_trace : Option String
  pub raw_trace : List MessageRecord
