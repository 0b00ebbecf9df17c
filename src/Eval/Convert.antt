-- ===== src/Eval/Convert.antt =====
-- eval/src/agentrl/eval/convert/: messages and tools in the formats of chat completions, of responses
-- and of Anthropic messages, and the conversions between them. What a key of a message would have to
-- hold is a field; a missing text, URL, list or name is an empty one, as the code tests them for truth.
pub mod DataUrl
pub mod Tools
pub mod Response
pub mod Anthropic
pub mod Records
use agent_rl.Common.{Bool, true, false, Option, List, String}
use agent_rl.Eval.Types.{Role}

-- A text as a truth value, negated
abbrev pub is_empty : String → Bool
is_empty String.[] = true
is_empty (String.◌∷◌ c s) = false

-- A part of a chat completion message.
pub data ChatPart : Type 0 where
  text : String → ChatPart
  image_url : (url : String) → (detail : Option String) → ChatPart
  -- of another type
  other : ChatPart

pub data ChatContent : Type 0 where
  plain : String → ChatContent
  parts : List ChatPart → ChatContent
  -- None
  missing : ChatContent

-- A call of a function; its arguments are a JSON text.
pub record ToolCall : Type 0 where
  pub id : Option String
  pub name : Option String
  pub arguments : Option String

-- A message of a chat completion; `tool_call_id` is read of tool messages alone.
pub record ChatInput : Type 0 where
  pub role : Role
  pub content : ChatContent
  pub tool_call_id : String
  pub tool_calls : List ToolCall
