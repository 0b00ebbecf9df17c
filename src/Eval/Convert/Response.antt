-- ===== src/Eval/Convert/Response.antt =====
-- eval/src/agentrl/eval/convert/messages.py: from chat completions to responses and back.
pub mod RoundTrip
mod Tests
use agent_rl.Common.{
  Bool, Option, none, some, List, [], ◌∷◌, ◌++◌, map, String, string_eq, beq, if◌then◌else◌,
}
use agent_rl.Eval.Types.{Role}
use agent_rl.Eval.Convert.{
  is_empty, ChatPart, text, image_url, ChatContent, missing, ToolCall, ChatInput,
}

-- A part of a response item, of a type `input_...` or `output_...`
pub data ResponsePart : Type 0 where
  input_text : String → ResponsePart
  output_text : String → ResponsePart
  input_image : (image_url : String) → (detail : Option String) → ResponsePart
  output_image : (image_url : String) → (detail : Option String) → ResponsePart

pub data ResponseContent : Type 0 where
  plain : String → ResponseContent
  parts : List ResponsePart → ResponseContent

pub data ResponseItem : Type 0 where
  message : Role → ResponseContent → ResponseItem
  call_output : (call_id : String) → ResponseContent → ResponseItem
  function_call : (call_id : Option String) → (name arguments : String) → ResponseItem
  -- of another type, such as reasoning
  other : ResponseItem

-- `d.get('detail', 'auto')`
abbrev pub or_auto : Option String → Option String
or_auto none = some "auto"
or_auto (some d) = some d

-- The parts that a list of chat parts becomes; what has no text or URL, or another type, is left out.
unfoldable pub input_parts : List ChatPart → List ResponsePart
input_parts [] = []
input_parts (text t ∷ rest) =
    let later = input_parts rest in if is_empty t then later else input_text t ∷ later
input_parts (image_url u d ∷ rest) =
    let later = input_parts rest in if is_empty u then later else input_image u (or_auto d) ∷ later
input_parts (ChatPart.other ∷ rest) = input_parts rest

unfoldable pub input_content : ChatContent → List ResponsePart
input_content (ChatContent.plain t) = input_text t ∷ []
input_content (ChatContent.parts ps) = input_parts ps
input_content missing = []

-- `part['type'].replace('input_', 'output_')`
abbrev pub as_output : ResponsePart → ResponsePart
as_output (input_text t) = output_text t
as_output (input_image u d) = output_image u d
as_output (output_text t) = output_text t
as_output (output_image u d) = output_image u d

abbrev pub parts_for : Role → List ResponsePart → List ResponsePart
parts_for Role.assistant ps = map as_output ps
parts_for _ ps = ps

abbrev pub or_empty : Option String → String
or_empty none = ""
or_empty (some s) = s

-- `get('arguments') or '{}'`
abbrev pub or_braces : Option String → String
or_braces none = "{}"
or_braces (some s) = if is_empty s then "{}" else s

abbrev pub call_item : ToolCall → ResponseItem
call_item c = function_call c.id (or_empty c.name) (or_braces c.arguments)

unfoldable pub message_items : ChatInput → List ResponseItem
message_items m =
    let ps = parts_for m.role (input_content m.content) in
    let as_message = message m.role (parts ps) ∷ map call_item m.tool_calls in
    elim m.role [
      | Role.tool ↦ call_output m.tool_call_id (parts ps) ∷ []
      | Role.system ↦ as_message
      | Role.developer ↦ as_message
      | Role.assistant ↦ as_message
      | Role.user ↦ as_message
    ]

-- `OpenAIChatCompletionInputMessageRecord.to_openai_response_input`
unfoldable pub to_response_input : List ChatInput → List ResponseItem
to_response_input [] = []
to_response_input (m ∷ ms) = message_items m ++ to_response_input ms

-- The chat part that is read of a part, if any: `input_text` whatever its text, `output_text` with a
-- text, and `input_image` with a URL.
unfoldable pub chat_parts : List ResponsePart → List ChatPart
chat_parts [] = []
chat_parts (input_text t ∷ rest) = text t ∷ chat_parts rest
chat_parts (output_text t ∷ rest) =
    let later = chat_parts rest in if is_empty t then later else text t ∷ later
chat_parts (input_image u d ∷ rest) =
    let later = chat_parts rest in if is_empty u then later else image_url u (or_auto d) ∷ later
chat_parts (output_image u d ∷ rest) = chat_parts rest

-- One text alone is a plain text.
abbrev pub flattened : List ChatPart → ChatContent
flattened (text t ∷ []) = ChatContent.plain t
flattened ps = ChatContent.parts ps

unfoldable pub chat_content : ResponseContent → ChatContent
chat_content (ResponseContent.plain t) = ChatContent.plain t
chat_content (ResponseContent.parts ps) = flattened (chat_parts ps)

-- The messages so far, and the calls that no message has yet.
pub record Pending : Type 0 where
  pub result : List ChatInput
  pub tool_calls : List ToolCall

unfoldable pub read_item : ResponseItem → Pending → Pending
read_item (message role content) p = record {
  result =
      p.result
      ++ record {
        role = role;
        content = chat_content content;
        tool_call_id = "";
        tool_calls = p.tool_calls;
      }
        ∷ [];
  tool_calls = [];
}
read_item (call_output call_id content) p = record p {
  result =
      p.result
      ++ record {
        role = Role.tool;
        content = chat_content content;
        tool_call_id = call_id;
        tool_calls = [];
      }
        ∷ [];
}
read_item (function_call call_id name arguments) p = record p {
  tool_calls =
      p.tool_calls ++ record { id = call_id; name = some name; arguments = some arguments } ∷ [];
}
read_item ResponseItem.other p = p

unfoldable pub read_items : List ResponseItem → Pending → Pending
read_items [] p = p
read_items (i ∷ is) p = read_items is (read_item i p)

-- The last message with the calls, or a message of the assistant for them
abbrev pub bare_call : List ToolCall → ChatInput
bare_call calls = record {
  role = Role.assistant;
  content = ChatContent.plain "";
  tool_call_id = "";
  tool_calls = calls;
}

abbrev pub close_with : List ToolCall → ChatInput → List ChatInput
close_with calls m = elim m.role [
  | Role.tool ↦ m ∷ bare_call calls ∷ []
  | Role.system ↦ record m { tool_calls = calls } ∷ []
  | Role.developer ↦ record m { tool_calls = calls } ∷ []
  | Role.assistant ↦ record m { tool_calls = calls } ∷ []
  | Role.user ↦ record m { tool_calls = calls } ∷ []
]

unfoldable pub update_last : List ToolCall → List ChatInput → List ChatInput
update_last calls [] = bare_call calls ∷ []
update_last calls (m ∷ []) = close_with calls m
update_last calls (m ∷ n ∷ ms) = m ∷ update_last calls (n ∷ ms)

-- `if pending: ...`
abbrev pub closed : Pending → List ChatInput
closed p = elim p.tool_calls [ [] ↦ p.result | c ∷ cs ↦ update_last (c ∷ cs) p.result ]

-- `OpenAIResponseInputMessageRecord.to_openai_chat_completion_input`
unfoldable pub to_chat_completion_input : List ResponseItem → List ChatInput
to_chat_completion_input items = closed (read_items items (record { result = []; tool_calls = [] }))
