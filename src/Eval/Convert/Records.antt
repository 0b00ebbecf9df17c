-- ===== src/Eval/Convert/Records.antt =====
-- eval/src/agentrl/eval/convert/messages.py, the records and what each converts to, and
-- eval/src/agentrl/eval/convert/_base.py, the conversion of a list of them. A record of what a model
-- put out converts as the record of its dump, which it is given with.
pub mod Lists
mod Tests
use agent_rl.Common.{Bool, Option, List, [], ◌∷◌, ◌++◌, map, String, if◌then◌else◌}
use agent_rl.Eval.Types.{Role}
use agent_rl.Eval.Convert.{text, ChatContent, ChatInput}
use agent_rl.Eval.Convert.Response.{
  ResponseItem, ResponseContent, message, input_text, to_response_input,
}
use agent_rl.Eval.Convert.Response
use agent_rl.Eval.Convert.Anthropic.{
  AnthropicMessage, Converted, ok, conversion_error, raises, ◌>>=◌, to_anthropic_message_input,
  to_anthropic_message_system,
}
use agent_rl.Eval.Convert.Anthropic

pub data MessageRecord (J : Type 0) : Type 0 where
  chat_input : List ChatInput → MessageRecord J
  chat_output : List ChatInput → MessageRecord J
  response_input : List ResponseItem → MessageRecord J
  response_output : List ResponseItem → MessageRecord J
  anthropic_input : AnthropicMessage J → MessageRecord J
  anthropic_output : AnthropicMessage J → MessageRecord J
  anthropic_system : List String → MessageRecord J

module _ {J : Type 0} (dumps : J → String) where
  unfoldable pub record_to_chat : MessageRecord J → Converted (List ChatInput)
  record_to_chat (chat_input ms) = ok ms
  record_to_chat (chat_output ms) = ok ms
  record_to_chat (response_input is) = ok (Response.to_chat_completion_input is)
  record_to_chat (response_output is) = ok (Response.to_chat_completion_input is)
  record_to_chat (anthropic_input a) = ok (Anthropic.to_chat_completion_input dumps a)
  record_to_chat (anthropic_output a) = ok (Anthropic.to_chat_completion_input dumps a)
  record_to_chat (anthropic_system ts) = ok (
      record {
        role = Role.system;
        content = ChatContent.parts (map text ts);
        tool_call_id = "";
        tool_calls = [];
      }
      ∷ [])

module _ {J : Type 0} (loads : String → Option J) where
  unfoldable pub record_to_anthropic : MessageRecord J → Converted (AnthropicMessage J)
  record_to_anthropic (chat_input ms) = to_anthropic_message_input loads ms
  record_to_anthropic (chat_output ms) = to_anthropic_message_input loads ms
  record_to_anthropic (response_input is) = raises
  record_to_anthropic (response_output is) = raises
  record_to_anthropic (anthropic_input a) = ok a
  record_to_anthropic (anthropic_output a) = ok a
  record_to_anthropic (anthropic_system ts) = conversion_error

module _ {J : Type 0} where
  -- NotImplementedError is an exception of another kind.
  unfoldable pub record_to_response : MessageRecord J → Converted (List ResponseItem)
  record_to_response (chat_input ms) = ok (to_response_input ms)
  record_to_response (chat_output ms) = ok (to_response_input ms)
  record_to_response (response_input is) = ok is
  record_to_response (response_output is) = ok is
  record_to_response (anthropic_input a) = raises
  record_to_response (anthropic_output a) = raises
  record_to_response (anthropic_system ts) =
      ok (message Role.system (ResponseContent.parts (map input_text ts)) ∷ [])

  unfoldable pub record_to_system : MessageRecord J → Converted (List String)
  record_to_system (chat_input ms) = to_anthropic_message_system ms
  record_to_system (chat_output ms) = to_anthropic_message_system ms
  record_to_system (response_input is) = raises
  record_to_system (response_output is) = raises
  record_to_system (anthropic_input a) = conversion_error
  record_to_system (anthropic_output a) = conversion_error
  record_to_system (anthropic_system ts) = ok ts

-- What a conversion gives: a list, which is flattened, or one thing
abbrev pub one : {B : Type 0} → Converted B → Converted (List B)
one c = c >>= λ b. ok (b ∷ [])

-- `convert_all`, of conversions that give lists
unfoldable pub convert_all :
    {A B : Type 0} → (A → Converted (List B)) → Bool → List A → Converted (List B)
convert_all convert ignore_errors [] = ok []
convert_all convert ignore_errors (a ∷ rest_of) =
    let rest = convert_all convert ignore_errors rest_of in
    elim (convert a) [
      | ok bs ↦ (rest >>= λ cs. ok (bs ++ cs))
      | conversion_error ↦ if ignore_errors then rest else conversion_error
      | raises ↦ raises
    ]

-- `dump_all`, of dumps that are lists
unfoldable pub dump_all : {A B : Type 0} → (A → List B) → List A → List B
dump_all dump [] = []
dump_all dump (a ∷ rest_of) = dump a ++ dump_all dump rest_of
