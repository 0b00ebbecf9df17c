-- ===== src/Eval/Convert/Records/Tests.antt =====
-- A record with a prompt, and lists of which one record does not convert.
use agent_rl.Common.{◌≡◌, ◌≢◌, refl, true, false, Option, none, List, [], ◌∷◌, String}
use agent_rl.Eval.Types.{Role}
use agent_rl.Eval.Convert.{ChatContent}
use agent_rl.Eval.Convert.Anthropic.{
  AnthropicMessage, user, shown, shown_text, ok, conversion_error, prompt_texts,
  to_anthropic_message_system,
}
use agent_rl.Eval.Convert.Records.{
  MessageRecord, chat_input, record_to_anthropic, record_to_system, convert_all, anthropic_system,
}
use agent_rl.Eval.Convert.Records.Lists.{system-apart}

abbrev no_json : String → Option String
no_json s = none

abbrev prompt : MessageRecord String
prompt = chat_input (
    record {
      role = Role.developer;
      content = ChatContent.plain "Be brief.";
      tool_call_id = "";
      tool_calls = [];
    }
    ∷ [])

abbrev greeting : AnthropicMessage String
greeting = record { role = user; content = shown (shown_text "Hello") ∷ [] }

prompt_texts_of : record_to_system prompt ≡ ok ("Be brief." ∷ [])
unfolding record_to_system to_anthropic_message_system prompt_texts
prompt_texts_of = refl

system-apart_example : record_to_anthropic no_json prompt ≢ ok greeting
system-apart_example = system-apart no_json prompt ("Be brief." ∷ []) greeting prompt_texts_of

abbrev two_records : List (MessageRecord String)
two_records = anthropic_system ("Be brief." ∷ []) ∷ MessageRecord.anthropic_input greeting ∷ []

-- Errors are left out or passed on as the caller asks.
ignored : convert_all record_to_system true two_records ≡ ok ("Be brief." ∷ [])
unfolding convert_all record_to_system
ignored = refl

passed_on : convert_all record_to_system false two_records ≡ conversion_error
unfolding convert_all record_to_system
passed_on = refl
