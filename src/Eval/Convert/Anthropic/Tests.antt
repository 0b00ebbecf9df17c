-- ===== src/Eval/Convert/Anthropic/Tests.antt =====
-- An answer with an image and a call, the reply to it, and a prompt.
use agent_rl.Common.{
  ◌≡◌, refl, Bool, true, false, Option, none, some, [], ◌∷◌, String, string_eq, beq, if◌then◌else◌,
}
use agent_rl.Eval.Types.{Role}
use agent_rl.Eval.Convert.{is_empty, ChatContent}
use agent_rl.Eval.Convert.Anthropic.{
  base64, shown_text, shown_image, tool_result, user, ok, results_of, parts_of, calls_of,
  to_anthropic_message_input, to_chat_completion_input,
}
use agent_rl.Eval.Convert.Anthropic.Blocks.{Turn, says, message_of}
use agent_rl.Eval.Convert.Anthropic.RoundTrip.{to_anthropic-to_chat}

abbrev dumps : Bool → String
dumps true = "true"
dumps false = "false"

abbrev loads : String → Option Bool
loads s = if beq s "true" then some true else if beq s "false" then some false else none

loads-dumps : (b : Bool) → loads (dumps b) ≡ some b
loads-dumps true = refl
loads-dumps false = refl

dumps-filled : (b : Bool) → is_empty (dumps b) ≡ false
dumps-filled true = refl
dumps-filled false = refl

abbrev shows_and_calls : Turn Bool
shows_and_calls =
    says (shown_text "Look:" ∷ shown_image (base64 "image/png" "iVBOR") ∷ [])
      (record { id = some "c1"; name = some "zoom"; input = true } ∷ [])

to_anthropic-to_chat_example :
    to_anthropic_message_input loads (to_chat_completion_input dumps (message_of shows_and_calls))
    ≡ ok (message_of shows_and_calls)
to_anthropic-to_chat_example =
    to_anthropic-to_chat loads dumps loads-dumps dumps-filled shows_and_calls (refl, (refl, tt))
      (λ e. cc e)

-- A user's message that only answers a call is given an empty message after it.
empty_follows :
    to_chat_completion_input dumps
      (record { role = user; content = tool_result "c1" (shown_text "done" ∷ []) ∷ [] })
    ≡ record {
      role = Role.tool;
      content = ChatContent.plain "done";
      tool_call_id = "c1";
      tool_calls = [];
    }
      ∷ record {
        role = Role.user;
        content = ChatContent.parts [];
        tool_call_id = "";
        tool_calls = [];
      }
      ∷ []
unfolding to_chat_completion_input results_of parts_of calls_of
empty_follows = refl
