-- ===== src/Eval/Convert/Response/Tests.antt =====
-- A question with an image, an answer, and a call of a tool.
use agent_rl.Common.{◌≡◌, refl, none, some, [], ◌∷◌, ◌++◌, map}
use agent_rl.Eval.Types.{Role}
use agent_rl.Eval.Convert.{text, image_url, ChatContent, missing, ToolCall, ChatInput}
use agent_rl.Eval.Convert.Response.{
  input_parts, input_content, message_items, to_response_input, chat_parts, chat_content, read_item,
  read_items, update_last, to_chat_completion_input,
}
use agent_rl.Eval.Convert.Response.RoundTrip.{kept_parts, kept_content, normal, to_chat-to_response}

abbrev question : ChatInput
question = record {
  role = Role.user;
  content = ChatContent.parts (text "" ∷ text "What is it?" ∷ image_url "http://i/1.png" none ∷ []);
  tool_call_id = "";
  tool_calls = [];
}

abbrev answer : ChatInput
answer = record {
  role = Role.assistant;
  content = ChatContent.parts (text "A cat" ∷ image_url "http://i/2.png" none ∷ []);
  tool_call_id = "";
  tool_calls = [];
}

abbrev look_up : ToolCall
look_up = record { id = some "c1"; name = some "look_up"; arguments = none }

abbrev asks_tool : ChatInput
asks_tool = record {
  role = Role.assistant;
  content = missing;
  tool_call_id = "";
  tool_calls = look_up ∷ [];
}

to_chat-to_response_example :
    to_chat_completion_input (to_response_input ((question ∷ answer ∷ []) ++ asks_tool ∷ []))
    ≡ map normal ((question ∷ answer ∷ []) ++ asks_tool ∷ [])
to_chat-to_response_example =
    to_chat-to_response (question ∷ answer ∷ []) asks_tool (refl, (refl, tt))

-- The image of the assistant is lost.
image_lost : normal answer ≡ record answer { content = ChatContent.plain "A cat" }
unfolding kept_content kept_parts
image_lost = refl

-- A call is carried over to the message after it.
call_moves :
    map
      (λ (m : ChatInput). m.tool_calls)
      (to_chat_completion_input (to_response_input (asks_tool ∷ question ∷ [])))
    ≡ [] ∷ (record look_up { arguments = some "{}" } ∷ []) ∷ []
unfolding to_chat_completion_input to_response_input message_items input_content input_parts
    read_items read_item chat_content chat_parts update_last
call_moves = refl
