-- ===== src/Eval/Convert/Response/RoundTrip.antt =====
-- Messages that were converted for responses and back.
use agent_rl.Common.{
  ◌≡◌, refl, sym, ap, ◌∙◌, some, List, [], ◌∷◌, ◌++◌, map, String, string_eq, if◌then◌else◌,
  append_assoc, append-nil, All, arith,
}
use mathlib.Core.List.{map-append}
use agent_rl.Eval.Types.{Role}
use agent_rl.Eval.Convert.{
  is_empty, ChatPart, text, image_url, ChatContent, missing, ToolCall, ChatInput,
}
use agent_rl.Eval.Convert.Response.{
  ResponseContent, ResponseItem, or_auto, or_empty, or_braces, input_parts, input_content,
  parts_for, call_item, message_items, to_response_input, chat_parts, flattened, chat_content,
  Pending, read_item, read_items, close_with, update_last, closed, to_chat_completion_input,
}

-- What is kept of parts: texts and, unless the assistant shows them, images that are not empty.
unfoldable pub kept_parts : Role → List ChatPart → List ChatPart
kept_parts role [] = []
kept_parts role (text t ∷ rest) =
    let later = kept_parts role rest in if is_empty t then later else text t ∷ later
kept_parts role (image_url u d ∷ rest) =
    let later = kept_parts role rest in
    let shown = if is_empty u then later else image_url u (or_auto d) ∷ later in
    elim role [
      | Role.assistant ↦ later
      | Role.system ↦ shown
      | Role.developer ↦ shown
      | Role.tool ↦ shown
      | Role.user ↦ shown
    ]
kept_parts role (ChatPart.other ∷ rest) = kept_parts role rest

-- A plain text stays, but for an empty one of the assistant.
unfoldable pub kept_content : Role → ChatContent → ChatContent
kept_content Role.assistant (ChatContent.plain t) =
    if is_empty t then ChatContent.parts [] else ChatContent.plain t
kept_content _ (ChatContent.plain t) = ChatContent.plain t
kept_content role (ChatContent.parts ps) = flattened (kept_parts role ps)
kept_content role missing = ChatContent.parts []

abbrev pub full_call : ToolCall → ToolCall
full_call c = record {
  id = c.id;
  name = some (or_empty c.name);
  arguments = some (or_braces c.arguments);
}

-- The calls of a message that are converted: a tool message has none.
abbrev pub sent_calls : ChatInput → List ToolCall
sent_calls m = elim m.role [
  | Role.tool ↦ []
  | Role.system ↦ m.tool_calls
  | Role.developer ↦ m.tool_calls
  | Role.assistant ↦ m.tool_calls
  | Role.user ↦ m.tool_calls
]

abbrev pub sent_id : ChatInput → String
sent_id m = elim m.role [
  | Role.tool ↦ m.tool_call_id
  | Role.system ↦ ""
  | Role.developer ↦ ""
  | Role.assistant ↦ ""
  | Role.user ↦ ""
]

-- The message with other calls, in the form that conversions give it
abbrev pub normal_with : List ToolCall → ChatInput → ChatInput
normal_with calls m = record {
  role = m.role;
  content = kept_content m.role m.content;
  tool_call_id = sent_id m;
  tool_calls = calls;
}

abbrev pub normal : ChatInput → ChatInput
normal m = normal_with (map full_call (sent_calls m)) m

chat_parts-input_parts :
    (role : Role) (ps : List ChatPart)
    → chat_parts (parts_for role (input_parts ps)) ≡ kept_parts role ps
unfolding chat_parts input_parts kept_parts
chat_parts-input_parts Role.assistant [] = refl
chat_parts-input_parts Role.assistant (text t ∷ rest) =
    ground (arith, chat_parts-input_parts Role.assistant rest)
chat_parts-input_parts Role.assistant (image_url u d ∷ rest) =
    ground (arith, chat_parts-input_parts Role.assistant rest)
chat_parts-input_parts Role.assistant (ChatPart.other ∷ rest) =
    chat_parts-input_parts Role.assistant rest
chat_parts-input_parts role [] = refl
chat_parts-input_parts role (text t ∷ rest) = ground (arith, chat_parts-input_parts role rest)
chat_parts-input_parts role (image_url u d ∷ rest) =
    ground (arith, chat_parts-input_parts role rest)
chat_parts-input_parts role (ChatPart.other ∷ rest) = chat_parts-input_parts role rest

content_back :
    (role : Role) (c : ChatContent)
    → chat_content (ResponseContent.parts (parts_for role (input_content c))) ≡ kept_content role c
unfolding chat_content input_content kept_content chat_parts
content_back role (ChatContent.parts ps) = ap flattened (chat_parts-input_parts role ps)
content_back Role.assistant (ChatContent.plain t) = ground arith
content_back role (ChatContent.plain t) = refl
content_back Role.assistant missing = refl
content_back role missing = refl

read_items-append :
    (xs ys : List ResponseItem) (p : Pending)
    → read_items (xs ++ ys) p ≡ read_items ys (read_items xs p)
unfolding read_items
read_items-append [] ys p = refl
read_items-append (x ∷ xs) ys p = read_items-append xs ys (read_item x p)

abbrev pending : List ChatInput → List ToolCall → Pending
pending result calls = record { result = result; tool_calls = calls }

read_calls :
    (cs : List ToolCall) (r : List ChatInput) (before : List ToolCall)
    → read_items (map call_item cs) (pending r before) ≡ pending r (before ++ map full_call cs)
unfolding read_items read_item
read_calls [] r before = rw (append-nil before) refl
read_calls (c ∷ cs) r before = read_calls cs r (before ++ full_call c ∷ []) ∙ rw append_assoc refl

abbrev chat_input : Role → ChatContent → String → List ToolCall → ChatInput
chat_input role content id calls = record {
  role = role;
  content = content;
  tool_call_id = id;
  tool_calls = calls;
}

read_after :
    (role : Role) (content : ChatContent) (calls : List ToolCall) (r : List ChatInput)
    → read_items (map call_item calls) (
        pending
          (r
            ++ chat_input role
                (chat_content (ResponseContent.parts (parts_for role (input_content content))))
                ""
                []
              ∷ [])
          [])
      ≡ pending (r ++ chat_input role (kept_content role content) "" [] ∷ []) (map full_call calls)
read_after role content calls r = rw (content_back role content) (read_calls calls _ [])

-- A message leaves itself, without its calls, and its calls.
read_by_role :
    (role : Role) (content : ChatContent) (id : String) (calls : List ToolCall) (r : List ChatInput)
    → read_items (message_items (chat_input role content id calls)) (pending r [])
      ≡ pending
          (r ++ normal_with [] (chat_input role content id calls) ∷ [])
          (map full_call (sent_calls (chat_input role content id calls)))
unfolding read_items read_item message_items
read_by_role Role.tool content id calls r = rw (content_back Role.tool content) refl
read_by_role Role.system content id calls r = read_after Role.system content calls r
read_by_role Role.developer content id calls r = read_after Role.developer content calls r
read_by_role Role.assistant content id calls r = read_after Role.assistant content calls r
read_by_role Role.user content id calls r = read_after Role.user content calls r

read_message :
    (m : ChatInput) (r : List ChatInput)
    → read_items (message_items m) (pending r [])
      ≡ pending (r ++ normal_with [] m ∷ []) (map full_call (sent_calls m))
read_message m r = read_by_role m.role m.content m.tool_call_id m.tool_calls r

to_response_input-append :
    (xs ys : List ChatInput)
    → to_response_input (xs ++ ys) ≡ to_response_input xs ++ to_response_input ys
unfolding to_response_input
to_response_input-append [] ys = refl
to_response_input-append (x ∷ xs) ys =
    ap (◌++◌ (message_items x)) (to_response_input-append xs ys)
    ∙ sym (append_assoc (message_items x) (to_response_input xs) (to_response_input ys))

abbrev pub SendsNoCall : ChatInput → Type 0
SendsNoCall m = sent_calls m ≡ []

-- Messages without calls come back one by one.
read_quiet :
    (ms : List ChatInput) (r : List ChatInput)
    → All SendsNoCall ms
    → read_items (to_response_input ms) (pending r []) ≡ pending (r ++ map normal ms) []
unfolding to_response_input read_items
read_quiet [] r q = rw (append-nil r) refl
read_quiet (m ∷ ms) r q =
    read_items-append (message_items m) (to_response_input ms) (pending r [])
    ∙ ap (read_items (to_response_input ms)) (read_message m r)
    ∙ rw q.0 (read_quiet ms (r ++ normal_with [] m ∷ []) q.1 ∙ rw append_assoc refl)

update_last-append :
    (calls : List ToolCall) (r : List ChatInput) (m : ChatInput)
    → update_last calls (r ++ m ∷ []) ≡ r ++ close_with calls m
unfolding update_last
update_last-append calls [] m = refl
update_last-append calls (x ∷ []) m = refl
update_last-append calls (x ∷ y ∷ r) m = ap (◌∷◌ x) (update_last-append calls (y ∷ r) m)

close_normal :
    (role : Role) (content : ChatContent) (id : String) (calls : List ToolCall) (r : List ChatInput)
    → let m = chat_input role content id calls in
      closed (pending (r ++ normal_with [] m ∷ []) (map full_call (sent_calls m)))
      ≡ r ++ normal m ∷ []
close_normal Role.tool content id calls r = refl
close_normal role content id [] r = refl
close_normal role content id (c ∷ cs) r =
    update_last-append (map full_call (c ∷ cs)) r
      (normal_with [] (chat_input role content id (c ∷ cs)))

-- Messages of which only the last may call tools come back from the conversion for responses in their
-- normal form: without empty parts, without images of the assistant, and a single text as a plain
-- one, with the defaults written out.
pub to_chat-to_response :
    (ms : List ChatInput) (m : ChatInput)
    → All SendsNoCall ms
    → to_chat_completion_input (to_response_input (ms ++ m ∷ [])) ≡ map normal (ms ++ m ∷ [])
unfolding to_chat_completion_input to_response_input
to_chat-to_response ms m q =
    ap (λ t. closed (read_items t (pending [] []))) (to_response_input-append ms (m ∷ []))
    ∙ ap closed
        (read_items-append (to_response_input ms) (to_response_input (m ∷ [])) (pending [] []))
    ∙ ap (λ t. closed (read_items (to_response_input (m ∷ [])) t)) (read_quiet ms [] q)
    ∙ ap (λ t. closed (read_items t (pending (map normal ms) []))) (append-nil (message_items m))
    ∙ ap closed (read_message m (map normal ms))
    ∙ close_normal m.role m.content m.tool_call_id m.tool_calls (map normal ms)
    ∙ sym (map-append normal ms (m ∷ []))
