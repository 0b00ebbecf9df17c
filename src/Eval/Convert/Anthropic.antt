-- ===== src/Eval/Convert/Anthropic.antt =====
-- eval/src/agentrl/eval/convert/messages.py: from chat completions to Anthropic messages and back.
-- `json` is a parameter: `loads`, where `none` is a decoding error, and `dumps`.
pub mod Blocks
pub mod RoundTrip
mod Tests
use agent_rl.Common.{
  Bool, true, false, Option, none, some, List, [], ◌∷◌, ◌++◌, map, String, if◌then◌else◌,
}
use agent_rl.Eval.Types.{Role}
use agent_rl.Eval.Convert.{
  is_empty, ChatPart, text, image_url, ChatContent, missing, ToolCall, ChatInput,
}
use agent_rl.Eval.Convert.DataUrl.{after, starts_with, is_supported, data_url, media_type_of}

pub data Source : Type 0 where
  base64 : (media_type data_of : String) → Source
  at_url : String → Source

-- A block that shows something
pub data Shown : Type 0 where
  shown_text : String → Shown
  shown_image : Source → Shown

pub data Block (J : Type 0) : Type 0 where
  shown : Shown → Block J
  tool_result : (tool_use_id : String) → List Shown → Block J
  tool_use : (id name : Option String) → (input : J) → Block J

pub data AnthropicRole : Type 0 where
  assistant : AnthropicRole
  user : AnthropicRole

pub record AnthropicMessage (J : Type 0) : Type 0 where
  pub role : AnthropicRole
  pub content : List (Block J)

-- A value, a ConversionError, or another exception.
pub data Converted {ℓ} (A : Type ℓ) : Type ℓ where
  ok : A → Converted A
  conversion_error : Converted A
  raises : Converted A

infixl 5 ◌>>=◌
abbrev pub ◌>>=◌ {ℓ κ} : {A : Type ℓ} {B : Type κ} → Converted A → (A → Converted B) → Converted B
ok a >>= f = f a
conversion_error >>= f = conversion_error
raises >>= f = raises

-- `url.split(',', maxsplit=1)[1]` beside the media type; without a comma it is an IndexError.
abbrev pub inline_source : String → Option String → Converted Source
inline_source media_type none = raises
inline_source media_type (some data_of) = ok (base64 media_type data_of)

-- The source of an image with a URL
unfoldable pub source_of : String → Converted Source
source_of url =
    if starts_with "data:" url
    then if is_supported (media_type_of url)
      then inline_source (media_type_of url) (after b',' url)
      else conversion_error
    else ok (at_url url)

unfoldable pub shown_parts : List ChatPart → Converted (List Shown)
shown_parts [] = ok []
shown_parts (text t ∷ rest) =
    let later = shown_parts rest in
    if is_empty t then later else (later >>= λ bs. ok (shown_text t ∷ bs))
shown_parts (image_url u d ∷ rest) =
    let later = shown_parts rest in
    if is_empty u then later else (source_of u >>= λ s. later >>= λ bs. ok (shown_image s ∷ bs))
shown_parts (ChatPart.other ∷ rest) = shown_parts rest

unfoldable pub shown_content : ChatContent → Converted (List Shown)
shown_content (ChatContent.plain t) = ok (shown_text t ∷ [])
shown_content (ChatContent.parts ps) = shown_parts ps
shown_content missing = ok []

abbrev pub or_braces : Option String → String
or_braces none = "{}"
or_braces (some s) = if is_empty s then "{}" else s

abbrev pub role_of : ChatInput → AnthropicRole
role_of m = elim m.role [
  | Role.assistant ↦ assistant
  | Role.system ↦ user
  | Role.developer ↦ user
  | Role.user ↦ user
  | Role.tool ↦ user
]

-- `role == 'system' or role == 'developer'`
abbrev pub is_prompt : ChatInput → Bool
is_prompt m = elim m.role [
  | Role.system ↦ true
  | Role.developer ↦ true
  | Role.assistant ↦ false
  | Role.user ↦ false
  | Role.tool ↦ false
]

-- The role of the messages so far, if there are any, with that of one more
abbrev pub same_role : Option AnthropicRole → AnthropicRole → Converted AnthropicRole
same_role none r = ok r
same_role (some assistant) assistant = ok assistant
same_role (some user) user = ok user
same_role (some assistant) user = conversion_error
same_role (some user) assistant = conversion_error

abbrev pub finished :
    {J : Type 0} → Option AnthropicRole × List (Block J) → Converted (AnthropicMessage J)
finished (none, blocks) = conversion_error
finished (some r, []) = conversion_error
finished (some r, b ∷ bs) = ok (record { role = r; content = b ∷ bs })

module _ {J : Type 0} (loads : String → Option J) where
  unfoldable pub tool_uses : List ToolCall → Converted (List (Block J))
  tool_uses [] = ok []
  tool_uses (c ∷ cs) =
      let later = tool_uses cs in
      elim (loads (or_braces c.arguments)) [
        | none ↦ raises
        | some input ↦ (later >>= λ bs. ok (tool_use c.id c.name input ∷ bs))
      ]

  -- The blocks of a message that is no tool message
  unfoldable pub message_blocks : ChatContent → List ToolCall → Converted (List (Block J))
  message_blocks content calls =
      shown_content content >>= λ bs. tool_uses calls >>= λ uses. ok (map shown bs ++ uses)

  unfoldable pub blocks_of : ChatInput → Converted (List (Block J))
  blocks_of m = elim m.role [
    | Role.system ↦ conversion_error
    | Role.developer ↦ conversion_error
    | Role.assistant ↦ message_blocks m.content m.tool_calls
    | Role.user ↦ message_blocks m.content m.tool_calls
    | Role.tool ↦ (shown_content m.content >>= λ bs. ok (tool_result m.tool_call_id bs ∷ []))
  ]

  -- The loop over the messages, from the role and the blocks so far
  unfoldable pub collect :
      List ChatInput
      → Option AnthropicRole
      → List (Block J)
      → Converted (Option AnthropicRole × List (Block J))
  collect [] role blocks = ok (role, blocks)
  collect (m ∷ ms) role blocks =
      let rest = λ (r : AnthropicRole) (bs : List (Block J)). collect ms (some r) (blocks ++ bs) in
      if is_prompt m
      then conversion_error
      else (same_role role (role_of m) >>= λ r. blocks_of m >>= λ bs. rest r bs)

  -- `OpenAIChatCompletionInputMessageRecord.to_anthropic_message_input`
  unfoldable pub to_anthropic_message_input : List ChatInput → Converted (AnthropicMessage J)
  to_anthropic_message_input ms = collect ms none [] >>= finished

-- `OpenAIChatCompletionInputMessageRecord.to_anthropic_message_system`: the texts of the prompts
unfoldable pub prompt_parts : List ChatPart → List String
prompt_parts [] = []
prompt_parts (text t ∷ rest) =
    let later = prompt_parts rest in if is_empty t then later else t ∷ later
prompt_parts (image_url u d ∷ rest) = prompt_parts rest
prompt_parts (ChatPart.other ∷ rest) = prompt_parts rest

abbrev pub prompt_content : ChatContent → List String
prompt_content (ChatContent.plain t) = t ∷ []
prompt_content (ChatContent.parts ps) = prompt_parts ps
prompt_content missing = []

unfoldable pub prompt_texts : List ChatInput → List String
prompt_texts [] = []
prompt_texts (m ∷ ms) = elim m.role [
  | Role.system ↦ prompt_content m.content ++ prompt_texts ms
  | Role.developer ↦ prompt_content m.content ++ prompt_texts ms
  | Role.assistant ↦ prompt_texts ms
  | Role.user ↦ prompt_texts ms
  | Role.tool ↦ prompt_texts ms
]

unfoldable pub to_anthropic_message_system : List ChatInput → Converted (List String)
to_anthropic_message_system ms = elim (prompt_texts ms) [
  | [] ↦ conversion_error
  | t ∷ ts ↦ ok (t ∷ ts)
]

-- Back: a block as a part of a chat message
abbrev pub source_url : Source → String
source_url (base64 media_type data_of) = data_url media_type data_of
source_url (at_url u) = u

abbrev pub part_of : Shown → ChatPart
part_of (shown_text t) = text t
part_of (shown_image s) = image_url (source_url s) (some "auto")

-- One text alone is a plain text.
abbrev pub flattened : List ChatPart → ChatContent
flattened (text t ∷ []) = ChatContent.plain t
flattened ps = ChatContent.parts ps

abbrev pub content_of : List Shown → ChatContent
content_of bs = flattened (map part_of bs)

-- `bool(parts)`
abbrev pub is_blank : ChatContent → Bool
is_blank (ChatContent.plain t) = is_empty t
is_blank (ChatContent.parts []) = true
is_blank (ChatContent.parts (p ∷ ps)) = false
is_blank missing = true

-- The tool messages, the parts and the calls that blocks become
unfoldable pub results_of : {J : Type 0} → List (Block J) → List ChatInput
results_of [] = []
results_of (tool_result id bs ∷ rest) =
    record { role = Role.tool; content = content_of bs; tool_call_id = id; tool_calls = [] }
    ∷ results_of rest
results_of (shown b ∷ rest) = results_of rest
results_of (tool_use id name input ∷ rest) = results_of rest

unfoldable pub parts_of : {J : Type 0} → List (Block J) → List Shown
parts_of [] = []
parts_of (shown b ∷ rest) = b ∷ parts_of rest
parts_of (tool_result id bs ∷ rest) = parts_of rest
parts_of (tool_use id name input ∷ rest) = parts_of rest

-- `parts if parts or not tool_calls else None`
abbrev pub assistant_content : ChatContent → List ToolCall → ChatContent
assistant_content content [] = content
assistant_content content (c ∷ cs) = if is_blank content then missing else content

module _ {J : Type 0} (dumps : J → String) where
  unfoldable pub calls_of : List (Block J) → List ToolCall
  calls_of [] = []
  calls_of (tool_use id name input ∷ rest) =
      record { id = id; name = name; arguments = some (dumps input) } ∷ calls_of rest
  calls_of (shown b ∷ rest) = calls_of rest
  calls_of (tool_result id bs ∷ rest) = calls_of rest

  -- `AnthropicMessageInputMessageRecord.to_openai_chat_completion_input`
  unfoldable pub to_chat_completion_input : AnthropicMessage J → List ChatInput
  to_chat_completion_input a =
      let content = content_of (parts_of a.content) in
      let calls = calls_of a.content in
      elim a.role [
        | assistant ↦
            results_of a.content
            ++ record {
              role = Role.assistant;
              content = assistant_content content calls;
              tool_call_id = "";
              tool_calls = calls;
            }
              ∷ []
        | user ↦
            results_of a.content
            ++ record { role = Role.user; content = content; tool_call_id = ""; tool_calls = [] }
              ∷ []
      ]
