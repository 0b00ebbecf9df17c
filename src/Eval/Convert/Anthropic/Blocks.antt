-- ===== src/Eval/Convert/Anthropic/Blocks.antt =====
-- What blocks of each kind become, and the blocks that come back.
use agent_rl.Common.{◌≡◌, refl, ap, true, false, Option, List, [], ◌∷◌, ◌++◌, map, String, All}
use agent_rl.Eval.Types.{Role}
use agent_rl.Eval.Convert.{is_empty, ToolCall, ChatInput}
use agent_rl.Eval.Convert.DataUrl.{starts_with, is_supported, supported-ReadsBack}
use agent_rl.Eval.Convert.Anthropic.{
  base64, at_url, Shown, shown_text, shown_image, Block, shown, tool_result, tool_use, assistant,
  user, AnthropicMessage, ok, source_of, shown_parts, shown_content, part_of, content_of,
  results_of, parts_of, assistant_content,
}

-- A block that the conversion for chat completions keeps, and back
abbrev pub IsVisible : Shown → Type 0
IsVisible (shown_text t) = is_empty t ≡ false
IsVisible (shown_image (base64 media_type data_of)) = is_supported media_type ≡ true
IsVisible (shown_image (at_url u)) = (is_empty u ≡ false) × (starts_with "data:" u ≡ false)

shown_parts-part_of : (bs : List Shown) → All IsVisible bs → shown_parts (map part_of bs) ≡ ok bs
unfolding shown_parts source_of
shown_parts-part_of [] v = refl
shown_parts-part_of (shown_text t ∷ bs) v = rw (v.0, shown_parts-part_of bs v.1) refl
shown_parts-part_of (shown_image (base64 mt d) ∷ bs) v =
    let (starts, media, data_back, filled) = supported-ReadsBack mt v.0 d in
    rw (filled, starts, media, v.0, data_back, shown_parts-part_of bs v.1) refl
shown_parts-part_of (shown_image (at_url u) ∷ bs) v =
    rw (v.0.0, v.0.1, shown_parts-part_of bs v.1) refl

pub shown_content-content_of :
    (bs : List Shown) → All IsVisible bs → shown_content (content_of bs) ≡ ok bs
unfolding shown_content
shown_content-content_of (shown_text t ∷ []) v = refl
shown_content-content_of [] v = shown_parts-part_of [] v
shown_content-content_of (shown_image s ∷ bs) v = shown_parts-part_of (shown_image s ∷ bs) v
shown_content-content_of (shown_text t ∷ b ∷ bs) v = shown_parts-part_of (shown_text t ∷ b ∷ bs) v

pub assistant-content_of :
    (bs : List Shown) (calls : List ToolCall)
    → All IsVisible bs
    → shown_content (assistant_content (content_of bs) calls) ≡ ok bs
unfolding shown_content
assistant-content_of bs [] v = shown_content-content_of bs v
assistant-content_of [] (c ∷ cs) v = refl
assistant-content_of (shown_text t ∷ []) (c ∷ cs) v = rw v.0 refl
assistant-content_of (shown_image s ∷ bs) (c ∷ cs) v =
    shown_content-content_of (shown_image s ∷ bs) v
assistant-content_of (shown_text t ∷ b ∷ bs) (c ∷ cs) v =
    shown_content-content_of (shown_text t ∷ b ∷ bs) v

pub record Use (J : Type 0) : Type 0 where
  pub id : Option String
  pub name : Option String
  pub input : J

-- The messages of the two roles that the conversions are for: the assistant shows something and calls
-- tools, the user answers calls and shows something.
pub data Turn (J : Type 0) : Type 0 where
  says : List Shown → List (Use J) → Turn J
  replies : List (String × List Shown) → List Shown → Turn J

module _ {J : Type 0} where
  abbrev pub used : Use J → Block J
  used u = tool_use u.id u.name u.input

  abbrev pub replied : String × List Shown → Block J
  replied r = tool_result r.0 r.1

  abbrev pub message_of : Turn J → AnthropicMessage J
  message_of (says bs us) = record { role = assistant; content = map shown bs ++ map used us }
  message_of (replies rs bs) = record { role = user; content = map replied rs ++ map shown bs }

  abbrev pub IsShown : Turn J → Type 0
  IsShown (says bs us) = All IsVisible bs
  IsShown (replies rs bs) =
      All (λ (r : String × List Shown). All IsVisible r.1) rs × All IsVisible bs

abbrev pub tool_message : String × List Shown → ChatInput
tool_message r = record {
  role = Role.tool;
  content = content_of r.1;
  tool_call_id = r.0;
  tool_calls = [];
}

pub parts_of-append :
    {J : Type 0} (xs ys : List (Block J)) → parts_of (xs ++ ys) ≡ parts_of xs ++ parts_of ys
unfolding parts_of
parts_of-append [] ys = refl
parts_of-append (shown b ∷ xs) ys = ap (◌∷◌ b) (parts_of-append xs ys)
parts_of-append (tool_result id bs ∷ xs) ys = parts_of-append xs ys
parts_of-append (tool_use id name input ∷ xs) ys = parts_of-append xs ys

pub results_of-append :
    {J : Type 0} (xs ys : List (Block J)) → results_of (xs ++ ys) ≡ results_of xs ++ results_of ys
unfolding results_of
results_of-append [] ys = refl
results_of-append (tool_result id bs ∷ xs) ys =
    ap (◌∷◌ (tool_message (id, bs))) (results_of-append xs ys)
results_of-append (shown b ∷ xs) ys = results_of-append xs ys
results_of-append (tool_use id name input ∷ xs) ys = results_of-append xs ys

-- What lists of one kind of block become.
pub parts_of-shown : (J : Type 0) (bs : List Shown) → parts_of (map {B = Block J} shown bs) ≡ bs
unfolding parts_of
parts_of-shown J [] = refl
parts_of-shown J (b ∷ bs) = ap (◌∷◌ b) (parts_of-shown J bs)

pub parts_of-used : {J : Type 0} (us : List (Use J)) → parts_of (map used us) ≡ []
unfolding parts_of
parts_of-used [] = refl
parts_of-used (u ∷ us) = parts_of-used us

pub parts_of-replied :
    (J : Type 0) (rs : List (String × List Shown)) → parts_of (map {B = Block J} replied rs) ≡ []
unfolding parts_of
parts_of-replied J [] = refl
parts_of-replied J (r ∷ rs) = parts_of-replied J rs

pub results_of-shown : (J : Type 0) (bs : List Shown) → results_of (map {B = Block J} shown bs) ≡ []
unfolding results_of
results_of-shown J [] = refl
results_of-shown J (b ∷ bs) = results_of-shown J bs

pub results_of-used : {J : Type 0} (us : List (Use J)) → results_of (map used us) ≡ []
unfolding results_of
results_of-used [] = refl
results_of-used (u ∷ us) = results_of-used us

pub results_of-replied :
    (J : Type 0) (rs : List (String × List Shown))
    → results_of (map {B = Block J} replied rs) ≡ map tool_message rs
unfolding results_of
results_of-replied J [] = refl
results_of-replied J (r ∷ rs) = ap (◌∷◌ (tool_message r)) (results_of-replied J rs)
