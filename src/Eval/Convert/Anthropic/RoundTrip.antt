-- ===== src/Eval/Convert/Anthropic/RoundTrip.antt =====
-- Anthropic messages that were converted for chat completions and back.
use agent_rl.Common.{
  ◌≡◌, ◌≢◌, refl, ap, ◌∙◌, false, Option, none, some, List, [], ◌∷◌, ◌++◌, map, String,
  append_assoc, append-nil, All,
}
use agent_rl.Eval.Types.{Role}
use agent_rl.Eval.Convert.{is_empty, ChatContent, ToolCall, ChatInput}
use agent_rl.Eval.Convert.Anthropic.{
  Shown, Block, shown, tool_result, tool_use, AnthropicRole, assistant, user, ok, shown_content,
  tool_uses, message_blocks, blocks_of, same_role, collect, finished, to_anthropic_message_input,
  content_of, calls_of, assistant_content, to_chat_completion_input,
}
use agent_rl.Eval.Convert.Anthropic.Blocks.{
  IsShown, IsVisible, Use, assistant-content_of, message_of, parts_of-append, parts_of-replied,
  parts_of-shown, parts_of-used, replied, replies, results_of-append, results_of-replied,
  results_of-shown, results_of-used, says, shown_content-content_of, tool_message, used, Turn,
}

module _ {J : Type 0} (loads : String → Option J) (dumps : J → String)
    (read : (j : J) → loads (dumps j) ≡ some j)
    (filled : (j : J) → is_empty (dumps j) ≡ false) where
  abbrev call_of : Use J → ToolCall
  call_of u = record { id = u.id; name = u.name; arguments = some (dumps u.input) }

  calls_of-append :
      (xs ys : List (Block J)) → calls_of dumps (xs ++ ys) ≡ calls_of dumps xs ++ calls_of dumps ys
  unfolding calls_of
  calls_of-append [] ys = refl
  calls_of-append (shown b ∷ xs) ys = calls_of-append xs ys
  calls_of-append (tool_result id bs ∷ xs) ys = calls_of-append xs ys
  calls_of-append (tool_use id name input ∷ xs) ys =
      ap (◌∷◌ (call_of (record { id = id; name = name; input = input }))) (calls_of-append xs ys)

  calls_of-shown : (bs : List Shown) → calls_of dumps (map shown bs) ≡ []
  unfolding calls_of
  calls_of-shown [] = refl
  calls_of-shown (b ∷ bs) = calls_of-shown bs

  calls_of-used : (us : List (Use J)) → calls_of dumps (map used us) ≡ map call_of us
  unfolding calls_of
  calls_of-used [] = refl
  calls_of-used (u ∷ us) = ap (◌∷◌ (call_of u)) (calls_of-used us)

  tool_uses-call_of : (us : List (Use J)) → tool_uses loads (map call_of us) ≡ ok (map used us)
  unfolding tool_uses
  tool_uses-call_of [] = refl
  tool_uses-call_of (u ∷ us) = rw (filled u.input, read u.input, tool_uses-call_of us) refl

  -- One message of the assistant
  abbrev said : List Shown → List (Use J) → ChatInput
  said bs us = record {
    role = Role.assistant;
    content = assistant_content (content_of bs) (map call_of us);
    tool_call_id = "";
    tool_calls = map call_of us;
  }

  abbrev asked : List Shown → ChatInput
  asked bs = record {
    role = Role.user;
    content = content_of bs;
    tool_call_id = "";
    tool_calls = [];
  }

  to_chat-says :
      (bs : List Shown) (us : List (Use J))
      → to_chat_completion_input dumps (message_of (says bs us)) ≡ said bs us ∷ []
  unfolding to_chat_completion_input
  to_chat-says bs us =
      rw
        (
          results_of-append (map shown bs) (map used us),
          results_of-shown J bs,
          results_of-used us,
          parts_of-append (map shown bs) (map used us),
          parts_of-shown J bs,
          parts_of-used us,
          calls_of-append (map shown bs) (map used us),
          calls_of-shown bs,
          calls_of-used us,
          append-nil bs,
        )
        refl

  to_chat-replies :
      (rs : List (String × List Shown)) (bs : List Shown)
      → to_chat_completion_input dumps (message_of (replies rs bs))
        ≡ map tool_message rs ++ asked bs ∷ []
  unfolding to_chat_completion_input
  to_chat-replies rs bs =
      rw
        (
          results_of-append (map replied rs) (map shown bs),
          results_of-replied J rs,
          results_of-shown J bs,
          parts_of-append (map replied rs) (map shown bs),
          parts_of-replied J rs,
          parts_of-shown J bs,
          append-nil (map tool_message rs),
        )
        refl

  message_blocks-content :
      (content : ChatContent) (bs : List Shown) (us : List (Use J))
      → shown_content content ≡ ok bs
      → message_blocks loads content (map call_of us) ≡ ok (map shown bs ++ map used us)
  unfolding message_blocks
  message_blocks-content content bs us e = rw (e, tool_uses-call_of us) refl

  finished-ok :
      (r : AnthropicRole) (bs : List (Block J))
      → bs ≢ []
      → finished (some r, bs) ≡ ok (record { role = r; content = bs })
  finished-ok r [] n = absurd (n refl)
  finished-ok r (b ∷ bs) n = refl

  collect-tools :
      (rs : List (String × List Shown)) (ms : List ChatInput) (role : Option AnthropicRole)
      (bs : List (Block J))
      → All (λ (r : String × List Shown). All IsVisible r.1) rs
      → same_role role user ≡ ok user
      → (k : Option AnthropicRole) × (same_role k user ≡ ok user)
        × (collect loads (map tool_message rs ++ ms) role bs
            ≡ collect loads ms k (bs ++ map replied rs))
  unfolding collect blocks_of
  collect-tools [] ms role bs v e = (role, e, rw (append-nil bs) refl)
  collect-tools (r ∷ rs) ms role bs v e =
      let (k, f, q) = collect-tools rs ms (some user) (bs ++ replied r ∷ []) v.1 refl in
      (k, f, rw (e, shown_content-content_of r.1 v.0) (q ∙ rw append_assoc refl))

  collect-asked :
      (bs : List Shown) (role : Option AnthropicRole) (before : List (Block J))
      → All IsVisible bs
      → same_role role user ≡ ok user
      → collect loads (asked bs ∷ []) role before ≡ ok (some user, before ++ map shown bs)
  unfolding collect blocks_of
  collect-asked bs role before v e =
      rw
        (
          e,
          message_blocks-content (content_of bs) bs [] (shown_content-content_of bs v),
          append-nil (map {B = Block J} shown bs),
        )
        refl

  collect-said :
      (bs : List Shown) (us : List (Use J))
      → All IsVisible bs
      → collect loads (said bs us ∷ []) none [] ≡ ok (some assistant, map shown bs ++ map used us)
  unfolding collect blocks_of
  collect-said bs us v =
      rw
        (message_blocks-content (assistant_content (content_of bs) (map call_of us)) bs us
          (assistant-content_of bs (map call_of us) v))
        refl

  -- An Anthropic message of the assistant that shows blocks and then calls tools, or of the user that
  -- answers calls and then shows blocks, comes back unchanged from the conversion for chat
  -- completions, if it is not empty, no text is empty, images are of the supported types or at URLs
  -- that are no data URLs, and `json.loads` inverts `json.dumps`, which never prints an empty text.
  pub to_anthropic-to_chat :
      (t : Turn J)
      → IsShown t
      → (message_of t).content ≢ []
      → to_anthropic_message_input loads (to_chat_completion_input dumps (message_of t))
        ≡ ok (message_of t)
  unfolding to_anthropic_message_input
  to_anthropic-to_chat (says bs us) v n =
      rw (to_chat-says bs us, collect-said bs us v)
        (finished-ok assistant (map shown bs ++ map used us) n)
  to_anthropic-to_chat (replies rs bs) v n =
      let (k, f, q) = collect-tools rs (asked bs ∷ []) none [] v.0 refl in
      rw (to_chat-replies rs bs, q, collect-asked bs k (map replied rs) v.1 f)
        (finished-ok user (map replied rs ++ map shown bs) n)
