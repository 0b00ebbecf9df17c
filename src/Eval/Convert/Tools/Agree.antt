-- ===== src/Eval/Convert/Tools/Agree.antt =====
-- Conversions of tools on different ways.
use agent_rl.Common.{◌≡◌, refl, Option, none, some, String, false, arith}
use agent_rl.Eval.Convert.Tools.{
  ChatTool, described, chat_to_response, chat_to_anthropic, response_to_chat, response_to_anthropic,
  anthropic_to_chat, anthropic_to_response,
}

described_twice : (d : Option String) → described (described d) ≡ described d
described_twice none = refl
described_twice (some d) = refl

-- The tool with the defaults that a conversion writes out
abbrev pub written_out : {J : Type 0} → ChatTool J → ChatTool J
written_out t = record {
  name = t.name;
  description = described t.description;
  parameters = t.parameters;
  strict = some false;
}

-- However a tool of a chat completion is converted, it is the same tool: the way over the other format
-- leads to what the direct conversion gives, and back to the tool with its defaults written out.
pub ways_agree :
    {J : Type 0} (t : ChatTool J)
    → (response_to_chat (chat_to_response t) ≡ written_out t)
      × (anthropic_to_chat (chat_to_anthropic t) ≡ written_out t)
      × (response_to_anthropic (chat_to_response t) ≡ chat_to_anthropic t)
      × (anthropic_to_response (chat_to_anthropic t) ≡ chat_to_response t)
unfolding chat_to_response chat_to_anthropic response_to_chat response_to_anthropic
    anthropic_to_chat anthropic_to_response
ways_agree t =
    let d = described_twice t.description in
    (ground (arith, d), ground (arith, d), ground (arith, d), ground (arith, d))
