-- ===== src/Eval/Convert/Records/Lists.antt =====
-- What becomes of a record in a request to Anthropic, which has its prompt apart from its messages.
use agent_rl.Common.{
  ◌≡◌, ◌≢◌, ◌∙◌, refl, false, Option, none, some, List, [], ◌∷◌, ◌++◌, String, Bool-cases, inl, inr,
  arith,
}
use agent_rl.Eval.Convert.{ChatInput}
use agent_rl.Eval.Convert.Anthropic.{
  AnthropicMessage, AnthropicRole, Block, Converted, ok, conversion_error, raises, ◌>>=◌, collect,
  finished, is_prompt, same_role, role_of, blocks_of, to_anthropic_message_input,
  to_anthropic_message_system, prompt_texts,
}
use agent_rl.Eval.Convert.Records.{
  MessageRecord, chat_input, chat_output, response_input, response_output, anthropic_input,
  anthropic_output, anthropic_system, record_to_anthropic, record_to_system,
}

>>=-eq-ok :
    {A B : Type 0} (c : Converted A) (f : A → Converted B) (b : B)
    → (c >>= f) ≡ ok b
    → (a : A) × (c ≡ ok a) × (f a ≡ ok b)
>>=-eq-ok (ok a) f b e = (a, refl, e)
>>=-eq-ok {A} {B} conversion_error f b e = cc e
>>=-eq-ok {A} {B} raises f b e = cc e

prompt_texts-skip :
    (m : ChatInput) (ms : List ChatInput)
    → is_prompt m ≡ false
    → prompt_texts (m ∷ ms) ≡ prompt_texts ms
unfolding prompt_texts
prompt_texts-skip m ms q = ground (arith, q)

module _ {J : Type 0} (loads : String → Option J) where
  collect-skip :
      (m : ChatInput) (ms : List ChatInput) (role : Option AnthropicRole) (bs : List (Block J))
      (o : Option AnthropicRole × List (Block J))
      → is_prompt m ≡ false
      → collect loads (m ∷ ms) role bs ≡ ok o
      → (r : AnthropicRole) × (cs : List (Block J)) × (collect loads ms (some r) cs ≡ ok o)
  unfolding collect
  collect-skip m ms role bs o q e =
      let (r, p, f) =
        >>=-eq-ok (same_role role (role_of m))
          (λ r. blocks_of loads m >>= λ cs. collect loads ms (some r) (bs ++ cs)) o
          (ground (arith, q, e)) in
      let (cs, p2, f2) =
        >>=-eq-ok (blocks_of loads m) (λ cs. collect loads ms (some r) (bs ++ cs)) o f in
      (r, bs ++ cs, f2)

  -- The loop gives nothing for a list that has the texts of a prompt.
  collect-prompt :
      (ms : List ChatInput) (role : Option AnthropicRole) (bs : List (Block J))
      (o : Option AnthropicRole × List (Block J))
      → prompt_texts ms ≢ []
      → collect loads ms role bs ≢ ok o
  unfolding collect prompt_texts
  collect-prompt [] role bs o n e = n refl
  collect-prompt (m ∷ ms) role bs o n e = elim (Bool-cases (is_prompt m)) [
    | inl p ↦ ground (arith, p, e)
    | inr q ↦
        let (r, cs, f) = collect-skip m ms role bs o q e in
        collect-prompt ms (some r) cs o (λ g. n (prompt_texts-skip m ms q ∙ g)) f
  ]

  chat_apart :
      (ms : List ChatInput) (ts : List String) (a : AnthropicMessage J)
      → to_anthropic_message_system ms ≡ ok ts
      → to_anthropic_message_input loads ms ≢ ok a
  unfolding to_anthropic_message_system to_anthropic_message_input
  chat_apart ms ts a e f =
      let (o, p, q) = >>=-eq-ok (collect loads ms none []) finished a f in
      collect-prompt ms none [] o (λ g. ground (arith, e, g)) p

  -- Of a record that has a system prompt for Anthropic there is no message for Anthropic: nothing is
  -- sent twice.
  pub system-apart :
      (r : MessageRecord J) (ts : List String) (a : AnthropicMessage J)
      → record_to_system r ≡ ok ts
      → record_to_anthropic loads r ≢ ok a
  unfolding record_to_system record_to_anthropic
  system-apart (chat_input ms) ts a e f = chat_apart ms ts a e f
  system-apart (chat_output ms) ts a e f = chat_apart ms ts a e f
  system-apart (response_input is) ts a e f = cc e
  system-apart (response_output is) ts a e f = cc e
  system-apart (anthropic_input b) ts a e f = cc e
  system-apart (anthropic_output b) ts a e f = cc e
  system-apart (anthropic_system us) ts a e f = cc f
