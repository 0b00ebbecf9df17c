-- ===== src/Eval/Tokens/Totals.antt =====
-- What a counter holds after usages in any order.
use agent_rl.Common.{
  ◌+◌, ◌≡◌, refl, sym, ap, ◌∙◌, List, [], ◌∷◌, ◌++◌, arith, Option-cases, inl, inr,
}
use agent_rl.Eval.Tokens.{Usage, TokenCounter, new_counter, add_from_usage, add_all, add_details}

abbrev pub plus : TokenCounter → TokenCounter → TokenCounter
plus c d = record {
  input = c.input + d.input;
  input_cached = c.input_cached + d.input_cached;
  input_image = c.input_image + d.input_image;
  output = c.output + d.output;
  output_thinking = c.output_thinking + d.output_thinking;
}

-- What one usage counts.
abbrev pub counted : Usage → TokenCounter
counted u = add_from_usage u new_counter

add_from_usage-plus : (u : Usage) (c : TokenCounter) → add_from_usage u c ≡ plus c (counted u)
unfolding add_from_usage add_details
add_from_usage-plus u c = elim (Option-cases u.prompt_tokens_details) [
  | inr (d, e) ↦ ground (arith, e)
  | inl n ↦ ground (arith, n)
]

plus_assoc : (c d e : TokenCounter) → plus (plus c d) e ≡ plus c (plus d e)
plus_assoc c d e = ground arith

plus_new : (c : TokenCounter) → c ≡ plus c new_counter
plus_new c = ground arith

add_all-plus : (us : List Usage) (c : TokenCounter) → add_all us c ≡ plus c (add_all us new_counter)
unfolding add_all
add_all-plus [] c = plus_new c
add_all-plus (u ∷ us) c =
    add_all-plus us (add_from_usage u c)
    ∙ ap (λ t. plus t (add_all us new_counter)) (add_from_usage-plus u c)
    ∙ plus_assoc c (counted u) (add_all us new_counter)
    ∙ ap (plus c) (sym (add_all-plus us (counted u)))

add_all_twice :
    (us vs : List Usage) (c : TokenCounter) → add_all (us ++ vs) c ≡ add_all vs (add_all us c)
unfolding add_all
add_all_twice [] vs c = refl
add_all_twice (u ∷ us) vs c = add_all_twice us vs (add_from_usage u c)

plus_comm : (c d : TokenCounter) → plus c d ≡ plus d c
plus_comm c d = ground arith

-- A counter of two lists of usages is, in every field, the sum of the counters of the two, so that
-- the order in which they come does not matter.
pub add_all-append :
    (us vs : List Usage)
    → (add_all (us ++ vs) new_counter ≡ plus (add_all us new_counter) (add_all vs new_counter))
      × (add_all (us ++ vs) new_counter ≡ add_all (vs ++ us) new_counter)
add_all-append us vs =
    let joined = add_all_twice us vs new_counter ∙ add_all-plus vs (add_all us new_counter) in
    let turned = add_all_twice vs us new_counter ∙ add_all-plus us (add_all vs new_counter) in
    (joined, joined ∙ plus_comm (add_all us new_counter) (add_all vs new_counter) ∙ sym turned)
