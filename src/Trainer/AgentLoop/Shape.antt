-- ===== src/Trainer/AgentLoop/Shape.antt =====
-- The shape of what openai_chat_agent_loop of trainer/src/agentrl/trainer/agentic/loops.py returns.
use agent_rl.Common.{
  ℕ, zero, suc, ◌+◌, ◌≤◌, ◌≡◌, ◌≢◌, refl, ap, List, [], ◌∷◌, length, take, arith, inl, inr, ◌∙◌,
  sym, length-append, length-replicate, length-map, length-take, string_eq, ◌⊎◌,
}
use agent_rl.Common.Int.{ℤ}
use agent_rl.Trainer.AgentLoop.{
  Answer, ok, runtime_error, exception, Environment, Rollout, Start, sample, Sample, returns,
  Outcome, conclude, played, openai_chat_agent_loop, fails_assertion, arange_from, min_of, raises,
  raises_runtime_error,
}
use agent_rl.Trainer.AgentLoop.Segments.{
  Segment, context, answer, ids_of, mask_of, probs_of, Conversation, IsBuilt,
}
use agent_rl.Trainer.AgentLoop.Parts.{Played, played-Played}

length-mask_of : (segs : List Segment) → length (mask_of segs) ≡ length (ids_of segs)
unfolding mask_of ids_of
length-mask_of [] = refl
length-mask_of (context ids ∷ segs) =
    grind (arith, length-append, length-replicate, length-mask_of segs)
length-mask_of (answer ts ∷ segs) =
    grind (arith, length-append, length-replicate, length-map, length-mask_of segs)

length-probs_of : (segs : List Segment) → length (probs_of segs) ≡ length (ids_of segs)
unfolding probs_of ids_of
length-probs_of [] = refl
length-probs_of (context ids ∷ segs) =
    grind (arith, length-append, length-replicate, length-probs_of segs)
length-probs_of (answer ts ∷ segs) = grind (arith, length-append, length-map, length-probs_of segs)

module _ {W : Type 0} (env : Environment W) (max_turns max_length : ℕ) (punishment : ℤ)
    (w : W) where
  lengths :
      (segs : List Segment) (r : Rollout)
      → IsBuilt segs r
      → (length r.loss_mask ≡ length r.ids) × (length r.log_probs ≡ length r.ids)
  lengths segs r b = (
    ap length b.mask ∙ length-mask_of segs ∙ sym (ap length b.ids),
    ap length b.probs ∙ length-probs_of segs ∙ sym (ap length b.ids),
  )

  Played-lengths :
      (r : Rollout)
      → Played env w max_turns r
      → (length r.loss_mask ≡ length r.ids) × (length r.log_probs ≡ length r.ids)
  Played-lengths r (start, v, p) = lengths p.segs r p.built

  conclude-returns :
      (r : Rollout)
      → Played env w max_turns r
      → conclude env max_length punishment r ≡ returns (sample max_length punishment r)
  unfolding conclude
  conclude-returns r p = ground (arith, (Played-lengths r p).0, (Played-lengths r p).1)

  -- A result is the sample of a rollout that was played.
  loop_view :
      (o : Outcome) (v : W)
      → openai_chat_agent_loop env max_turns max_length punishment w ≡ (o, v)
      → ((r : Rollout) × Played env w max_turns r × (o ≡ returns (sample max_length punishment r)))
        ⊎ (o ≡ raises_runtime_error)
        ⊎ (o ≡ raises)
  unfolding openai_chat_agent_loop
  loop_view o v e = by_end (played env max_turns max_length w) refl
    where
      by_end :
          (x : Answer Rollout × W)
          → played env max_turns max_length w ≡ x
          → ((r : Rollout) × Played env w max_turns r
              × (o ≡ returns (sample max_length punishment r)))
            ⊎ (o ≡ raises_runtime_error)
            ⊎ (o ≡ raises)
      by_end (ok r, u) q =
          let p = played-Played env max_turns max_length r w u q in
          inl (r, p, ground (arith, conclude-returns r p))
      by_end (runtime_error, u) q = inr (inl (ground arith))
      by_end (exception, u) q = inr (inr (ground arith))

  -- The assertion that ends the loop never fails: a call returns a sample, or raises what a call of the
  -- environment or the engine, or the making of the tool call parser, raised.
  pub loop-asserts :
      (openai_chat_agent_loop env max_turns max_length punishment w).0 ≢ fails_assertion
  loop-asserts f = elim (loop_view _ _ refl) [
    | inl (r, p, q) ↦ cc (q, f)
    | inr (inl q) ↦ cc (q, f)
    | inr (inr q) ↦ cc (q, f)
  ]

  returned_view :
      (s : Sample)
      → (openai_chat_agent_loop env max_turns max_length punishment w).0 ≡ returns s
      → (r : Rollout) × Played env w max_turns r × (s ≡ sample max_length punishment r)
  returned_view s f = elim (loop_view _ _ refl) [
    | inl (r, p, q) ↦ (r, p, cc (q, f))
    | inr (inl q) ↦ absurd (cc (q, f))
    | inr (inr q) ↦ absurd (cc (q, f))
  ]

  -- What a call returns is made, cut off at `max_length`, of a conversation of at most `max_turns`
  -- turns that starts in the world of the call: the prompt for what `start_fn` returned, and in each
  -- turn what `gen_fn` answered to all tokens before it, with mask 1 and the log probabilities that
  -- came with the tokens, and then the tokens that the messages of `obs_fn` add to the templated
  -- conversation. The prompt and what is observed have mask 0 and log probability 0. The history is
  -- that of the conversation.
  pub rollout_segments :
      (s : Sample)
      → (openai_chat_agent_loop env max_turns max_length punishment w).0 ≡ returns s
      → (start : Start) × (n : ℕ) × (segs : List Segment) × (v : W) × Conversation env w start n
          s.history segs v
        × (n ≤ max_turns)
        × (s.input_ids ≡ take max_length (ids_of segs))
        × (s.loss_mask ≡ take max_length (mask_of segs))
        × (s.rollout_log_prob ≡ take max_length (probs_of segs))
  unfolding sample
  rollout_segments s f =
      let (r, (start, v, p), q) = returned_view s f in
      rw q (
        start,
        p.turn_count,
        p.segs,
        v,
        p.talk,
        p.few,
        ap (take max_length) p.built.ids,
        ap (take max_length) p.built.mask,
        ap (take max_length) p.built.probs,
      )

length-arange_from : (i n : ℕ) → length (arange_from i n) ≡ n
unfolding arange_from
length-arange_from i zero = refl
length-arange_from i (suc n) = ap suc (length-arange_from (i + 1) n)

sample-lengths :
    (max_length : ℕ) (punishment : ℤ) (r : Rollout)
    → length r.loss_mask ≡ length r.ids
    → length r.log_probs ≡ length r.ids
    → let s = sample max_length punishment r in
      (length s.input_ids ≡ s.seq_len)
      × (length s.loss_mask ≡ s.seq_len)
      × (length s.rollout_log_prob ≡ s.seq_len)
      × (length s.position_ids ≡ s.seq_len)
      × (s.seq_len ≤ max_length)
unfolding sample
sample-lengths max_length punishment r m l = (
  refl,
  omega (arith, length-take max_length r.loss_mask, length-take max_length r.ids, m),
  omega (arith, length-take max_length r.log_probs, length-take max_length r.ids, l),
  ground (
    arith,
    length-take max_length r.ids,
    length-arange_from 0 (min_of max_length (length r.ids)),
  ),
  omega (arith, length-take max_length r.ids),
)

-- The ids, the loss mask, the log probabilities and the positions of what a call returns all have
-- length `seq_len`, which is at most `max_length`.
pub rollout_aligned :
    {W : Type 0} (env : Environment W) (max_turns max_length : ℕ) (punishment : ℤ) (w : W)
    (s : Sample)
    → (openai_chat_agent_loop env max_turns max_length punishment w).0 ≡ returns s
    → (length s.input_ids ≡ s.seq_len)
      × (length s.loss_mask ≡ s.seq_len)
      × (length s.rollout_log_prob ≡ s.seq_len)
      × (length s.position_ids ≡ s.seq_len)
      × (s.seq_len ≤ max_length)
rollout_aligned env max_turns max_length punishment w s f =
    let (r, p, q) = returned_view env max_turns max_length punishment w s f in
    let (m, l) = Played-lengths env max_turns max_length punishment w r p in
    rw q (sample-lengths max_length punishment r m l)
