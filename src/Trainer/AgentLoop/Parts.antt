-- ===== src/Trainer/AgentLoop/Parts.antt =====
-- What openai_chat_agent_loop of trainer/src/agentrl/trainer/agentic/loops.py has gathered, turn by turn,
-- is a conversation.
use agent_rl.Common.{
  ℕ, zero, suc, ◌+◌, ◌≤◌, ◌≡◌, refl, ap, true, List, [], ◌∷◌, ◌++◌, map, String, length, replicate,
  arith, Bool-cases, inl, inr, append_assoc, append-nil, ◌∙◌, sym, string_eq,
}
use agent_rl.Common.Int.{ℤ, pos}
use agent_rl.Trainer.AgentLoop.{
  Answer, ok, Environment, Rollout, generated, observed, difference, Start, opening, turn, turns,
  stops, played, Message, Observation,
}
use agent_rl.Trainer.AgentLoop.Segments.{
  Segment, context, answer, ids_of, mask_of, probs_of, ids_of-append, mask_of-append,
  probs_of-append, Conversation, starts, goes_on, IsBuilt, and_then_view, turn_view,
}

-- A rollout that a conversation of at most so many turns makes up.
pub record Parts {W : Type 0} (env : Environment W) (begin : W) (start : Start) (most : ℕ)
    (r : Rollout) (v : W) : Type 0 where
  pub turn_count : ℕ
  pub segs : List Segment
  pub built : IsBuilt segs r
  pub talk : Conversation env begin start turn_count r.history segs v
  pub few : turn_count ≤ most

extend : {a : List ℕ} (r s t : List ℕ) → a ≡ r → (a ++ s) ++ t ≡ r ++ (s ++ (t ++ []))
extend r s t e = rw (e, append_assoc, append-nil) refl

extend_probs : {a : List ℤ} (r s t : List ℤ) → a ≡ r → (a ++ s) ++ t ≡ r ++ (s ++ (t ++ []))
extend_probs r s t e = rw (e, append_assoc, append-nil) refl

module _ {W : Type 0} (env : Environment W) where
  grown-IsBuilt :
      (segs : List Segment) (tools : List String) (ts : List (ℤ × ℕ)) (m : Message)
      (obs : Observation) (r : Rollout)
      → IsBuilt segs r
      → IsBuilt
          (segs
            ++ answer ts
              ∷ context (difference env tools (generated ts m r).history obs.messages)
              ∷ [])
          (observed env tools obs (generated ts m r))
  unfolding observed generated ids_of mask_of probs_of
  grown-IsBuilt segs tools ts m obs r b =
      let d = difference env tools (generated ts m r).history obs.messages in
      record {
        ids =
            extend (ids_of segs) (map (λ (t : ℤ × ℕ). t.1) ts) d b.ids
            ∙ sym (ids_of-append segs (answer ts ∷ context d ∷ []));
        mask =
            extend (mask_of segs) (replicate (length ts) 1) (replicate (length d) 0) b.mask
            ∙ sym (mask_of-append segs (answer ts ∷ context d ∷ []));
        probs =
            extend_probs (probs_of segs) (map (λ (t : ℤ × ℕ). t.0) ts)
              (replicate (length d) (pos 0)) b.probs
            ∙ sym (probs_of-append segs (answer ts ∷ context d ∷ []));
      }

  opening-Parts :
      (begin : W) (start : Start) (v : W)
      → env.start_fn begin ≡ (ok start, v)
      → Parts env begin start 0 (opening env start) v
  unfolding opening ids_of mask_of probs_of
  opening-Parts begin start v e =
      let ids = env.template start.messages start.tools true in
      record {
        turn_count = 0;
        segs = context ids ∷ [];
        built = record {
          ids = sym (append-nil ids);
          mask = sym (append-nil (replicate (length ids) 0));
          probs = sym (append-nil (replicate (length ids) (pos 0)));
        };
        talk = starts e;
        few = omega arith;
      }

module _ {W : Type 0} (env : Environment W) (begin : W) (start : Start) where
  turn-Parts :
      (n : ℕ) (r s : Rollout) (w v : W)
      → turn env start.tools start.sid r w ≡ (ok s, v)
      → Parts env begin start n r w
      → Parts env begin start (n + 1) s v
  unfolding observed generated difference
  turn-Parts n r s w v e p =
      let (text, ts, u, m, obs, g, said, seen, q) = turn_view env start.tools start.sid r s w v e in
      let d = difference env start.tools (generated ts m r).history obs.messages in
      rw q (record {
        turn_count = p.turn_count + 1;
        segs = p.segs ++ answer ts ∷ context d ∷ [];
        built = grown-IsBuilt env p.segs start.tools ts m obs r p.built;
        talk = goes_on p.talk (ap (λ ids. env.gen_fn ids w) (sym p.built.ids) ∙ g) said seen;
        few = omega (arith, p.few);
      })

  weaken :
      {n m : ℕ} {r : Rollout} {v : W}
      → n ≤ m
      → Parts env begin start n r v
      → Parts env begin start m r v
  weaken l p = record {
    turn_count = p.turn_count;
    segs = p.segs;
    built = p.built;
    talk = p.talk;
    few = omega (arith, p.few, l);
  }

  carry :
      {n m : ℕ} {r s : Rollout} {w v : W}
      → n ≤ m
      → ◌≡◌ {A = Answer Rollout × W} (ok r, w) (ok s, v)
      → Parts env begin start n r w
      → Parts env begin start m s v
  carry {m} {r} {s} {w} {v} l e p = same (cc e) (cc e)
    where
      same : s ≡ r → v ≡ w → Parts env begin start m s v
      same q f = rw (q, f) (weaken l p)

  turns-Parts :
      (left max_length n : ℕ) (r s : Rollout) (w v : W)
      → turns env left start.tools start.sid max_length r w ≡ (ok s, v)
      → Parts env begin start n r w
      → Parts env begin start (n + left) s v
  unfolding turns
  turns-Parts zero max_length n r s w v e p = carry (omega arith) e p
  turns-Parts (suc left) max_length n r s w v e p =
      let (t, w1, q, f) = and_then_view (turn env start.tools start.sid r w) _ s v e in
      let grown = turn-Parts n r t w w1 q p in
      elim (Bool-cases (stops max_length t)) [
        | inl halt ↦ carry {n = n + 1} {w = w1} {v = v} (omega arith) (ground (arith, halt)) grown
        | inr go ↦
            weaken (omega arith)
              (turns-Parts left max_length (n + 1) t s w1 v (ground (arith, go)) grown)
      ]

-- A rollout that was played from a world on.
abbrev pub Played : {W : Type 0} → Environment W → W → ℕ → Rollout → Type 0
Played {W} env begin most r = (start : Start) × (v : W) × Parts env begin start most r v

pub played-Played :
    {W : Type 0} (env : Environment W) (max_turns max_length : ℕ) (r : Rollout) (w v : W)
    → played env max_turns max_length w ≡ (ok r, v)
    → Played env w max_turns r
unfolding played
played-Played env max_turns max_length r w v e =
    let (start, w1, p, q) = and_then_view (env.start_fn w) _ r v e in
    let (s, w2, p2, q2) =
      and_then_view (turns env max_turns start.tools start.sid max_length (opening env start) w1) _
        r v q in
    let (u, w3, p3, q3) = and_then_view (env.end_fn start.sid s.done w2) _ r v q2 in
    let grown =
      turns-Parts env w start max_turns max_length 0 (opening env start) s w1 w2 p2
        (opening-Parts env w start w1 p) in
    (start, w2, carry env w start {w = w2} {v = w2} (omega arith) (cc q3) grown)
