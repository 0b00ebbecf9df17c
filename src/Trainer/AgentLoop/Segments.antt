-- ===== src/Trainer/AgentLoop/Segments.antt =====
-- What the result of a rollout consists of: the prompt, what the engine generated, what was observed.
use agent_rl.Common.{
  ℕ, ◌+◌, ◌≡◌, refl, List, [], ◌∷◌, ◌++◌, map, String, length, replicate, append_assoc, drop, true,
  false,
}
use agent_rl.Common.Int.{ℤ, pos}
use agent_rl.Trainer.AgentLoop.{
  Answer, ok, runtime_error, exception, Environment, Rollout, generated, observed, turn, and_then,
  reply, Observation, Message, Start,
}

pub data Segment : Type 0 where
  context : List ℕ → Segment
  answer : List (ℤ × ℕ) → Segment

unfoldable pub ids_of : List Segment → List ℕ
ids_of [] = []
ids_of (context ids ∷ segs) = ids ++ ids_of segs
ids_of (answer ts ∷ segs) = map (λ (t : ℤ × ℕ). t.1) ts ++ ids_of segs

-- 1 for the tokens of the engine, 0 for all others
unfoldable pub mask_of : List Segment → List ℕ
mask_of [] = []
mask_of (context ids ∷ segs) = replicate (length ids) 0 ++ mask_of segs
mask_of (answer ts ∷ segs) = replicate (length ts) 1 ++ mask_of segs

unfoldable pub probs_of : List Segment → List ℤ
probs_of [] = []
probs_of (context ids ∷ segs) = replicate (length ids) (pos 0) ++ probs_of segs
probs_of (answer ts ∷ segs) = map (λ (t : ℤ × ℕ). t.0) ts ++ probs_of segs

pub ids_of-append : (xs ys : List Segment) → ids_of (xs ++ ys) ≡ ids_of xs ++ ids_of ys
unfolding ids_of
ids_of-append [] ys = refl
ids_of-append (context ids ∷ xs) ys = rw (ids_of-append xs ys, append_assoc) refl
ids_of-append (answer ts ∷ xs) ys = rw (ids_of-append xs ys, append_assoc) refl

pub mask_of-append : (xs ys : List Segment) → mask_of (xs ++ ys) ≡ mask_of xs ++ mask_of ys
unfolding mask_of
mask_of-append [] ys = refl
mask_of-append (context ids ∷ xs) ys = rw (mask_of-append xs ys, append_assoc) refl
mask_of-append (answer ts ∷ xs) ys = rw (mask_of-append xs ys, append_assoc) refl

pub probs_of-append : (xs ys : List Segment) → probs_of (xs ++ ys) ≡ probs_of xs ++ probs_of ys
unfolding probs_of
probs_of-append [] ys = refl
probs_of-append (context ids ∷ xs) ys = rw (probs_of-append xs ys, append_assoc) refl
probs_of-append (answer ts ∷ xs) ys = rw (probs_of-append xs ys, append_assoc) refl

-- What was said from the world `begin` on, in so many turns: the messages, the segments, and the world
-- by then. It opens with the prompt for what `start_fn` returned. In each turn, the engine answers to
-- the tokens of all segments so far, the answer is read as a message, `obs_fn` observes what the
-- message does, and the tokens that the observed messages add to the conversation are appended.
pub data Conversation {W : Type 0} (env : Environment W) (begin : W) (start : Start)
    : ℕ → List Message → List Segment → W → Type 0 where
  starts :
      {w : W}
      → env.start_fn begin ≡ (ok start, w)
      → Conversation env begin start 0 start.messages
          (context (env.template start.messages start.tools true) ∷ [])
          w
  goes_on :
      {n : ℕ} {history : List Message} {segs : List Segment} {w u v : W} {text : String}
      {ts : List (ℤ × ℕ)} {m : Message} {obs : Observation}
      → Conversation env begin start n history segs w
      → env.gen_fn (ids_of segs) w ≡ (ok (text, ts), u)
      → reply env start.tools text ≡ ok m
      → env.obs_fn m start.sid u ≡ (ok obs, v)
      → Conversation env begin start
          (n + 1)
          ((history ++ m ∷ []) ++ obs.messages)
          (segs
            ++ answer ts
              ∷ context (
                  drop
                    (length (env.template (history ++ m ∷ []) start.tools false))
                    (env.template ((history ++ m ∷ []) ++ obs.messages) start.tools true))
              ∷ [])
          v

-- A rollout made of segments.
pub record IsBuilt (segs : List Segment) (r : Rollout) : Type 0 where
  pub ids : r.ids ≡ ids_of segs
  pub mask : r.loss_mask ≡ mask_of segs
  pub probs : r.log_probs ≡ probs_of segs

-- The parts of a call chain that returned.
pub and_then_view :
    {A B W : Type 0} (x : Answer A × W) (k : A → W → Answer B × W) (b : B) (v : W)
    → and_then x k ≡ (ok b, v)
    → (a : A) × (w : W) × (x ≡ (ok a, w)) × (k a w ≡ (ok b, v))
unfolding and_then
and_then_view (ok a, w) k b v e = (a, w, refl, e)
and_then_view {A} {B} (runtime_error, w) k b v e = cc e
and_then_view {A} {B} (exception, w) k b v e = cc e

module _ {W : Type 0} (env : Environment W) where
  pub turn_view :
      (tools : List String) (sid : ℕ) (r s : Rollout) (w v : W)
      → turn env tools sid r w ≡ (ok s, v)
      → (text : String) × (ts : List (ℤ × ℕ)) × (u : W) × (m : Message) × (obs : Observation)
        × (env.gen_fn r.ids w ≡ (ok (text, ts), u))
        × (reply env tools text ≡ ok m)
        × (env.obs_fn m sid u ≡ (ok obs, v))
        × (s ≡ observed env tools obs (generated ts m r))
  unfolding turn
  turn_view tools sid r s w v e =
      let (got, u, p, q) = and_then_view (env.gen_fn r.ids w) _ s v e in
      let (m, u2, p2, q2) = and_then_view (reply env tools got.0, u) _ s v q in
      let (obs, u3, p3, q3) = and_then_view (env.obs_fn m sid u2) _ s v q2 in
      (got.0, got.1, u, m, obs, p, cc p2, cc (p2, p3, q3), cc q3)
