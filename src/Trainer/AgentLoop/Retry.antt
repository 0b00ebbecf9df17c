-- ===== src/Trainer/AgentLoop/Retry.antt =====
-- The retries: whose result they return.
use agent_rl.Common.{ℕ, zero, suc, ◌<◌, ◌≡◌, refl, some, ◌↔◌, arith}
use agent_rl.Common.Int.{ℤ}
use agent_rl.Trainer.AgentLoop.{
  Environment, Sample, Outcome, returns, raises, raises_runtime_error, fails_assertion,
  openai_chat_agent_loop, retry_openai_chat_agent_loop,
}
use agent_rl.Trainer.AgentLoop.Shape.{loop-asserts}

module _ {W : Type 0} (env : Environment W) (max_turns max_length : ℕ) (punishment : ℤ) where
  abbrev pub call : W → Outcome × W
  call w = openai_chat_agent_loop env max_turns max_length punishment w

  -- So many calls in a row raise an exception that is no RuntimeError.
  abbrev pub IsRaising : ℕ → W → Type 0
  IsRaising zero w = Unit {0}
  IsRaising (suc k) w = ((call w).0 ≡ raises) × IsRaising k (call w).1

  abbrev pub world_after : ℕ → W → W
  world_after zero w = w
  world_after (suc k) w = world_after k (call w).1

  abbrev pub Finds : ℕ → Sample → W → Type 0
  Finds tries s w = (k : ℕ) × (k < tries) × IsRaising k w × ((call (world_after k w)).0 ≡ returns s)

  retry-Finds :
      (tries : ℕ) (s : Sample) (w : W)
      → (retry_openai_chat_agent_loop env tries max_turns max_length punishment w).0 ≡ some s
      → Finds tries s w
  unfolding retry_openai_chat_agent_loop
  retry-Finds zero s w e = cc e
  retry-Finds (suc tries) s w e = by_outcome (λ e. retry-Finds tries s (call w).1 e) (call w).0 refl
    where
      by_outcome :
          ((retry_openai_chat_agent_loop env tries max_turns max_length punishment (call w).1).0
              ≡ some s
            → Finds tries s (call w).1)
          → (o : Outcome) → (call w).0 ≡ o
          → Finds (suc tries) s w
      by_outcome again (returns t) q = (0, omega arith, tt, ground (arith, q))
      by_outcome again raises_runtime_error q = absurd (ground (arith, q))
      by_outcome again raises q =
          let (k, l, r, f) = again (ground (arith, q)) in (suc k, omega arith, (q, r), f)
      by_outcome again fails_assertion q =
          absurd (loop-asserts env max_turns max_length punishment w q)

  Finds-retry :
      (tries : ℕ) (s : Sample) (w : W) (k : ℕ)
      → k < tries
      → IsRaising k w
      → (call (world_after k w)).0 ≡ returns s
      → (retry_openai_chat_agent_loop env tries max_turns max_length punishment w).0 ≡ some s
  unfolding retry_openai_chat_agent_loop
  Finds-retry zero s w k l r f = absurd (omega arith)
  Finds-retry (suc tries) s w zero l r f = ground (arith, f)
  Finds-retry (suc tries) s w (suc k) l r f =
      ground (arith, r.0, Finds-retry tries s (call w).1 k (omega arith) r.1 f)

  -- The retries return a sample exactly when, within the tries, it is that of a call before which
  -- every call raised an exception that is no RuntimeError: a RuntimeError ends them at once.
  pub retry_iff :
      (tries : ℕ) (s : Sample) (w : W)
      → ((retry_openai_chat_agent_loop env tries max_turns max_length punishment w).0 ≡ some s)
        ↔ Finds tries s w
  retry_iff tries s w = (λ e. retry-Finds tries s w e, λ f. Finds-retry tries s w f.0 f.1 f.2 f.3)
