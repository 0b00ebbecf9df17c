-- ===== src/Trainer/AgentLoop/Tests.antt =====
-- One turn with an engine that says one token, and retries after a failed start.
use agent_rl.Common.{
  ℕ, zero, suc, ◌≤◌, ◌≡◌, ◌≢◌, ◌↔◌, refl, Bool, true, false, none, some, List, [], ◌∷◌, take,
  length, String,
}
use agent_rl.Common.Int.{pos, negsuc}
use agent_rl.Common.Table.{put}
use agent_rl.Trainer.AgentLoop.{
  ok, exception, Start, Message, given, assistant, Environment, Sample, returns, fails_assertion,
  openai_chat_agent_loop, retry_openai_chat_agent_loop, opening, turn, turns, and_then, generated,
  observed, difference, reply, sample, conclude, played, collect_metrics, sum, arange_from,
}
use agent_rl.Trainer.AgentLoop.Segments.{Segment, ids_of, mask_of, probs_of, Conversation}
use agent_rl.Trainer.AgentLoop.Shape.{loop-asserts, rollout_segments, rollout_aligned}
use agent_rl.Trainer.AgentLoop.Retry.{retry_iff, Finds}

-- One token for each message, and one more for the generation prompt.
abbrev tokens : List Message → List String → Bool → List ℕ
tokens [] tools false = []
tokens [] tools true = 99 ∷ []
tokens (m ∷ ms) tools g = 7 ∷ tokens ms tools g

-- The world counts the starts; the first of them fails.
abbrev world : Environment ℕ
world = record {
  start_fn = λ n. elim n [
    | zero ↦ (exception, 1)
    | suc k ↦
        (ok (record { messages = given "hello" ∷ []; tools = []; sid = 4; metrics = [] }), suc k)
  ];
  gen_fn = λ ids w. (ok ("hi", (negsuc 2, 5) ∷ []), w);
  obs_fn = λ m sid w. (
    ok (record {
      messages = given "done" ∷ [];
      finish = true;
      reward = pos 1;
      status = "completed";
      metrics = [];
    }),
    w,
  );
  end_fn = λ sid done w. (ok tt, w);
  template = tokens;
  make_parser = λ tools. exception;
  parse = λ tools text. none;
}

abbrev result : Sample
result = record {
  seq_len = 4;
  loss_tokens = 1;
  input_ids = 7 ∷ 99 ∷ 5 ∷ 7 ∷ [];
  loss_mask = 0 ∷ 0 ∷ 1 ∷ 0 ∷ [];
  position_ids = 0 ∷ 1 ∷ 2 ∷ 3 ∷ [];
  rollout_log_prob = pos 0 ∷ pos 0 ∷ negsuc 2 ∷ pos 0 ∷ [];
  reward = pos 1;
  metrics = ("pass_rate", pos 1) ∷ [];
  history = given "hello" ∷ assistant "hi" none ∷ given "done" ∷ [];
}

one_turn : (openai_chat_agent_loop world 3 4 (pos 0) 1).0 ≡ returns result
unfolding openai_chat_agent_loop played turns turn and_then opening generated observed difference
    reply conclude sample collect_metrics sum arange_from put
one_turn = refl

loop-asserts_example : (openai_chat_agent_loop world 3 4 (pos 0) 1).0 ≢ fails_assertion
loop-asserts_example = loop-asserts world 3 4 (pos 0) 1

rollout_segments_example :
    (start : Start) × (n : ℕ) × (segs : List Segment) × (v : ℕ) × Conversation world 1 start n
      result.history segs v
    × (n ≤ 3)
    × (result.input_ids ≡ take 4 (ids_of segs))
    × (result.loss_mask ≡ take 4 (mask_of segs))
    × (result.rollout_log_prob ≡ take 4 (probs_of segs))
rollout_segments_example = rollout_segments world 3 4 (pos 0) 1 result one_turn

rollout_aligned_example :
    (length result.input_ids ≡ result.seq_len)
    × (length result.loss_mask ≡ result.seq_len)
    × (length result.rollout_log_prob ≡ result.seq_len)
    × (length result.position_ids ≡ result.seq_len)
    × (result.seq_len ≤ 4)
rollout_aligned_example = rollout_aligned world 3 4 (pos 0) 1 result one_turn

retry_iff_example :
    ((retry_openai_chat_agent_loop world 2 3 4 (pos 0) 0).0 ≡ some result)
    ↔ Finds world 3 4 (pos 0) 2 result 0
retry_iff_example = retry_iff world 3 4 (pos 0) 2 result 0
