-- ===== src/Trainer/AgentLoop.antt =====
-- trainer/src/agentrl/trainer/agentic/loops.py: the loop in which a model acts in an environment, and
-- its retries. The environment, the engine, the tokenizer and the parser of tool calls are an
-- interface over a state of the world that every call may change.
pub mod Segments
pub mod Parts
pub mod Shape
pub mod Retry
mod Tests
use agent_rl.Common.{
  ℕ, zero, suc, ◌+◌, ◌≡◌, Bool, true, false, ◌||◌, Option, none, some, List, [], ◌∷◌, ◌++◌, map,
  String, string_eq, beq, length, take, drop, replicate, leb, ◌==◌, if◌then◌else◌, ◌&&◌,
}
use agent_rl.Common.Int.{ℤ, pos, negsuc, ◌+ℤ◌}
use agent_rl.Common.Table.{Table, get, put}

-- What a call of the interface returns: a value, a RuntimeError, or another exception.
pub data Answer (A : Type 0) : Type 0 where
  ok : A → Answer A
  runtime_error : Answer A
  exception : Answer A

pub record ToolCall : Type 0 where
  pub id : ℕ
  pub name : String
  pub arguments : String

pub data Message : Type 0 where
  given : String → Message
  assistant : (content : String) → (tool_calls : Option (List ToolCall)) → Message

-- Rewards and log probabilities are only passed on and added up; integers stand for the floats.
pub record Start : Type 0 where
  pub messages : List Message
  pub tools : List String
  pub sid : ℕ
  pub metrics : Table String ℤ

pub record Observation : Type 0 where
  pub messages : List Message
  pub finish : Bool
  pub reward : ℤ
  pub status : String
  pub metrics : Table String ℤ

pub record Environment (W : Type 0) : Type 0 where
  pub start_fn : W → Answer Start × W
  -- the text, and a log probability and an id for each token of it
  pub gen_fn : List ℕ → W → Answer (String × List (ℤ × ℕ)) × W
  pub obs_fn : Message → ℕ → W → Answer Observation × W
  pub end_fn : ℕ → Bool → W → Answer Unit × W
  -- apply_chat_template, with the tools and with or without the generation prompt
  pub template : List Message → List String → Bool → List ℕ
  -- whether Tool.model_validate or FunctionCallParser raises
  pub make_parser : List String → Answer Unit
  -- parse_non_stream; `none` is any exception
  pub parse : List String → String → Option (String × List ToolCall)

-- The local variables of the loop.
pub record Rollout : Type 0 where
  pub history : List Message
  pub ids : List ℕ
  pub loss_mask : List ℕ
  pub log_probs : List ℤ
  pub done : Bool
  pub reward : ℤ
  pub status : String
  pub obs_metrics : Table String ℤ

unfoldable pub collect_metrics : Table String ℤ → Table String ℤ → Table String ℤ
collect_metrics [] tgt = tgt
collect_metrics ((k, v) ∷ src) tgt =
    let rest = collect_metrics src tgt in
    let added = collect_metrics src (put k (elim (get k tgt) [ none ↦ v | some u ↦ u +ℤ v ]) tgt) in
    if beq k "score" then rest else added

-- The assistant's message for a text; only what `parse_non_stream` raises is caught.
unfoldable pub reply : {W : Type 0} → Environment W → List String → String → Answer Message
reply env [] text = ok (assistant text none)
reply env (t ∷ ts) text = elim (env.make_parser (t ∷ ts)) [
  | ok u ↦ elim (env.parse (t ∷ ts) text) [
    | none ↦ ok (assistant text (some []))
    | some (normal_text, info_list) ↦ ok (assistant normal_text (some info_list))
  ]
  | runtime_error ↦ runtime_error
  | exception ↦ exception
]

unfoldable pub generated : List (ℤ × ℕ) → Message → Rollout → Rollout
generated received message r = record r {
  ids = r.ids ++ map (λ (t : ℤ × ℕ). t.1) received;
  loss_mask = r.loss_mask ++ replicate (length received) 1;
  log_probs = r.log_probs ++ map (λ (t : ℤ × ℕ). t.0) received;
  history = r.history ++ message ∷ [];
}

-- The tokens that the observation adds: `now[len(last):]`
unfoldable pub difference :
    {W : Type 0} → Environment W → List String → List Message → List Message → List ℕ
difference env tools history messages =
    drop (length (env.template history tools false)) (env.template (history ++ messages) tools true)

unfoldable pub observed :
    {W : Type 0} → Environment W → List String → Observation → Rollout → Rollout
observed env tools obs r =
    let diff = difference env tools r.history obs.messages in
    record {
      history = r.history ++ obs.messages;
      ids = r.ids ++ diff;
      loss_mask = r.loss_mask ++ replicate (length diff) 0;
      log_probs = r.log_probs ++ replicate (length diff) (pos 0);
      done = obs.finish;
      reward = obs.reward;
      status = obs.status;
      obs_metrics = collect_metrics obs.metrics r.obs_metrics;
    }

-- An exception goes through, and leaves the world as it is by then.
unfoldable pub and_then : {A B W : Type 0} → Answer A × W → (A → W → Answer B × W) → Answer B × W
and_then (ok a, w) k = k a w
and_then (runtime_error, w) k = (runtime_error, w)
and_then (exception, w) k = (exception, w)

-- `done or len(ids) >= max_length`
abbrev pub stops : ℕ → Rollout → Bool
stops max_length r = r.done || leb max_length (length r.ids)

module _ {W : Type 0} (env : Environment W) where
  unfoldable pub opening : Start → Rollout
  opening start =
      let ids = env.template start.messages start.tools true in
      record {
        history = start.messages;
        ids = ids;
        loss_mask = replicate (length ids) 0;
        log_probs = replicate (length ids) (pos 0);
        done = false;
        reward = pos 0;
        status = "";
        obs_metrics = collect_metrics start.metrics [];
      }

  -- One turn of the loop, up to its `break`.
  unfoldable pub turn : List String → ℕ → Rollout → W → Answer Rollout × W
  turn tools sid r w = and_then (env.gen_fn r.ids w) (λ got w1.
      and_then (reply env tools got.0, w1)
        (λ message w2.
          and_then (env.obs_fn message sid w2)
            (λ obs w3. (ok (observed env tools obs (generated got.1 message r)), w3))))

  -- The loop, on the turns left.
  unfoldable pub turns : ℕ → List String → ℕ → ℕ → Rollout → W → Answer Rollout × W
  turns zero tools sid max_length r w = (ok r, w)
  turns (suc left) tools sid max_length r w = and_then (turn tools sid r w) (λ s v.
      let rest = turns left tools sid max_length s v in
      if stops max_length s then (ok s, v) else rest)

pub record Sample : Type 0 where
  pub seq_len : ℕ
  pub loss_tokens : ℕ
  pub input_ids : List ℕ
  pub loss_mask : List ℕ
  pub position_ids : List ℕ
  pub rollout_log_prob : List ℤ
  pub reward : ℤ
  pub metrics : Table String ℤ
  pub history : List Message

unfoldable pub sum : List ℕ → ℕ
sum [] = 0
sum (n ∷ ns) = n + sum ns

unfoldable pub arange_from : ℕ → ℕ → List ℕ
arange_from i zero = []
arange_from i (suc n) = i ∷ arange_from (i + 1) n

abbrev pub min_of : ℕ → ℕ → ℕ
min_of a b = if leb a b then a else b

-- `int(reward == 1)`
abbrev pub pass_rate : ℤ → ℤ
pass_rate (pos n) = if n == 1 then pos 1 else pos 0
pass_rate (negsuc n) = pos 0

unfoldable pub sample : ℕ → ℤ → Rollout → Sample
sample max_length incomplete_punishment r = record {
  seq_len = length (take max_length r.ids);
  loss_tokens = sum (take max_length r.loss_mask);
  input_ids = take max_length r.ids;
  loss_mask = take max_length r.loss_mask;
  position_ids = arange_from 0 (min_of max_length (length r.ids));
  rollout_log_prob = take max_length r.log_probs;
  reward = if beq r.status "completed" then r.reward else incomplete_punishment;
  metrics = put "pass_rate" (pass_rate r.reward) r.obs_metrics;
  history = r.history;
}

-- How a call of the loop ends.
pub data Outcome : Type 0 where
  returns : Sample → Outcome
  raises_runtime_error : Outcome
  raises : Outcome
  fails_assertion : Outcome

module _ {W : Type 0} (env : Environment W) where
  -- After `end_fn`: the assertion and the result.
  unfoldable pub conclude : ℕ → ℤ → Rollout → Outcome
  conclude max_length incomplete_punishment r =
      if length r.ids == length r.loss_mask && length r.loss_mask == length r.log_probs
      then returns (sample max_length incomplete_punishment r)
      else fails_assertion

  -- From the start to the return of `end_fn`.
  unfoldable pub played : ℕ → ℕ → W → Answer Rollout × W
  played max_turns max_length w = and_then (env.start_fn w) (λ start w1.
      and_then (turns env max_turns start.tools start.sid max_length (opening env start) w1)
        (λ r w2. and_then (env.end_fn start.sid r.done w2) (λ u w3. (ok r, w3))))

  unfoldable pub openai_chat_agent_loop : ℕ → ℕ → ℤ → W → Outcome × W
  openai_chat_agent_loop max_turns max_length incomplete_punishment w =
      let (a, v) = played max_turns max_length w in
      elim a [
        | ok r ↦ (conclude max_length incomplete_punishment r, v)
        | runtime_error ↦ (raises_runtime_error, v)
        | exception ↦ (raises, v)
      ]

  -- The retries, on the tries left.
  unfoldable pub retry_openai_chat_agent_loop : ℕ → ℕ → ℕ → ℤ → W → Option Sample × W
  retry_openai_chat_agent_loop zero max_turns max_length incomplete_punishment w = (none, w)
  retry_openai_chat_agent_loop (suc tries) max_turns max_length incomplete_punishment w =
      let (o, v) = openai_chat_agent_loop max_turns max_length incomplete_punishment w in
      let again = retry_openai_chat_agent_loop tries max_turns max_length incomplete_punishment v in
      elim o [
        | returns s ↦ (some s, v)
        | raises_runtime_error ↦ (none, v)
        | raises ↦ again
        | fails_assertion ↦ again
      ]
