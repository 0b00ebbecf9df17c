-- ===== src/Eval/Tokens/Tests.antt =====
-- Usages of a chat completion and of a response.
use agent_rl.Common.{◌≡◌, refl, false, none, some}
use agent_rl.Eval.Tokens.{Usage, Details, new_counter, add_from_usage, add_details}

abbrev cached : Details
cached = record { cached_tokens = some 5; image_tokens = none; reasoning_tokens = none }

abbrev of_chat : Usage
of_chat = record {
  input_tokens = none;
  prompt_tokens = some 20;
  prompt_tokens_details = some cached;
  has_input_token_details = false;
  input_tokens_details = none;
  cache_read_input_tokens = none;
  output_tokens = none;
  completion_tokens = some 4;
  completion_tokens_details = none;
  output_tokens_details = none;
}

abbrev of_response : Usage
of_response = record {
  input_tokens = some 30;
  prompt_tokens = none;
  prompt_tokens_details = none;
  has_input_token_details = false;
  input_tokens_details = some cached;
  cache_read_input_tokens = none;
  output_tokens = some 6;
  completion_tokens = none;
  completion_tokens_details = none;
  output_tokens_details = none;
}

-- The cached tokens of a response are not counted.
cached_ignored : (add_from_usage of_response new_counter).input_cached ≡ 0
unfolding add_from_usage add_details
cached_ignored = refl
