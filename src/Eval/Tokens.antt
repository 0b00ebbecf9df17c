-- ===== src/Eval/Tokens.antt =====
-- eval/src/agentrl/eval/session/tokens.py: the counter of used tokens.
pub mod Totals
mod Tests
use agent_rl.Common.{ℕ, zero, suc, ◌+◌, Bool, Option, none, some, List, [], ◌∷◌, if◌then◌else◌}

-- The details of a usage; `none` is an attribute that is missing or None.
pub record Details : Type 0 where
  pub cached_tokens : Option ℕ
  pub image_tokens : Option ℕ
  pub reasoning_tokens : Option ℕ

-- What any of the usage types has. The attribute `input_token_details`, without an s, is asked for.
pub record Usage : Type 0 where
  pub input_tokens : Option ℕ
  pub prompt_tokens : Option ℕ
  pub prompt_tokens_details : Option Details
  pub has_input_token_details : Bool
  pub input_tokens_details : Option Details
  pub cache_read_input_tokens : Option ℕ
  pub output_tokens : Option ℕ
  pub completion_tokens : Option ℕ
  pub completion_tokens_details : Option Details
  pub output_tokens_details : Option Details

pub record TokenCounter : Type 0 where
  pub input : ℕ
  pub input_cached : ℕ
  pub input_image : ℕ
  pub output : ℕ
  pub output_thinking : ℕ

abbrev pub new_counter : TokenCounter
new_counter = record {
  input = 0;
  input_cached = 0;
  input_image = 0;
  output = 0;
  output_thinking = 0;
}

-- The number, or 0
abbrev pub count : Option ℕ → ℕ
count none = 0
count (some n) = n

-- The first number if it is there and not 0, else the second
abbrev pub either_count : Option ℕ → Option ℕ → ℕ
either_count (some (suc n)) other = suc n
either_count (some zero) other = count other
either_count none other = count other

abbrev pub add_input_details : Details → TokenCounter → TokenCounter
add_input_details d c = record c {
  input_cached = c.input_cached + count d.cached_tokens;
  input_image = c.input_image + count d.image_tokens;
}

-- What follows where there are no details of the prompt
abbrev pub add_other_details : Usage → TokenCounter → TokenCounter
add_other_details u c =
    let cache_read = record c { input_cached = c.input_cached + count u.cache_read_input_tokens } in
    elim u.input_tokens_details [
      | none ↦ cache_read
      | some d ↦ if u.has_input_token_details then add_input_details d c else cache_read
    ]

unfoldable pub add_details : Usage → TokenCounter → TokenCounter
add_details u c = elim u.prompt_tokens_details [
  | none ↦ add_other_details u c
  | some d ↦ add_input_details d c
]

unfoldable pub thinking : Usage → ℕ
thinking u = elim u.completion_tokens_details [
  | some d ↦ count d.reasoning_tokens
  | none ↦ elim u.output_tokens_details [ none ↦ 0 | some d ↦ count d.reasoning_tokens ]
]

-- `add_from_usage`
unfoldable pub add_from_usage : Usage → TokenCounter → TokenCounter
add_from_usage u c =
    let d =
      add_details u (record c { input = c.input + either_count u.input_tokens u.prompt_tokens }) in
    record d {
      output = d.output + either_count u.output_tokens u.completion_tokens;
      output_thinking = d.output_thinking + thinking u;
    }

unfoldable pub add_all : List Usage → TokenCounter → TokenCounter
add_all [] c = c
add_all (u ∷ us) c = add_all us (add_from_usage u c)

-- The entry `total` of `total`
abbrev pub total_of : TokenCounter → ℕ
total_of c = c.input + c.output
