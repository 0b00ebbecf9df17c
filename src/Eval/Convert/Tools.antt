-- ===== src/Eval/Convert/Tools.antt =====
-- eval/src/agentrl/eval/convert/tools.py: definitions of tools in three formats.
pub mod Agree
mod Tests
use agent_rl.Common.{Bool, false, Option, none, some, String}

-- The parameters are a JSON schema of any kind.
pub record ChatTool (J : Type 0) : Type 0 where
  pub name : String
  pub description : Option String
  pub parameters : J
  pub strict : Option Bool

pub record ResponseTool (J : Type 0) : Type 0 where
  pub name : String
  pub description : Option String
  pub parameters : J
  pub strict : Bool

pub record AnthropicTool (J : Type 0) : Type 0 where
  pub name : String
  pub description : Option String
  pub input_schema : J

-- `get('description', '')`
abbrev pub described : Option String → Option String
described none = some ""
described (some d) = some d

module _ {J : Type 0} where
  -- `OpenAIChatCompletionFunctionDefinition`
  unfoldable pub chat_to_response : ChatTool J → ResponseTool J
  chat_to_response t = record {
    name = t.name;
    description = described t.description;
    parameters = t.parameters;
    strict = false;
  }

  unfoldable pub chat_to_anthropic : ChatTool J → AnthropicTool J
  chat_to_anthropic t = record {
    name = t.name;
    description = described t.description;
    input_schema = t.parameters;
  }

  -- `OpenAIResponseFunctionDefinition`
  unfoldable pub response_to_chat : ResponseTool J → ChatTool J
  response_to_chat t = record {
    name = t.name;
    description = described t.description;
    parameters = t.parameters;
    strict = some false;
  }

  unfoldable pub response_to_anthropic : ResponseTool J → AnthropicTool J
  response_to_anthropic t = record {
    name = t.name;
    description = described t.description;
    input_schema = t.parameters;
  }

  -- `AnthropicMessageFunctionDefinition`
  unfoldable pub anthropic_to_chat : AnthropicTool J → ChatTool J
  anthropic_to_chat t = record {
    name = t.name;
    description = described t.description;
    parameters = t.input_schema;
    strict = some false;
  }

  unfoldable pub anthropic_to_response : AnthropicTool J → ResponseTool J
  anthropic_to_response t = record {
    name = t.name;
    description = described t.description;
    parameters = t.input_schema;
    strict = false;
  }
