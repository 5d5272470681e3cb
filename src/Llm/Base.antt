-- ===== src/Llm/Base.antt =====
-- backend/llm/base.py: what goes to the gateway and what comes back.
-- A temperature is in tenths, and a moment is a number.
use vectural.Prelude.{ℕ, ◌+◌, Bool, Option, String}
use vectural.Domain.{TaskType, Persona}

pub data ModelName : Type 0 where
  haiku sonnet : ModelName

unfoldable pub model_value : ModelName → String
model_value haiku = "haiku"
model_value sonnet = "sonnet"

pub record GatewayRequest : Type 0 where
  pub model : ModelName
  pub prompt : String
  pub system : Option String
  pub json_mode : Bool
  pub temperature : ℕ
  pub max_tokens : ℕ
  pub task_type : TaskType
  pub prompt_version : String
  pub model_override : Option String
  pub override_uses_max_completion_tokens : Bool
  pub override_supports_temperature : Bool
  pub override_reasoning_effort : Option String

pub record GatewayResult : Type 0 where
  pub text : String
  pub input_tokens : ℕ
  pub output_tokens : ℕ
  pub model : String

pub record UsageRecord : Type 0 where
  pub task_type : TaskType
  pub persona : Option Persona
  pub model : ModelName
  pub model_id : String
  pub prompt_version : String
  pub input_tokens : ℕ
  pub output_tokens : ℕ
  pub at : ℕ

unfoldable pub total_tokens : UsageRecord → ℕ
total_tokens u = u.input_tokens + u.output_tokens
