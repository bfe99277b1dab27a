-- ===== src/Result.antt =====
-- The exceptions of poolgate/exceptions that the modelled code raises, and what a call returns or
-- raises.
use pool_gate.Common.{String}

pub data Error : Type 0 where
  -- `APIKeyError`, with the unknown key id
  api_key_error : String → Error
  no_available_api_key : Error
  api_key_disabled : String → Error
  unknown_scheduling_strategy : String → Error
  session_expired : String → Error
  capability_error : String → Error
  missing_prompt : Error
  -- `InvalidMessageRoleError`, with the role
  invalid_message_role : String → Error
  -- `EnvironmentParseError`, with the variable
  environment_parse_error : String → Error
  -- `InvalidRateLimitConfigError`, with the field
  invalid_rate_limit : String → Error
  -- `UnknownModelError`
  unknown_model : String → Error
  -- pydantic's `ValidationError`
  validation_error : Error
  value_error : Error
  index_error : Error
  -- `KeyError` of a dict, with the key
  key_error : String → Error
  persistence_error : Error

pub data Result {ℓ} (A : Type ℓ) : Type ℓ where
  ok : A → Result A
  err : Error → Result A

infixl 5 ◌>>=◌
abbrev pub ◌>>=◌ {ℓ κ} : {A : Type ℓ} {B : Type κ} → Result A → (A → Result B) → Result B
ok a >>= g = g a
err e >>= g = err e
