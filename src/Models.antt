-- ===== src/Models.antt =====
-- The limits of the models in poolgate/providers/groq/models.py, and how the scheduler reads them in
-- `_max_rpm_for_model` of poolgate/pool/scheduler.py. The environment gives for each variable that is
-- set what `int` reads there, if it reads an integer.
pub mod Table
pub mod Load
pub mod Limits
pub mod Agree
use pool_gate.Common.{
  ℕ, zero, suc, String, Bool, true, false, Option, none, some, List, [], ◌∷◌, if◌then◌else◌,
}
use pool_gate.Int.{ℤ, pos, negsuc}

pub record ModelRateLimitConfig : Type 0 where
  pub model_id : String
  pub plan : String
  pub requests_per_minute : Option ℤ
  pub requests_per_day : Option ℤ
  pub tokens_per_minute : Option ℤ
  pub tokens_per_day : Option ℤ
  pub audio_seconds_per_hour : Option ℤ
  pub audio_seconds_per_day : Option ℤ
  pub input_tokens_per_minute : Option ℤ
  pub output_tokens_per_minute : Option ℤ
  pub context_window : Option ℤ
  pub max_output_tokens : Option ℤ

-- A class of the module.
pub record ModelClass : Type 0 where
  pub env_prefix : String
  pub defaults : ModelRateLimitConfig

-- The defaults of `ModelRateLimitConfig`, with the plan that every model has.
abbrev pub no_limits : ModelRateLimitConfig
no_limits = record {
  model_id = "";
  plan = "free";
  requests_per_minute = none;
  requests_per_day = none;
  tokens_per_minute = none;
  tokens_per_day = none;
  audio_seconds_per_hour = none;
  audio_seconds_per_day = none;
  input_tokens_per_minute = none;
  output_tokens_per_minute = none;
  context_window = none;
  max_output_tokens = none;
}

-- `os.environ.get` of a variable, and `int` of its text.
abbrev pub Env : Type 0
Env = String → Option (Option ℤ)
