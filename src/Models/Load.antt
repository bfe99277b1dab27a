-- ===== src/Models/Load.antt =====
-- How the limits of a model are loaded: `_env_int`, `from_env`, `__post_init__` and `get_model_config`.
use Prim.Native.String.{◌++◌ as ◌<>◌}
use pool_gate.Common.{zero, suc, String, Option, none, some, List, [], ◌∷◌}
use pool_gate.Int.{ℤ, pos, negsuc}
use pool_gate.Dict.{get}
use pool_gate.Result.{
  Result, ok, err, ◌>>=◌, environment_parse_error, invalid_rate_limit, unknown_model,
}
use pool_gate.Models.{ModelRateLimitConfig, ModelClass, Env}
use pool_gate.Models.Table.{model_registry}

-- `_env_int`
abbrev pub read_int : String → Option ℤ → Option (Option ℤ) → Result (Option ℤ)
read_int var default none = ok default
read_int var default (some none) = err (environment_parse_error var)
read_int var default (some (some z)) = ok (some z)

unfoldable pub env_int : Env → String → Option ℤ → Result (Option ℤ)
env_int env var default = read_int var default (env var)

-- A field of `__post_init__`: it is missing or positive.
abbrev pub check_field : String → Option ℤ → Result (Unit {0})
check_field name none = ok tt
check_field name (some (pos zero)) = err (invalid_rate_limit name)
check_field name (some (pos (suc n))) = ok tt
check_field name (some (negsuc n)) = err (invalid_rate_limit name)

unfoldable pub check_fields : List (String × Option ℤ) → Result (Unit {0})
check_fields [] = ok tt
check_fields ((name, value) ∷ fields) = check_field name value >>= λ _. check_fields fields

abbrev pub fields_of : ModelRateLimitConfig → List (String × Option ℤ)
fields_of c =
    ("requests_per_minute", c.requests_per_minute)
    ∷ ("requests_per_day", c.requests_per_day)
    ∷ ("tokens_per_minute", c.tokens_per_minute)
    ∷ ("tokens_per_day", c.tokens_per_day)
    ∷ ("audio_seconds_per_hour", c.audio_seconds_per_hour)
    ∷ ("audio_seconds_per_day", c.audio_seconds_per_day)
    ∷ ("input_tokens_per_minute", c.input_tokens_per_minute)
    ∷ ("output_tokens_per_minute", c.output_tokens_per_minute)
    ∷ ("context_window", c.context_window)
    ∷ ("max_output_tokens", c.max_output_tokens)
    ∷ []

-- `__post_init__`, which ends every construction.
unfoldable pub constructed : ModelRateLimitConfig → Result ModelRateLimitConfig
constructed c = check_fields (fields_of c) >>= λ _. ok c

-- `from_env`
unfoldable pub from_env : Env → ModelClass → Result ModelRateLimitConfig
from_env env model =
    let p = model.env_prefix in
    let d = model.defaults in
    env_int env (p <> "_REQUESTS_PER_MINUTE") d.requests_per_minute >>= λ requests_per_minute.
    env_int env (p <> "_REQUESTS_PER_DAY") d.requests_per_day >>= λ requests_per_day.
    env_int env (p <> "_TOKENS_PER_MINUTE") d.tokens_per_minute >>= λ tokens_per_minute.
    env_int env (p <> "_TOKENS_PER_DAY") d.tokens_per_day >>= λ tokens_per_day.
    env_int env (p <> "_AUDIO_SECONDS_PER_HOUR") d.audio_seconds_per_hour
    >>= λ audio_seconds_per_hour.
        env_int env (p <> "_AUDIO_SECONDS_PER_DAY") d.audio_seconds_per_day
        >>= λ audio_seconds_per_day.
            env_int env (p <> "_INPUT_TOKENS_PER_MINUTE") d.input_tokens_per_minute
            >>= λ input_tokens_per_minute.
                env_int env (p <> "_OUTPUT_TOKENS_PER_MINUTE") d.output_tokens_per_minute
                >>= λ output_tokens_per_minute. constructed (record d {
                  requests_per_minute = requests_per_minute;
                  requests_per_day = requests_per_day;
                  tokens_per_minute = tokens_per_minute;
                  tokens_per_day = tokens_per_day;
                  audio_seconds_per_hour = audio_seconds_per_hour;
                  audio_seconds_per_day = audio_seconds_per_day;
                  input_tokens_per_minute = input_tokens_per_minute;
                  output_tokens_per_minute = output_tokens_per_minute;
                })

unfoldable pub get_model_config : Env → String → Result ModelRateLimitConfig
get_model_config env model_id = elim (get model_registry model_id) [
  | none ↦ err (unknown_model model_id)
  | some model ↦ from_env env model
]

-- `_max_rpm_for_model` of the scheduler: any exception counts as no limit.
abbrev pub rpm_of : Result ModelRateLimitConfig → Option ℤ
rpm_of (ok c) = c.requests_per_minute
rpm_of (err e) = none

unfoldable pub max_rpm_for_model : Env → String → Option ℤ
max_rpm_for_model env model = rpm_of (get_model_config env model)
