-- ===== src/Models/Limits.antt =====
-- The limits that a model gets: from the environment where it sets them, and otherwise the defaults.
use Prim.Native.String.{◌++◌ as ◌<>◌}
use pool_gate.Common.{
  drop, zero, suc, ◌≡◌, refl, ◌≢◌, sym, subst, ap, String, Option, none, some, List, [], ◌∷◌, ◌⊎◌,
  inl, inr, All, Elem, here, there, Option-cases, ◌∙◌,
}
use pool_gate.Int.{ℤ, pos, negsuc}
use pool_gate.Dict.{get}
use pool_gate.Result.{
  Result, ok, err, ◌>>=◌, environment_parse_error, invalid_rate_limit, unknown_model,
}
use pool_gate.Models.{ModelRateLimitConfig, ModelClass, Env}
use pool_gate.Models.Table.{model_registry}
use pool_gate.Models.Load.{
  read_int, env_int, check_fields, fields_of, constructed, from_env, get_model_config, rpm_of,
  max_rpm_for_model,
}

-- The integer that a variable is set to, or the default.
abbrev pub pick : Option ℤ → Option (Option ℤ) → Option ℤ
pick default none = default
pick default (some none) = default
pick default (some (some z)) = some z

abbrev pub configured : Env → ModelClass → ModelRateLimitConfig
configured env model =
    let p = model.env_prefix in
    let d = model.defaults in
    record d {
      requests_per_minute = pick d.requests_per_minute (env (p <> "_REQUESTS_PER_MINUTE"));
      requests_per_day = pick d.requests_per_day (env (p <> "_REQUESTS_PER_DAY"));
      tokens_per_minute = pick d.tokens_per_minute (env (p <> "_TOKENS_PER_MINUTE"));
      tokens_per_day = pick d.tokens_per_day (env (p <> "_TOKENS_PER_DAY"));
      audio_seconds_per_hour = pick d.audio_seconds_per_hour (env (p <> "_AUDIO_SECONDS_PER_HOUR"));
      audio_seconds_per_day = pick d.audio_seconds_per_day (env (p <> "_AUDIO_SECONDS_PER_DAY"));
      input_tokens_per_minute =
          pick d.input_tokens_per_minute (env (p <> "_INPUT_TOKENS_PER_MINUTE"));
      output_tokens_per_minute =
          pick d.output_tokens_per_minute (env (p <> "_OUTPUT_TOKENS_PER_MINUTE"));
    }

-- A limit that is missing or positive.
abbrev pub IsLimit : Option ℤ → Type 0
IsLimit none = Unit {0}
IsLimit (some (pos zero)) = ⊥
IsLimit (some (pos (suc n))) = Unit {0}
IsLimit (some (negsuc n)) = ⊥

-- The check of fields passes where each is a limit, and otherwise names one that is none.
abbrev Checked : List (String × Option ℤ) → Result (Unit {0}) → Type 0
Checked fields (ok _) = All (λ e. IsLimit e.1) fields
Checked fields (err e) =
    (name : String) × (value : Option ℤ) × Elem (name, value) fields
    × (IsLimit value → ⊥)
    × (e ≡ invalid_rate_limit name)

later :
    (field : String × Option ℤ)
    → IsLimit field.1
    → (fields : List (String × Option ℤ)) (r : Result (Unit {0})) → Checked fields r
    → Checked (field ∷ fields) r
later field p fields (ok u) h = (p, h)
later field p fields (err e) (name, value, at, bad, same) = (name, value, there field at, bad, same)

check_fields-Checked : (fields : List (String × Option ℤ)) → Checked fields (check_fields fields)
unfolding check_fields
check_fields-Checked [] = tt
check_fields-Checked ((name, none) ∷ fields) =
    later (name, none) tt fields (check_fields fields) (check_fields-Checked fields)
check_fields-Checked ((name, some (pos zero)) ∷ fields) =
    (name, some (pos zero), here fields, (λ h. h), refl)
check_fields-Checked ((name, some (pos (suc n))) ∷ fields) =
    later (name, some (pos (suc n))) tt fields (check_fields fields) (check_fields-Checked fields)
check_fields-Checked ((name, some (negsuc n)) ∷ fields) =
    (name, some (negsuc n), here fields, (λ h. h), refl)

-- The variables that a model reads.
abbrev pub variables : ModelClass → List String
variables model =
    let p = model.env_prefix in
    (p <> "_REQUESTS_PER_MINUTE")
    ∷ (p <> "_REQUESTS_PER_DAY")
    ∷ (p <> "_TOKENS_PER_MINUTE")
    ∷ (p <> "_TOKENS_PER_DAY")
    ∷ (p <> "_AUDIO_SECONDS_PER_HOUR")
    ∷ (p <> "_AUDIO_SECONDS_PER_DAY")
    ∷ (p <> "_INPUT_TOKENS_PER_MINUTE")
    ∷ (p <> "_OUTPUT_TOKENS_PER_MINUTE")
    ∷ []

-- A variable that is not set, or holds an integer.
abbrev pub WellFormed : Env → String → Type 0
WellFormed env var = env var ≢ some none

-- How the loading of a model's class may end, which reads these variables.
abbrev pub Reads : Env → ModelClass → List String → Result ModelRateLimitConfig → Type 0
Reads env model vars (ok c) =
    (c ≡ configured env model) × All (λ e. IsLimit e.1) (fields_of c) × All (WellFormed env) vars
Reads env model vars (err e) =
    ((var : String) × (env var ≡ some none) × (e ≡ environment_parse_error var))
    ⊎ ((name : String) × (value : Option ℤ) × Elem (name, value) (fields_of (configured env model))
        × (IsLimit value → ⊥)
        × (e ≡ invalid_rate_limit name))

-- One variable more.
Reads-more :
    (env : Env) (model : ModelClass) (var : String) (vars : List String)
    (r : Result ModelRateLimitConfig)
    → WellFormed env var
    → Reads env model vars r
    → Reads env model (var ∷ vars) r
Reads-more env model var vars (ok c) w h = (h.0, h.1, (w, h.2))
Reads-more env model var vars (err e) w h = h

read_int-Reads :
    (env : Env) (model : ModelClass) (var : String) (vars : List String) (default : Option ℤ)
    (rest : Option ℤ → Result ModelRateLimitConfig) (o : Option (Option ℤ))
    → env var ≡ o
    → Reads env model vars (rest (pick default o))
    → Reads env model (var ∷ vars) (read_int var default o >>= rest)
read_int-Reads env model var vars default rest none e h =
    Reads-more env model var vars (rest default) (λ bad. cc) h
read_int-Reads env model var vars default rest (some none) e h = inl (var, e, refl)
read_int-Reads env model var vars default rest (some (some z)) e h =
    Reads-more env model var vars (rest (some z)) (λ bad. cc) h

env_int-Reads :
    (env : Env) (model : ModelClass) (var : String) (vars : List String) (default : Option ℤ)
    (rest : Option ℤ → Result ModelRateLimitConfig)
    → Reads env model vars (rest (pick default (env var)))
    → Reads env model (var ∷ vars) (env_int env var default >>= rest)
unfolding env_int
env_int-Reads env model var vars default rest h =
    read_int-Reads env model var vars default rest (env var) refl h

constructed-Reads :
    (env : Env) (model : ModelClass) → Reads env model [] (constructed (configured env model))
unfolding constructed
constructed-Reads env model =
    of_checked (check_fields (fields_of (configured env model)))
      (check_fields-Checked (fields_of (configured env model)))
  where
    of_checked :
        (r : Result (Unit {0}))
        → Checked (fields_of (configured env model)) r
        → Reads env model [] (r >>= λ _. ok (configured env model))
    of_checked (ok u) h = (refl, h, tt)
    of_checked (err e) h = inr h

from_env-Reads :
    (env : Env) (model : ModelClass) → Reads env model (variables model) (from_env env model)
unfolding from_env
from_env-Reads env model =
    let p = model.env_prefix in
    let d = model.defaults in
    env_int-Reads env model (p <> "_REQUESTS_PER_MINUTE") (drop 1 (variables model))
      d.requests_per_minute _
      (env_int-Reads env model (p <> "_REQUESTS_PER_DAY") (drop 2 (variables model))
        d.requests_per_day _
        (env_int-Reads env model (p <> "_TOKENS_PER_MINUTE") (drop 3 (variables model))
          d.tokens_per_minute _
          (env_int-Reads env model (p <> "_TOKENS_PER_DAY") (drop 4 (variables model))
            d.tokens_per_day _
            (env_int-Reads env model (p <> "_AUDIO_SECONDS_PER_HOUR") (drop 5 (variables model))
              d.audio_seconds_per_hour _
              (env_int-Reads env model (p <> "_AUDIO_SECONDS_PER_DAY") (drop 6 (variables model))
                d.audio_seconds_per_day _
                (env_int-Reads env model (p <> "_INPUT_TOKENS_PER_MINUTE")
                  (drop 7 (variables model)) d.input_tokens_per_minute _
                  (env_int-Reads env model (p <> "_OUTPUT_TOKENS_PER_MINUTE")
                    (drop 8 (variables model)) d.output_tokens_per_minute _
                    (constructed-Reads env model))))))))

-- How the loading of a model ends: with an exception where no model has the id, and otherwise as its
-- class says.
abbrev pub Loaded : Env → String → Result ModelRateLimitConfig → Type 0
Loaded env model_id r =
    ((get model_registry model_id ≡ none) × (r ≡ err (unknown_model model_id)))
    ⊎ ((model : ModelClass) × (get model_registry model_id ≡ some model)
        × Reads env model (variables model) r)

unregistered :
    (env : Env) (model_id : String)
    → get model_registry model_id ≡ none
    → get_model_config env model_id ≡ err (unknown_model model_id)
unfolding get_model_config
unregistered env model_id e = rw (e, get_model_config) refl

registered :
    (env : Env) (model_id : String) (model : ModelClass)
    → get model_registry model_id ≡ some model
    → get_model_config env model_id ≡ from_env env model
unfolding get_model_config
registered env model_id model e = rw (e, get_model_config) refl

-- Whatever the environment holds, an id that no model has is refused. For any other, either no variable
-- of the model holds anything but an integer, and the limits are those that the environment sets, and the
-- defaults for the rest, and each that is there is positive; or the loading raises, naming a variable that
-- holds no integer or a limit that is not positive.
pub get_model_config-Loaded :
    (env : Env) (model_id : String) → Loaded env model_id (get_model_config env model_id)
get_model_config-Loaded env model_id = elim (Option-cases (get model_registry model_id)) [
  | inl e ↦ inl (e, unregistered env model_id e)
  | inr (model, e) ↦ inr (
    model,
    e,
    subst (Reads env model (variables model)) (sym (registered env model_id model e))
        (from_env-Reads env model),
  )
]

-- The limit that the scheduler takes over for a model, if it takes one over, is positive, is the
-- request limit of the model's class with what the environment sets, and the model is registered.
pub max_rpm_for_model-configured :
    (env : Env) (model_id : String) (n : ℤ)
    → max_rpm_for_model env model_id ≡ some n
    → (model : ModelClass) × (get model_registry model_id ≡ some model)
      × ((configured env model).requests_per_minute ≡ some n)
      × IsLimit (some n)
unfolding max_rpm_for_model
max_rpm_for_model-configured env model_id n same =
    of_loaded (get_model_config env model_id) (get_model_config-Loaded env model_id) same
  where
    of_loaded :
        (r : Result ModelRateLimitConfig)
        → Loaded env model_id r
        → rpm_of r ≡ some n
        → (model : ModelClass) × (get model_registry model_id ≡ some model)
          × ((configured env model).requests_per_minute ≡ some n)
          × IsLimit (some n)
    of_loaded (err e) h same = cc
    of_loaded (ok c) (inl (e, refused)) same = cc
    of_loaded (ok c) (inr (model, e, (is_c, limits, _))) same = (
      model,
      e,
      sym (ap (λ (k : ModelRateLimitConfig). k.requests_per_minute) is_c) ∙ same,
      subst IsLimit same limits.0,
    )
