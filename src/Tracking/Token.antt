-- ===== src/Tracking/Token.antt =====
-- `TokenTracker` of poolgate/tracking/token.py. The methods that read the clock or the date take
-- them, and those that count in a window return the tracker too, since they evict from it. The
-- methods `get_session_usage` and `get_key_usage` only pass on to `tokens_for_day`.
pub mod Totals
pub mod Keys
pub mod RoundTrip
use pool_gate.Common.{
  ℕ, ◌+◌, ◌-◌, ◌==◌, String, Bool, true, false, Option, none, some, List, [], ◌∷◌, map, sum_of,
  if◌then◌else◌,
}
use pool_gate.Dict.{Dict, get, get_or, put}
use pool_gate.Window.Rolling.{RollingWindowCounter, add, count_since}
use pool_gate.Window.Rolling
use pool_gate.Tracking.Request.{minute, day}

-- `{"in": ..., "out": ...}`
pub record DayTokens : Type 0 where
  pub tokens_in : ℕ
  pub tokens_out : ℕ

pub record ModelTokenState : Type 0 where
  pub input_window : RollingWindowCounter
  pub output_window : RollingWindowCounter
  pub daily : Dict DayTokens

pub record TokenTracker : Type 0 where
  pub models : Dict ModelTokenState

abbrev pub no_tokens : DayTokens
no_tokens = record { tokens_in = 0; tokens_out = 0 }

-- `_ModelTokenState()`
unfoldable pub new_state : ModelTokenState
new_state = record { input_window = Rolling.new day; output_window = Rolling.new day; daily = [] }

abbrev pub new : TokenTracker
new = record { models = [] }

-- `day["in" if is_input else "out"] += tokens`
unfoldable pub add_tokens : Bool → ℕ → DayTokens → DayTokens
add_tokens true tokens d = record d { tokens_in = d.tokens_in + tokens }
add_tokens false tokens d = record d { tokens_out = d.tokens_out + tokens }

unfoldable pub track_state : ModelTokenState → ℕ → Bool → ℕ → String → ModelTokenState
track_state state tokens true now today = record state {
  input_window = add state.input_window tokens now;
  daily = put state.daily today (add_tokens true tokens (get_or state.daily today no_tokens));
}
track_state state tokens false now today = record state {
  output_window = add state.output_window tokens now;
  daily = put state.daily today (add_tokens false tokens (get_or state.daily today no_tokens));
}

-- `_track`
unfoldable pub track : TokenTracker → String → ℕ → Bool → ℕ → String → TokenTracker
track t model tokens is_input now today = record {
  models =
      put t.models model (track_state (get_or t.models model new_state) tokens is_input now today);
}

unfoldable pub track_input_tokens : TokenTracker → String → ℕ → ℕ → String → TokenTracker
track_input_tokens t model tokens now today = track t model tokens true now today

unfoldable pub track_output_tokens : TokenTracker → String → ℕ → ℕ → String → TokenTracker
track_output_tokens t model tokens now today = track t model tokens false now today

-- `record`: nothing is tracked for 0 tokens. Each of the two calls reads the date.
unfoldable pub record_tokens : TokenTracker → String → ℕ → ℕ → ℕ → String → String → TokenTracker
unfolding track_input_tokens track_output_tokens
record_tokens t model tokens_in tokens_out now today_in today_out =
    let t' = if tokens_in == 0 then t else track_input_tokens t model tokens_in now today_in in
    if tokens_out == 0 then t' else track_output_tokens t' model tokens_out now today_out

-- `tokens_for_day`, under the key that `date or today_str()` gave.
unfoldable pub tokens_for_day : TokenTracker → String → String → DayTokens
tokens_for_day t model date = elim (get t.models model) [
  | none ↦ no_tokens
  | some state ↦ get_or state.daily date no_tokens
]

-- `_sum_window`
unfoldable pub sum_window : TokenTracker → String → ℕ → ℕ → ℕ × TokenTracker
sum_window t model seconds now = elim (get t.models model) [
  | none ↦ (0, t)
  | some state ↦
      let (m, input_window) = count_since state.input_window seconds now in
      let (n, output_window) = count_since state.output_window seconds now in
      (
        m + n,
        record {
          models =
              put t.models model
                (record state { input_window = input_window; output_window = output_window });
        },
      )
]

unfoldable pub remaining_tpm : TokenTracker → String → ℕ → ℕ → ℕ × TokenTracker
remaining_tpm t model limit now = let (n, t') = sum_window t model minute now in (limit - n, t')

unfoldable pub remaining_tpd : TokenTracker → String → ℕ → ℕ → ℕ × TokenTracker
remaining_tpd t model limit now = let (n, t') = sum_window t model day now in (limit - n, t')

-- The totals of a model in `snapshot`.
unfoldable pub snapshot_of : ModelTokenState → DayTokens
snapshot_of state = record {
  tokens_in = sum_of (λ e. e.1.tokens_in) state.daily;
  tokens_out = sum_of (λ e. e.1.tokens_out) state.daily;
}

unfoldable pub snapshot : TokenTracker → Dict DayTokens
snapshot t = map (λ e. (e.0, snapshot_of e.1)) t.models

-- `merged.setdefault(date, {})[model] = {...}`
unfoldable pub merge_entry :
    Dict (Dict DayTokens) → String → String → DayTokens → Dict (Dict DayTokens)
merge_entry merged date model v = put merged date (put (get_or merged date []) model v)

-- The inner loop of `export_days`, over the days of a model.
unfoldable pub export_model :
    Dict (Dict DayTokens) → String → Dict DayTokens → Dict (Dict DayTokens)
export_model merged model [] = merged
export_model merged model ((date, v) ∷ daily) =
    export_model (merge_entry merged date model v) model daily

-- Its outer loop, over the models.
unfoldable pub export_models : Dict (Dict DayTokens) → Dict ModelTokenState → Dict (Dict DayTokens)
export_models merged [] = merged
export_models merged ((model, state) ∷ models) =
    export_models (export_model merged model state.daily) models

unfoldable pub export_days : TokenTracker → Dict (Dict DayTokens)
export_days t = export_models [] t.models

-- `state = self._models.setdefault(model, ...); state.daily[date] = {...}`
unfoldable pub load_entry :
    Dict ModelTokenState → String → String → DayTokens → Dict ModelTokenState
load_entry models date model v =
    let state = get_or models model new_state in
    put models model (record state { daily = put state.daily date v })

-- The inner loop of `load_days`, over the models of a day.
unfoldable pub load_day : Dict ModelTokenState → String → Dict DayTokens → Dict ModelTokenState
load_day models date [] = models
load_day models date ((model, v) ∷ rest) = load_day (load_entry models date model v) date rest

-- Its outer loop. A value that a payload leaves out is read as 0 before this.
unfoldable pub load_all : Dict ModelTokenState → Dict (Dict DayTokens) → Dict ModelTokenState
load_all models [] = models
load_all models ((date, rest) ∷ days) = load_all (load_day models date rest) days

unfoldable pub load_days : TokenTracker → Dict (Dict DayTokens) → TokenTracker
load_days t days = record { models = load_all t.models days }
