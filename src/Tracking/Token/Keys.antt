-- ===== src/Tracking/Token/Keys.antt =====
-- The keys of a tracker and of its exports stand once.
use pool_gate.Common.{ℕ, String, Bool, true, false, [], ◌∷◌, if◌then◌else◌, All, ◌==◌}
use pool_gate.Dict.{Dict, get_or}
use pool_gate.Dict.Laws.{IsDict, put-IsDict, All-put, All-get_or}
use pool_gate.Tracking.Token.{
  DayTokens, ModelTokenState, TokenTracker, new_state, track_state, track, track_input_tokens,
  track_output_tokens, record_tokens, merge_entry, export_model, export_models,
}

-- Every key of the tracker stands once.
pub record IsTracker (t : TokenTracker) : Type 0 where
  pub models : IsDict t.models
  pub days : All (λ e. IsDict e.1.daily) t.models

track_state-IsDict :
    (state : ModelTokenState) (tokens : ℕ) (is_input : Bool) (now : ℕ) (today : String)
    → IsDict state.daily
    → IsDict (track_state state tokens is_input now today).daily
unfolding track_state
track_state-IsDict state tokens true now today h = put-IsDict state.daily today _ h
track_state-IsDict state tokens false now today h = put-IsDict state.daily today _ h

track-IsTracker :
    (t : TokenTracker) (model : String) (tokens : ℕ) (is_input : Bool) (now : ℕ) (today : String)
    → IsTracker t
    → IsTracker (track t model tokens is_input now today)
unfolding track new_state
track-IsTracker t model tokens is_input now today h =
    let old : IsDict (get_or t.models model new_state).daily =
      All-get_or (λ e. IsDict e.1.daily) t.models model new_state h.days tt (λ i j w p. p) in
    record {
      models = put-IsDict t.models model _ h.models;
      days =
          All-put (λ e. IsDict e.1.daily) t.models model _ h.days
            (λ j. track_state-IsDict _ tokens is_input now today old);
    }

pub record_tokens-IsTracker :
    (t : TokenTracker) (model : String) (tokens_in tokens_out now : ℕ) (today_in today_out : String)
    → IsTracker t
    → IsTracker (record_tokens t model tokens_in tokens_out now today_in today_out)
unfolding record_tokens
record_tokens-IsTracker t model tokens_in tokens_out now today_in today_out h =
    let first : IsTracker
        (if tokens_in == 0 then t else track_input_tokens t model tokens_in now today_in) =
      either (tokens_in == 0) h
        (unfold track_input_tokens in track-IsTracker t model tokens_in true now today_in h) in
    either (tokens_out == 0) first
      (unfold track_output_tokens in track-IsTracker _ model tokens_out false now today_out first)
  where
    either :
        (b : Bool) {t t' : TokenTracker}
        → IsTracker t
        → IsTracker t'
        → IsTracker (if b then t else t')
    either true h h' = h
    either false h h' = h'

-- The export has every date once, and every model once in a date.
abbrev pub IsExport : Dict (Dict DayTokens) → Type 0
IsExport days = IsDict days × All (λ e. IsDict e.1) days

merge_entry-IsExport :
    (merged : Dict (Dict DayTokens)) (date model : String) (v : DayTokens)
    → IsExport merged
    → IsExport (merge_entry merged date model v)
unfolding merge_entry
merge_entry-IsExport merged date model v h =
    let old : IsDict (get_or merged date []) =
      All-get_or (λ e. IsDict e.1) merged date [] h.1 tt (λ i j w p. p) in
    (
      put-IsDict merged date _ h.0,
      All-put (λ e. IsDict e.1) merged date _ h.1 (λ j. put-IsDict _ model v old),
    )

export_model-IsExport :
    (daily : Dict DayTokens) (merged : Dict (Dict DayTokens)) (model : String)
    → IsExport merged
    → IsExport (export_model merged model daily)
unfolding export_model
export_model-IsExport [] merged model h = h
export_model-IsExport ((date, v) ∷ daily) merged model h =
    export_model-IsExport daily _ model (merge_entry-IsExport merged date model v h)

pub export_models-IsExport :
    (models : Dict ModelTokenState) (merged : Dict (Dict DayTokens))
    → IsExport merged
    → IsExport (export_models merged models)
unfolding export_models
export_models-IsExport [] merged h = h
export_models-IsExport ((model, state) ∷ models) merged h =
    export_models-IsExport models _ (export_model-IsExport state.daily merged model h)
