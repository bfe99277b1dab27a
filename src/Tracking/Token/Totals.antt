-- ===== src/Tracking/Token/Totals.antt =====
-- The tokens of all models on a day.
use pool_gate.Common.{
  ℕ, ◌+◌, ◌≡◌, refl, ap, ◌∙◌, String, Bool, true, false, arith, str_eq, if◌then◌else◌, Bool-cases,
  inl, inr, sum_of, ◌==◌, eq_iff,
}
use pool_gate.Dict.{Dict, get_or, put}
use pool_gate.Dict.Laws.{get_or-put}
use pool_gate.Dict.Sums.{sum_of-put}
use pool_gate.Tracking.Token.{
  DayTokens, ModelTokenState, TokenTracker, no_tokens, new_state, add_tokens, track_state, track,
  track_input_tokens, track_output_tokens, record_tokens,
}

-- The tokens of a kind among those of a day.
abbrev pub of_kind : Bool → DayTokens → ℕ
of_kind true d = d.tokens_in
of_kind false d = d.tokens_out

abbrev pub on_day : String → Bool → ModelTokenState → ℕ
on_day date is_input state = of_kind is_input (get_or state.daily date no_tokens)

-- The tokens of a kind on a date, over all models.
abbrev pub total : String → Bool → TokenTracker → ℕ
total date is_input t = sum_of (λ e. on_day date is_input e.1) t.models

abbrev pub if_day : String → String → ℕ → ℕ
if_day today date n = if str_eq today date then n else 0

abbrev pub same_kind : Bool → Bool → ℕ → ℕ
same_kind true true n = n
same_kind false false n = n
same_kind _ _ n = 0

of_kind-add_tokens :
    (kind is_input : Bool) (tokens : ℕ) (d : DayTokens)
    → of_kind kind (add_tokens is_input tokens d) ≡ of_kind kind d + same_kind kind is_input tokens
unfolding add_tokens
of_kind-add_tokens true true tokens d = refl
of_kind-add_tokens true false tokens d = omega arith
of_kind-add_tokens false true tokens d = omega arith
of_kind-add_tokens false false tokens d = refl

daily-track_state :
    (state : ModelTokenState) (tokens : ℕ) (is_input : Bool) (now : ℕ) (today : String)
    → (track_state state tokens is_input now today).daily
      ≡ put state.daily today (add_tokens is_input tokens (get_or state.daily today no_tokens))
unfolding track_state
daily-track_state state tokens true now today = refl
daily-track_state state tokens false now today = refl

on_day-track_state :
    (date : String) (kind : Bool) (state : ModelTokenState) (tokens : ℕ) (is_input : Bool) (now : ℕ)
    (today : String)
    → on_day date kind (track_state state tokens is_input now today)
      ≡ on_day date kind state + if_day today date (same_kind kind is_input tokens)
on_day-track_state date kind state tokens is_input now today =
    let added = add_tokens is_input tokens (get_or state.daily today no_tokens) in
    ap (λ (d : Dict DayTokens). of_kind kind (get_or d date no_tokens))
      (daily-track_state state tokens is_input now today)
    ∙ ap (of_kind kind) (get_or-put state.daily today date added no_tokens)
    ∙ (elim (Bool-cases (str_eq today date)) [
      | inl h ↦
          let e : today ≡ date = ground (arith, eq_iff today date) in
          rw h (
            of_kind-add_tokens kind is_input tokens (get_or state.daily today no_tokens)
            ∙ ap
                (λ (k : String).
                  of_kind kind (get_or state.daily k no_tokens) + same_kind kind is_input tokens)
                e)
      | inr h ↦ rw h (omega arith)
    ])

total-track :
    (date : String) (kind : Bool) (t : TokenTracker) (model : String) (tokens : ℕ) (is_input : Bool)
    (now : ℕ) (today : String)
    → total date kind (track t model tokens is_input now today)
      ≡ total date kind t + if_day today date (same_kind kind is_input tokens)
unfolding track new_state get_or
total-track date kind t model tokens is_input now today =
    let state = get_or t.models model new_state in
    omega (
      arith,
      sum_of-put (on_day date kind) t.models model (track_state state tokens is_input now today)
          new_state (empty kind),
      on_day-track_state date kind state tokens is_input now today,
    )
  where
    empty : (kind : Bool) → on_day date kind new_state ≡ 0
    empty true = refl
    empty false = refl

pub if_day-zero : (today date : String) → if_day today date 0 ≡ 0
if_day-zero today date = ground arith

total-track_some :
    (date : String) (kind : Bool) (t : TokenTracker) (model : String) (tokens : ℕ) (is_input : Bool)
    (now : ℕ) (today : String)
    → total date kind (if tokens == 0 then t else track t model tokens is_input now today)
      ≡ total date kind t + if_day today date (same_kind kind is_input tokens)
total-track_some date kind t model tokens is_input now today = elim (Bool-cases (tokens == 0)) [
  | inl h ↦ let e : tokens ≡ 0 = ground arith in rw h (rw e (none_of kind is_input))
  | inr h ↦ rw h (total-track date kind t model tokens is_input now today)
]
  where
    none_of :
        (kind is_input : Bool)
        → total date kind t ≡ total date kind t + if_day today date (same_kind kind is_input 0)
    none_of true true = omega (arith, if_day-zero today date)
    none_of true false = omega (arith, if_day-zero today date)
    none_of false true = omega (arith, if_day-zero today date)
    none_of false false = omega (arith, if_day-zero today date)

-- A call of `record` adds its tokens to the totals of the days that it reads.
pub total-record_tokens :
    (date : String) (t : TokenTracker) (model : String) (tokens_in tokens_out now : ℕ)
    (today_in today_out : String)
    → (total date true (record_tokens t model tokens_in tokens_out now today_in today_out)
        ≡ total date true t + if_day today_in date tokens_in)
      × (total date false (record_tokens t model tokens_in tokens_out now today_in today_out)
          ≡ total date false t + if_day today_out date tokens_out)
unfolding record_tokens track_input_tokens track_output_tokens
total-record_tokens date t model tokens_in tokens_out now today_in today_out =
    let t' = if tokens_in == 0 then t else track t model tokens_in true now today_in in
    (
      omega (
        arith,
        total-track_some date true t model tokens_in true now today_in,
        total-track_some date true t' model tokens_out false now today_out,
        if_day-zero today_in date,
        if_day-zero today_out date,
      ),
      omega (
        arith,
        total-track_some date false t model tokens_in true now today_in,
        total-track_some date false t' model tokens_out false now today_out,
        if_day-zero today_in date,
        if_day-zero today_out date,
      ),
    )
