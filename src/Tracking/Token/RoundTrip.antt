-- ===== src/Tracking/Token/RoundTrip.antt =====
-- Loading what was exported gives back every day of every model.
use pool_gate.Common.{
  ◌≡◌, refl, sym, ap, ◌∙◌, String, Bool, true, false, Option, none, some, [], ◌∷◌, arith, str_eq,
  if◌then◌else◌, eq_iff, Bool-cases, Option-cases, inl, inr, All,
}
use pool_gate.Dict.{Dict, get, get_or, put, has}
use pool_gate.Dict.Laws.{
  IsDict, get-put, get_or-put, get_or-get, get_or_absent, has-eq-false_iff_get,
}
use pool_gate.Tracking.Token.Keys.{IsTracker, export_models-IsExport}
use pool_gate.Tracking.Token.{
  DayTokens, ModelTokenState, TokenTracker, no_tokens, new_state, new, tokens_for_day, merge_entry,
  export_model, export_models, export_days, load_entry, load_day, load_all, load_days,
}

-- The second of two optional values where the first is missing.
abbrev pub or_else : Option DayTokens → Option DayTokens → Option DayTokens
or_else none o = o
or_else (some v) o = some v

-- What an export holds for a model on a date, and what a tracker holds.
abbrev pub entry : Dict (Dict DayTokens) → String → String → Option DayTokens
entry days date model = get (get_or days date []) model

abbrev pub held : Dict ModelTokenState → String → String → Option DayTokens
held models date model = get (get_or models model new_state).daily date

-- A write by both keys, and then a row of writes by one of them.
if_swap :
    (a b : Bool) (x y : Option DayTokens)
    → (if a then (if b then x else y) else y) ≡ (if b then (if a then x else y) else y)
if_swap true b x y = refl
if_swap false true x y = refl
if_swap false false x y = refl

write_row :
    (a b : Bool) (row old : Option DayTokens) (v : DayTokens)
    → (b ≡ true → row ≡ none)
    → (if a
        then or_else row (if a then (if b then some v else old) else old)
        else (if a then (if b then some v else old) else old))
      ≡ (if a then or_else (if b then some v else row) old else old)
write_row false b row old v h = refl
write_row true true row old v h = rw (h refl) refl
write_row true false row old v h = refl

absent_of_IsDict :
    (row : Dict DayTokens) (k j : String) → has row k ≡ false → str_eq k j ≡ true → get row j ≡ none
absent_of_IsDict row k j h e =
    let same : k ≡ j = ground (arith, eq_iff k j) in
    ap (get row) (sym same) ∙ has-eq-false_iff_get row k h

module _ (d m : String) where
  entry-merge_entry :
      (merged : Dict (Dict DayTokens)) (date model : String) (v : DayTokens)
      → entry (merge_entry merged date model v) d m ≡ (
          if str_eq date d
          then (if str_eq model m then some v else entry merged d m)
          else entry merged d m)
  unfolding merge_entry
  entry-merge_entry merged date model v =
      ap (λ (r : Dict DayTokens). get r m)
        (get_or-put merged date d (put (get_or merged date []) model v) [])
      ∙ (elim (Bool-cases (str_eq date d)) [
        | inl h ↦
            let e : date ≡ d = ground (arith, eq_iff date d) in
            rw h (
              get-put (get_or merged date []) model m v
              ∙ ap (λ (k : String). if str_eq model m then some v else entry merged k m) e)
        | inr h ↦ rw h refl
      ])

  held-load_entry :
      (models : Dict ModelTokenState) (date model : String) (v : DayTokens)
      → held (load_entry models date model v) d m ≡ (
          if str_eq date d
          then (if str_eq model m then some v else held models d m)
          else held models d m)
  unfolding load_entry
  held-load_entry models date model v =
      let state = get_or models model new_state in
      ap (λ (s : ModelTokenState). get s.daily d)
        (get_or-put models model m (record state { daily = put state.daily date v }) new_state)
      ∙ (elim (Bool-cases (str_eq model m)) [
        | inl h ↦
            let e : model ≡ m = ground (arith, eq_iff model m) in
            rw h (
              get-put state.daily date d v
              ∙ ap (λ (k : String). if str_eq date d then some v else held models d k) e)
        | inr h ↦ rw h (ground arith)
      ])

  entry-export_model :
      (merged : Dict (Dict DayTokens)) (model : String) (daily : Dict DayTokens)
      → IsDict daily
      → entry (export_model merged model daily) d m
        ≡ (if str_eq model m then or_else (get daily d) (entry merged d m) else entry merged d m)
  unfolding export_model get
  entry-export_model merged model [] h = ground arith
  entry-export_model merged model ((date, v) ∷ daily) h =
      entry-export_model (merge_entry merged date model v) model daily h.1
      ∙ ap (λ (x : Option DayTokens). if str_eq model m then or_else (get daily d) x else x)
          (entry-merge_entry merged date model v
            ∙ if_swap (str_eq date d) (str_eq model m) (some v) (entry merged d m))
      ∙ write_row (str_eq model m) (str_eq date d) (get daily d) (entry merged d m) v
          (absent_of_IsDict daily date d h.0)

  held-load_day :
      (models : Dict ModelTokenState) (date : String) (row : Dict DayTokens)
      → IsDict row
      → held (load_day models date row) d m
        ≡ (if str_eq date d then or_else (get row m) (held models d m) else held models d m)
  unfolding load_day get
  held-load_day models date [] h = ground arith
  held-load_day models date ((model, v) ∷ row) h =
      held-load_day (load_entry models date model v) date row h.1
      ∙ ap (λ (x : Option DayTokens). if str_eq date d then or_else (get row m) x else x)
          (held-load_entry models date model v)
      ∙ write_row (str_eq date d) (str_eq model m) (get row m) (held models d m) v
          (absent_of_IsDict row model m h.0)

  held_absent :
      (models : Dict ModelTokenState) (k : String)
      → has models k ≡ false
      → str_eq k m ≡ true
      → held models d m ≡ none
  unfolding new_state get
  held_absent models k h e =
      ap (λ (s : ModelTokenState). get s.daily d) (get_or_absent models k m new_state h e)

  entry_absent :
      (days : Dict (Dict DayTokens)) (k : String)
      → has days k ≡ false
      → str_eq k d ≡ true
      → entry days d m ≡ none
  unfolding get
  entry_absent days k h e = ap (λ (r : Dict DayTokens). get r m) (get_or_absent days k d [] h e)

  entry-export_models :
      (merged : Dict (Dict DayTokens)) (models : Dict ModelTokenState)
      → IsDict models
      → All (λ e. IsDict e.1.daily) models
      → entry (export_models merged models) d m ≡ or_else (held models d m) (entry merged d m)
  unfolding export_models get_or new_state get
  entry-export_models merged [] h u = refl
  entry-export_models merged ((model, state) ∷ models) h u =
      entry-export_models (export_model merged model state.daily) models h.1 u.1
      ∙ ap (or_else (held models d m)) (entry-export_model merged model state.daily u.0)
      ∙ (elim (Bool-cases (str_eq model m)) [
        | inl e ↦ rw e (
            ap
              (λ (x : Option DayTokens). or_else x (or_else (get state.daily d) (entry merged d m)))
              (held_absent models model h.0 e))
        | inr e ↦ rw e refl
      ])

  held-load_all :
      (models : Dict ModelTokenState) (days : Dict (Dict DayTokens))
      → IsDict days
      → All (λ e. IsDict e.1) days
      → held (load_all models days) d m ≡ or_else (entry days d m) (held models d m)
  unfolding load_all get_or get
  held-load_all models [] h u = refl
  held-load_all models ((date, row) ∷ days) h u =
      held-load_all (load_day models date row) days h.1 u.1
      ∙ ap (or_else (entry days d m)) (held-load_day models date row u.0)
      ∙ (elim (Bool-cases (str_eq date d)) [
        | inl e ↦ rw e (
            ap (λ (x : Option DayTokens). or_else x (or_else (get row m) (held models d m)))
              (entry_absent days date h.0 e))
        | inr e ↦ rw e refl
      ])

tokens_for_day-held :
    (t : TokenTracker) (model date : String)
    → tokens_for_day t model date
      ≡ elim (held t.models date model) [ none ↦ no_tokens | some v ↦ v ]
unfolding tokens_for_day new_state get get_or
tokens_for_day-held t model date = elim (Option-cases (get t.models model)) [
  | inl e ↦
      let absent : get_or t.models model new_state ≡ new_state =
        get_or-get t.models model new_state ∙ rw e refl in
      rw (e, tokens_for_day) (ap (value_on date) (sym absent))
  | inr (state, e) ↦
      let present : get_or t.models model new_state ≡ state =
        get_or-get t.models model new_state ∙ rw e refl in
      rw (e, tokens_for_day)
        (get_or-get state.daily date no_tokens ∙ ap (value_on date) (sym present))
]
  where
    value_on : String → ModelTokenState → DayTokens
    value_on date s = elim (get s.daily date) [ none ↦ no_tokens | some v ↦ v ]

or_else-none : (o : Option DayTokens) → or_else o none ≡ o
or_else-none none = refl
or_else-none (some v) = refl

-- A tracker that loads what another exported has its tokens, for every model on every day, if every
-- key of the other stands once.
pub tokens_for_day-load_days :
    (t : TokenTracker) (model date : String)
    → IsTracker t
    → tokens_for_day (load_days new (export_days t)) model date ≡ tokens_for_day t model date
unfolding load_days export_days get_or get new_state
tokens_for_day-load_days t model date h =
    let x = export_models-IsExport t.models [] (tt, tt) in
    tokens_for_day-held _ model date
    ∙ ap (λ (o : Option DayTokens). elim o [ none ↦ no_tokens | some v ↦ v ])
        (held-load_all date model [] (export_models [] t.models) x.0 x.1
          ∙ or_else-none (entry (export_models [] t.models) date model)
          ∙ entry-export_models date model [] t.models h.models h.days
          ∙ or_else-none (held t.models date model))
    ∙ sym (tokens_for_day-held t model date)
