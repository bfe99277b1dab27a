-- ===== src/Persistence/Backends.antt =====
-- What the two backends hold, after their methods.
use pool_gate.Common.{
  ◌≡◌, refl, sym, ap, ◌∙◌, String, Bool, true, false, Option, none, some, [], ◌∷◌, arith, str_eq,
  if◌then◌else◌, eq_iff,
}
use pool_gate.Dict.{Dict, get, put, has}
use pool_gate.Dict.Laws.{IsDict, get-put, has-eq-false_iff_get}
use pool_gate.Result.{Result, ok, err, persistence_error}
use pool_gate.Persistence.Rows.{read_rows-put}
use pool_gate.Persistence.{
  Json, JsonLaws, Fate, no_temporary, broken, done, read_file, write_file, json_save_day,
  json_save_all, read_rows, sqlite_load_all, transaction, sqlite_save_day, upsert_all,
  sqlite_save_all, decoded, JsonFile, Table,
}

module _ (j : Json) (laws : JsonLaws j) where
  open j use {Payload, dumps, loads, dumps_payload, loads_payload}
  open laws use {loads-dumps, loads_payload-dumps_payload}

  -- What a backend that loaded these days holds, date by date.
  abbrev pub Holds : Result (Dict Payload) → (String → Option Payload) → Type 0
  Holds loaded content =
      (days : Dict Payload) × (loaded ≡ ok days) × ((k : String) → get days k ≡ content k)

  -- A map with one more day.
  abbrev pub with_day : (String → Option Payload) → String → Payload → String → Option Payload
  with_day content date payload k = if str_eq date k then some payload else content k

  -- A map with the days of an argument over those it has.
  abbrev pub with_days : (String → Option Payload) → Dict Payload → String → Option Payload
  with_days content days k = elim (get days k) [ none ↦ content k | some p ↦ some p ]

  read_file-dumps : (days : Dict Payload) → Holds (read_file j (some (dumps days))) (get days)
  unfolding read_file decoded
  read_file-dumps days = let (d, e, same) = loads-dumps days in (d, rw e refl, same)

  -- What a write reports, and what is held after it.
  abbrev pub report : Fate → Result (Unit {0})
  report done = ok tt
  report _ = err persistence_error

  abbrev pub after :
      Fate → (String → Option Payload) → (String → Option Payload) → String → Option Payload
  after done written old = written
  after _ written old = old

  json_save_day-Holds :
      (file : JsonFile j) (content : String → Option Payload) (date : String) (payload : Payload)
      (fate : Fate)
      → Holds (read_file j file) content
      → let (result, file') = json_save_day j file date payload fate in
        (result ≡ report fate)
        × Holds (read_file j file') (after fate (with_day content date payload) content)
  unfolding write_file json_save_day read_file get
  json_save_day-Holds file content date payload no_temporary (days, e, same) =
      rw (e, json_save_day) (refl, (days, e, same))
  json_save_day-Holds file content date payload broken (days, e, same) =
      rw (e, json_save_day) (refl, (days, e, same))
  json_save_day-Holds file content date payload done (days, e, same) =
      let (d, f, agree) = read_file-dumps (put days date payload) in
      rw (e, json_save_day)
        (
          refl,
          (
            d,
            f,
            λ k.
                agree k
                ∙ get-put days date k payload
                ∙ ap (λ (o : Option Payload). if str_eq date k then some payload else o) (same k),
          ),
        )

  sqlite_save_day-Holds :
      (table : Table j) (content : String → Option Payload) (date : String) (payload : Payload)
      (fate : Fate)
      → Holds (sqlite_load_all j table) content
      → let (result, table') = sqlite_save_day j table date payload fate in
        (result ≡ report fate)
        × Holds (sqlite_load_all j table') (after fate (with_day content date payload) content)
  unfolding sqlite_load_all sqlite_save_day transaction
  sqlite_save_day-Holds table content date payload no_temporary h = (refl, h)
  sqlite_save_day-Holds table content date payload broken h = (refl, h)
  sqlite_save_day-Holds table content date payload done (days, e, same) = (
    refl,
    (
      put days date payload,
      read_rows-put j laws table days date payload e,
      λ k.
          get-put days date k payload
          ∙ ap (λ (o : Option Payload). if str_eq date k then some payload else o) (same k),
    ),
  )

  -- Both backends are the same map from dates to payloads, whatever the order of the rows: where each
  -- holds a content, each holds that content with the day after a `save_day` that goes through, and
  -- that content as it was after one that raises its error, and each reports which of them it was.
  pub save_day-Holds :
      (file : JsonFile j) (table : Table j) (content : String → Option Payload) (date : String)
      (payload : Payload) (fate fate' : Fate)
      → Holds (read_file j file) content
      → Holds (sqlite_load_all j table) content
      → let (result, file') = json_save_day j file date payload fate in
        let (result', table') = sqlite_save_day j table date payload fate' in
        ((result ≡ report fate)
          × Holds (read_file j file') (after fate (with_day content date payload) content))
        × ((result' ≡ report fate')
            × Holds
                (sqlite_load_all j table')
                (after fate' (with_day content date payload) content))
  save_day-Holds file table content date payload fate fate' f t = (
    json_save_day-Holds file content date payload fate f,
    sqlite_save_day-Holds table content date payload fate' t,
  )

  with_days-cons :
      (content : String → Option Payload) (date : String) (payload : Payload) (days : Dict Payload)
      (k : String)
      → has days date ≡ false
      → with_days (with_day content date payload) days k
        ≡ with_days content ((date, payload) ∷ days) k
  unfolding get
  with_days-cons content date payload days k absent = go (str_eq date k) (get days k) (λ h.
      let e : date ≡ k = ground (arith, eq_iff date k) in
      ap (get days) (sym e) ∙ has-eq-false_iff_get days date absent)
    where
      go :
          (b : Bool) (o : Option Payload)
          → (b ≡ true → o ≡ none)
          → ◌≡◌ {A = Option Payload}
              (elim o [ none ↦ if b then some payload else content k | some p ↦ some p ])
              (elim (if b then some payload else o) [ none ↦ content k | some p ↦ some p ])
      go true none h = refl
      go true (some p) h = absurd (let e : some p ≡ none = h refl in cc)
      go false none h = refl
      go false (some p) h = refl

  upsert_all-Holds :
      (days : Dict Payload) (table : Table j) (content : String → Option Payload)
      → IsDict days
      → Holds (read_rows j table) content
      → Holds (read_rows j (upsert_all j table days)) (with_days content days)
  unfolding upsert_all get
  upsert_all-Holds [] table content u h = h
  upsert_all-Holds ((date, payload) ∷ days) table content u (old, e, same) =
      let (new, f, agree) =
        upsert_all-Holds days (put table date (dumps_payload payload))
          (with_day content date payload) u.1
          (
            put old date payload,
            read_rows-put j laws table old date payload e,
            λ k.
                get-put old date k payload
                ∙ ap (λ (o : Option Payload). if str_eq date k then some payload else o) (same k),
          ) in
      (new, f, λ k. agree k ∙ with_days-cons content date payload days k u.0)

  json_save_all-Holds :
      (file : JsonFile j) (content : String → Option Payload) (days : Dict Payload) (fate : Fate)
      → Holds (read_file j file) content
      → let (result, file') = json_save_all j file days fate in
        (result ≡ report fate) × Holds (read_file j file') (after fate (get days) content)
  unfolding json_save_all write_file
  json_save_all-Holds file content days no_temporary h = (refl, h)
  json_save_all-Holds file content days broken h = (refl, h)
  json_save_all-Holds file content days done h = (refl, read_file-dumps days)

  sqlite_save_all-Holds :
      (table : Table j) (content : String → Option Payload) (days : Dict Payload) (fate : Fate)
      → IsDict days
      → Holds (sqlite_load_all j table) content
      → let (result, table') = sqlite_save_all j table days fate in
        (result ≡ report fate)
        × Holds (sqlite_load_all j table') (after fate (with_days content days) content)
  unfolding sqlite_load_all sqlite_save_all transaction
  sqlite_save_all-Holds table content days no_temporary u h = (refl, h)
  sqlite_save_all-Holds table content days broken u h = (refl, h)
  sqlite_save_all-Holds table content days done u h =
      (refl, upsert_all-Holds days table content u h)

  -- `save_all` tells the backends apart. When it goes through, the file holds exactly the days that
  -- were saved, while the table keeps every date that is not among them; when it raises its error,
  -- both hold what they held.
  pub save_all-Holds :
      (file : JsonFile j) (table : Table j) (content : String → Option Payload)
      (days : Dict Payload) (fate fate' : Fate)
      → IsDict days
      → Holds (read_file j file) content
      → Holds (sqlite_load_all j table) content
      → let (result, file') = json_save_all j file days fate in
        let (result', table') = sqlite_save_all j table days fate' in
        ((result ≡ report fate) × Holds (read_file j file') (after fate (get days) content))
        × ((result' ≡ report fate')
            × Holds (sqlite_load_all j table') (after fate' (with_days content days) content))
  save_all-Holds file table content days fate fate' u f t = (
    json_save_all-Holds file content days fate f,
    sqlite_save_all-Holds table content days fate' u t,
  )
