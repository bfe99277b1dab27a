-- ===== src/Persistence/Rows.antt =====
-- How the rows of the table are read, after one is written.
use pool_gate.Common.{
  ◌≡◌, refl, sym, ap, ◌∙◌, String, true, false, Option, none, some, [], ◌∷◌, str_eq, Bool-cases,
  inl, inr,
}
use pool_gate.Dict.{Dict, put}
use pool_gate.Result.{Error, Result, ok, err, persistence_error, ◌>>=◌}
use pool_gate.Persistence.{Json, JsonLaws, read_rows, Table}

module _ (j : Json) (laws : JsonLaws j) where
  open j use {Payload, dumps, loads, dumps_payload, loads_payload}
  open laws use {loads-dumps, loads_payload-dumps_payload}

  -- A row that was read.
  abbrev Row : String → String → Table j → Dict Payload → Type 0
  Row i text table days =
      (p : Payload) × (rest : Dict Payload) × (loads_payload text ≡ some p)
      × (read_rows j table ≡ ok rest)
      × ((i, p) ∷ rest ≡ days)

  read_rows-cons :
      (i : String) (p : Payload) (text : String) (table : Table j) (rest : Dict Payload)
      → loads_payload text ≡ some p
      → read_rows j table ≡ ok rest
      → read_rows j ((i, text) ∷ table) ≡ ok ((i, p) ∷ rest)
  unfolding read_rows
  read_rows-cons i p text table rest f g = rw (f, read_rows) (rw (g, ◌>>=◌) refl)

  read_rows-unreadable :
      (i text : String) (table : Table j)
      → loads_payload text ≡ none
      → read_rows j ((i, text) ∷ table) ≡ err persistence_error
  unfolding read_rows
  read_rows-unreadable i text table f = rw (f, read_rows) refl

  read_rows-err :
      (i : String) (p : Payload) (text : String) (table : Table j) (x : Error)
      → loads_payload text ≡ some p
      → read_rows j table ≡ err x
      → read_rows j ((i, text) ∷ table) ≡ err x
  unfolding read_rows
  read_rows-err i p text table x f g = rw (f, read_rows) (rw (g, ◌>>=◌) refl)

  read_rows-Row :
      (i text : String) (table : Table j) (days : Dict Payload)
      → read_rows j ((i, text) ∷ table) ≡ ok days
      → Row i text table days
  read_rows-Row i text table days e = go (loads_payload text) refl (read_rows j table) refl
    where
      go :
          (o : Option Payload)
          → loads_payload text ≡ o
          → (r : Result (Dict Payload)) → read_rows j table ≡ r
          → Row i text table days
      go none f r g =
          let h : err persistence_error ≡ ok days = sym (read_rows-unreadable i text table f) ∙ e in
          cc
      go (some p) f (err x) g =
          let h : err x ≡ ok days = sym (read_rows-err i p text table x f g) ∙ e in cc
      go (some p) f (ok rest) g =
          let h : ok ((i, p) ∷ rest) ≡ ok days = sym (read_rows-cons i p text table rest f g) ∙ e in
          (p, rest, f, g, cc)

  put_here :
      (i date : String) (p q : Payload) (rest : Dict Payload)
      → str_eq i date ≡ true
      → (i, q) ∷ rest ≡ put ((i, p) ∷ rest) date q
  unfolding put
  put_here i date p q rest h = rw h refl

  put_there :
      (i date : String) (p q : Payload) (rest : Dict Payload)
      → str_eq i date ≡ false
      → (i, p) ∷ put rest date q ≡ put ((i, p) ∷ rest) date q
  unfolding put
  put_there i date p q rest h = rw h refl

  -- A row that is written is read back, and the others as before.
  pub read_rows-put :
      (table : Table j) (days : Dict Payload) (date : String) (payload : Payload)
      → read_rows j table ≡ ok days
      → read_rows j (put table date (dumps_payload payload)) ≡ ok (put days date payload)
  unfolding put
  read_rows-put [] days date payload e =
      let empty : [] ≡ days = unfold read_rows in cc in
      read_rows-cons date payload (dumps_payload payload) [] []
        (loads_payload-dumps_payload payload) (unfold read_rows in refl)
      ∙ ap (λ (d : Dict Payload). ok (put d date payload)) empty
  read_rows-put ((i, text) ∷ table) days date payload e =
      let (p, rest, f, g, same) = read_rows-Row i text table days e in
      elim (Bool-cases (str_eq i date)) [
        | inl h ↦ rw h (
            read_rows-cons i payload (dumps_payload payload) table rest
              (loads_payload-dumps_payload payload) g
            ∙ ap (λ (d : Dict Payload). ok d) (put_here i date p payload rest h)
            ∙ ap (λ (d : Dict Payload). ok (put d date payload)) same)
        | inr h ↦ rw h (
            read_rows-cons i p text (put table date (dumps_payload payload)) (put rest date payload)
              f (read_rows-put table rest date payload g)
            ∙ ap (λ (d : Dict Payload). ok d) (put_there i date p payload rest h)
            ∙ ap (λ (d : Dict Payload). ok (put d date payload)) same)
      ]
