-- ===== src/Tests/Backends.antt =====
-- A codec of days and the theorems of the backends at a concrete file and table. The codec puts a
-- mark before every character and after every text.
use Prim.Native.Char.{Char, code}
use text.Mathlib.TextBridge.{to_list, of_list, to_list-of_list, of_list-to_list}
use pool_gate.Common.{
  ◌≡◌, refl, sym, subst, ap, ◌∙◌, String, if◌then◌else◌, ◌==◌, Option, none, some, List, [], ◌∷◌,
}
use pool_gate.Dict.{Dict, get, has}
use pool_gate.Dict.Laws.{IsDict}
use pool_gate.Persistence.{
  Json, JsonLaws, done, broken, json_save_day, sqlite_save_day, json_save_all, sqlite_save_all,
  read_file, sqlite_load_all, decoded, read_rows,
}
use pool_gate.Persistence.Backends.{
  Holds, report, with_day, with_days, save_day-Holds, save_all-Holds,
}

-- A letter of a text, or the end of one.
abbrev pub Piece : Type 0
Piece = Option Char

pub to_chars : List Piece → List Char
to_chars [] = []
to_chars (none ∷ ps) = "e" ∷ "e" ∷ to_chars ps
to_chars (some c ∷ ps) = "c" ∷ c ∷ to_chars ps

pub of_chars : List Char → List Piece
of_chars [] = []
of_chars (a ∷ []) = []
of_chars (a ∷ b ∷ cs) = (if code a == b'c' then some b else none) ∷ of_chars cs

pub of_chars-to_chars : (ps : List Piece) → of_chars (to_chars ps) ≡ ps
unfolding of_chars to_chars
of_chars-to_chars [] = refl
of_chars-to_chars (none ∷ ps) = ap (λ (r : List Piece). none ∷ r) (of_chars-to_chars ps)
of_chars-to_chars (some c ∷ ps) = ap (λ (r : List Piece). some c ∷ r) (of_chars-to_chars ps)

-- The texts of a list, each with its end.
pub spell : List Char → List Piece → List Piece
spell [] ps = none ∷ ps
spell (c ∷ cs) ps = some c ∷ spell cs ps

pub push : Char → List (List Char) → List (List Char)
push c [] = (c ∷ []) ∷ []
push c (t ∷ ts) = (c ∷ t) ∷ ts

unfoldable pub texts : List Piece → List (List Char)
texts [] = []
texts (none ∷ ps) = [] ∷ texts ps
texts (some c ∷ ps) = push c (texts ps)

pub spell_days : Dict String → List Piece
spell_days [] = []
spell_days ((date, payload) ∷ days) =
    spell (to_list date) (spell (to_list payload) (spell_days days))

pub pair_up : List (List Char) → Dict String
pair_up [] = []
pair_up (a ∷ []) = []
pair_up (a ∷ b ∷ ts) = (of_list a, of_list b) ∷ pair_up ts

pub texts-spell : (cs : List Char) (ps : List Piece) → texts (spell cs ps) ≡ cs ∷ texts ps
unfolding texts spell push
texts-spell [] ps = refl
texts-spell (c ∷ cs) ps = ap (push c) (texts-spell cs ps)

pair_up-spell_days : (days : Dict String) → pair_up (texts (spell_days days)) ≡ days
unfolding pair_up spell_days texts
pair_up-spell_days [] = refl
pair_up-spell_days ((date, payload) ∷ days) =
    ap pair_up (
      texts-spell (to_list date) (spell (to_list payload) (spell_days days))
      ∙ ap (λ (ts : List (List Char)). to_list date ∷ ts)
          (texts-spell (to_list payload) (spell_days days)))
    ∙ cc (of_list-to_list date, of_list-to_list payload, pair_up-spell_days days)

-- A day's payload is a text.
abbrev pub json : Json
json = record {
  Payload = String;
  dumps = λ days. of_list (to_chars (spell_days days));
  loads = λ text. some (pair_up (texts (of_chars (to_list text))));
  dumps_payload = λ payload. payload;
  loads_payload = some;
}

loads_dumps : (d : Dict String) → json.loads (json.dumps d) ≡ some d
loads_dumps d =
    ap (λ (ps : List Piece). some (pair_up (texts ps)))
      (ap of_chars (to_list-of_list (to_chars (spell_days d))) ∙ of_chars-to_chars (spell_days d))
    ∙ ap (λ (d : Dict String). some d) (pair_up-spell_days d)

pub json_laws : JsonLaws json
json_laws = record {
  loads-dumps = λ days. (days, loads_dumps days, λ k. refl);
  loads-IsDict = λ d d' u e.
      let read : some d ≡ some d' = sym (loads_dumps d) ∙ e in
      let same' : d ≡ d' = cc in subst (λ (x : Dict String). IsDict x) same' u;
  loads_payload-dumps_payload = λ payload. refl;
}

abbrev days : Dict String
days = ("2025-01-31", "a") ∷ []

-- A file and a table with that day.
abbrev file : Option String
file = some (json.dumps days)

abbrev content : String → Option String
content = get days

file-Holds : Holds json json_laws (read_file json file) content
unfolding read_file decoded
file-Holds = let (d, e, same) = json_laws.loads-dumps days in (d, ap (decoded json) e, same)

table-Holds : Holds json json_laws (sqlite_load_all json days) content
unfolding sqlite_load_all read_rows
table-Holds = (days, refl, λ k. refl)

save_day-Holds_example :
    (((json_save_day json file "2025-02-01" "b" done).0 ≡ report json json_laws done)
      × Holds json json_laws
          (read_file json (json_save_day json file "2025-02-01" "b" done).1)
          (with_day json json_laws content "2025-02-01" "b"))
    × (((sqlite_save_day json days "2025-02-01" "b" broken).0 ≡ report json json_laws broken)
        × Holds json json_laws
            (sqlite_load_all json (sqlite_save_day json days "2025-02-01" "b" broken).1)
            content)
save_day-Holds_example =
    save_day-Holds json json_laws file days content "2025-02-01" "b" done broken file-Holds
      table-Holds

save_all-Holds_example :
    (((json_save_all json file (("2025-02-01", "b") ∷ []) done).0 ≡ report json json_laws done)
      × Holds json json_laws
          (read_file json (json_save_all json file (("2025-02-01", "b") ∷ []) done).1)
          (get (("2025-02-01", "b") ∷ [])))
    × (((sqlite_save_all json days (("2025-02-01", "b") ∷ []) done).0 ≡ report json json_laws done)
        × Holds json json_laws
            (sqlite_load_all json (sqlite_save_all json days (("2025-02-01", "b") ∷ []) done).1)
            (with_days json json_laws content (("2025-02-01", "b") ∷ [])))
save_all-Holds_example =
    save_all-Holds json json_laws file days content (("2025-02-01", "b") ∷ []) done done
      (unfold has in (refl, tt)) file-Holds table-Holds
