-- ===== src/Tests/Repository.antt =====
-- The repository's theorem at a concrete codec, file and tracker. A day's payload is written as its
-- counts in unary and its date, if it has one.
use Prim.Native.Char.{Char}
use text.Mathlib.TextBridge.{to_list, of_list, to_list-of_list, of_list-to_list}
use pool_gate.Common.{
  ℕ, zero, suc, ◌≡◌, refl, ap, ◌∙◌, String, Option, none, some, List, [], ◌∷◌, length, false,
}
use pool_gate.Dict.{has, put}
use pool_gate.Dict.Laws.{IsDict}
use pool_gate.Persistence.{done}
use pool_gate.Persistence.Repository.{flush_tracker, load_tracker, snapshot_for_day-load_tracker}
use pool_gate.Result.{ok}
use pool_gate.Tracking.Usage.{UsageTracker, new, record_success, bucket_for_today, snapshot_for_day}
use pool_gate.Tracking.Usage.Export.{DayPayload}
use pool_gate.Tests.Backends.{
  Piece, to_chars, of_chars, of_chars-to_chars, spell, texts, texts-spell, json, json_laws,
}

unfoldable unary : ℕ → List Char
unary zero = []
unary (suc n) = "1" ∷ unary n

length-unary : (n : ℕ) → length (unary n) ≡ n
unfolding unary
length-unary zero = refl
length-unary (suc n) = ap suc (length-unary n)

unfoldable spell_date : Option String → List Piece
spell_date none = []
spell_date (some date) = spell (to_list date) []

unfoldable spell_day : DayPayload → List Piece
spell_day p = spell (unary p.requests) (
    spell (unary p.successful_requests) (
      spell (unary p.failed_requests)
        (spell (unary p.tokens_in) (spell (unary p.tokens_out) (spell_date p.date)))))

unfoldable read_date : List (List Char) → Option String
read_date [] = none
read_date (t ∷ ts) = some (of_list t)

unfoldable read_day : List (List Char) → DayPayload
read_day (a ∷ b ∷ c ∷ d ∷ e ∷ ts) = record {
  date = read_date ts;
  requests = length a;
  successful_requests = length b;
  failed_requests = length c;
  tokens_in = length d;
  tokens_out = length e;
}
read_day _ = record {
  date = none;
  requests = 0;
  successful_requests = 0;
  failed_requests = 0;
  tokens_in = 0;
  tokens_out = 0;
}

abbrev encode : DayPayload → String
encode p = of_list (to_chars (spell_day p))

abbrev decode : String → DayPayload
decode text = read_day (texts (of_chars (to_list text)))

read_date-spell_date : (o : Option String) → read_date (texts (spell_date o)) ≡ o
unfolding read_date spell_date texts
read_date-spell_date none = refl
read_date-spell_date (some date) =
    ap read_date (texts-spell (to_list date) [])
    ∙ ap (λ (x : String). some x) (of_list-to_list date)

front :
    (n : ℕ) (ps : List Piece) {ts : List (List Char)}
    → texts ps ≡ ts
    → texts (spell (unary n) ps) ≡ unary n ∷ ts
front n ps e = texts-spell (unary n) ps ∙ ap (λ (ts : List (List Char)). unary n ∷ ts) e

texts-spell_day :
    (p : DayPayload)
    → texts (spell_day p)
      ≡ unary p.requests
        ∷ unary p.successful_requests
        ∷ unary p.failed_requests
        ∷ unary p.tokens_in
        ∷ unary p.tokens_out
        ∷ texts (spell_date p.date)
unfolding spell_day
texts-spell_day p = front p.requests _ (
    front p.successful_requests _
      (front p.failed_requests _ (front p.tokens_in _ (front p.tokens_out _ refl))))

decode-encode : (p : DayPayload) → decode (encode p) ≡ p
unfolding read_day
decode-encode p =
    ap (λ (cs : List Char). read_day (texts (of_chars cs)))
      (to_list-of_list (to_chars (spell_day p)))
    ∙ ap (λ (ps : List Piece). read_day (texts ps)) (of_chars-to_chars (spell_day p))
    ∙ ap read_day (texts-spell_day p)
    ∙ cc (
      length-unary p.requests,
      length-unary p.successful_requests,
      length-unary p.failed_requests,
      length-unary p.tokens_in,
      length-unary p.tokens_out,
      read_date-spell_date p.date,
    )

abbrev tracker : UsageTracker
tracker = record_success (record_success new "2025-01-31" 3 4 false) "2025-02-01" 1 1 false

tracker-IsDict : IsDict tracker.days
unfolding has record_success bucket_for_today put new
tracker-IsDict = (refl, (refl, tt))

snapshot_for_day-load_tracker_example :
    (t' : UsageTracker) × (load_tracker json encode decode
        (flush_tracker json encode decode none tracker done).1
        new
      ≡ ok t')
    × (snapshot_for_day t' "2025-01-31" ≡ snapshot_for_day tracker "2025-01-31")
snapshot_for_day-load_tracker_example =
    snapshot_for_day-load_tracker json encode decode json_laws decode-encode none tracker
      "2025-01-31" (tracker-IsDict)
