-- ===== src/Persistence/Repository.antt =====
-- `DailySnapshotRepository` of poolgate/persistence/snapshots.py over the JSON backend, for the usage
-- tracker. A day's payload is a JSON value (`encode`), from which the same payload is read (`decode`).
use mathlib.Core.Option
use pool_gate.Common.{◌≡◌, refl, ap, ◌∙◌, String, Option, none, some}
use pool_gate.Dict.{get, map_values}
use pool_gate.Dict.Laws.{IsDict, get-map_values, map_values-IsDict}
use pool_gate.Result.{Result, ok, err}
use pool_gate.Persistence.{
  Json, JsonLaws, Fate, done, JsonFile, read_file, json_save_all, decoded, write_file,
}
use pool_gate.Tracking.Usage.{UsageTracker, new, snapshot_for_day}
use pool_gate.Tracking.Usage.Export.{
  DayPayload, to_dict, export_days, load_days, get-load_days, snapshot_for_day-same,
}

module _ (j : Json) (encode : DayPayload → j.Payload) (decode : j.Payload → DayPayload) where
  open j use {Payload, dumps, loads}

  unfoldable pub flush_tracker : JsonFile j → UsageTracker → Fate → Result (Unit {0}) × JsonFile j
  flush_tracker file t fate = json_save_all j file (map_values encode (export_days t)) fate

  -- The tracker with what was loaded, or the exception.
  unfoldable pub load_tracker : JsonFile j → UsageTracker → Result UsageTracker
  load_tracker file t = elim (read_file j file) [
    | err e ↦ err e
    | ok days ↦ ok (load_days t (map_values decode days))
  ]

  module _ (laws : JsonLaws j) (decode-encode : (p : DayPayload) → decode (encode p) ≡ p) where
    open laws use {loads-dumps, loads-IsDict}

    decoded_payload : (o : Option DayPayload) → Option.map decode (Option.map encode o) ≡ o
    decoded_payload none = refl
    decoded_payload (some p) = ap (λ (x : DayPayload). some x) (decode-encode p)

    -- A tracker that is flushed to the file and loaded into a new one after a restart: the load does
    -- not raise, and the new tracker has the day's snapshot of the old one for every date, if every
    -- date stands once in the old one.
    pub snapshot_for_day-load_tracker :
        (file : JsonFile j) (t : UsageTracker) (date : String)
        → IsDict t.days
        → (t' : UsageTracker) × (load_tracker (flush_tracker file t done).1 new ≡ ok t')
          × (snapshot_for_day t' date ≡ snapshot_for_day t date)
    unfolding load_tracker flush_tracker json_save_all write_file read_file decoded
    snapshot_for_day-load_tracker file t date u =
        let saved = map_values encode (export_days t) in
        let (d, e, same) = loads-dumps saved in
        let exported : IsDict (export_days t) =
          unfold export_days in map_values-IsDict to_dict t.days u in
        let ps = map_values decode d in
        let agree : get ps date ≡ get (export_days t) date =
          get-map_values decode d date
          ∙ ap (Option.map decode) (same date ∙ get-map_values encode (export_days t) date)
          ∙ decoded_payload (get (export_days t) date) in
        let single : IsDict ps =
          map_values-IsDict decode d
            (loads-IsDict saved d (map_values-IsDict encode (export_days t) exported) e) in
        (
          load_days new ps,
          rw (e, load_tracker) refl,
          snapshot_for_day-same t (load_days new ps) date (get-load_days t ps date single agree),
        )
