-- ===== src/Persistence.antt =====
-- The backends of poolgate/tracking/persistence.py. The JSON and SQLite libraries and the file system
-- are not the program's: `Json` holds what the code uses of the `json` module, a failing write is
-- part of its `Fate`, and a table of SQLite is a `dict` by its primary key, whose failed transaction
-- is rolled back. Messages of the exceptions are left out.
pub mod Rows
pub mod Backends
pub mod Repository
use pool_gate.Common.{ℕ, ◌≡◌, String, Option, none, some, List, [], ◌∷◌, map}
use pool_gate.Dict.{Dict, get, put}
use pool_gate.Dict.Laws.{IsDict}
use pool_gate.Result.{Result, ok, err, persistence_error, ◌>>=◌}

-- `json.dumps` and `json.loads` of a whole file and of a payload. `none` is a `JSONDecodeError`.
pub record Json : Type 1 where
  pub Payload : Type 0
  pub dumps : Dict Payload → String
  pub loads : String → Option (Dict Payload)
  pub dumps_payload : Payload → String
  pub loads_payload : String → Option Payload

-- What is read back is what was written, key by key: `sort_keys` may change the order.
pub record JsonLaws (j : Json) : Type 0 where
  pub loads-dumps :
      (d : Dict j.Payload)
      → (d' : Dict j.Payload) × (j.loads (j.dumps d) ≡ some d')
        × ((k : String) → get d' k ≡ get d k)
  -- No key stands twice in what is read.
  pub loads-IsDict : (d d' : Dict j.Payload) → IsDict d → j.loads (j.dumps d) ≡ some d' → IsDict d'
  pub loads_payload-dumps_payload : (p : j.Payload) → j.loads_payload (j.dumps_payload p) ≡ some p

-- How a write goes: no temporary file can be made, writing or renaming it fails, or all is done. A
-- transaction is `done` or fails.
pub data Fate : Type 0 where
  no_temporary broken done : Fate

module _ (j : Json) where
  open j use {Payload, dumps, loads, dumps_payload, loads_payload}

  -- The file of `JSONPersistence`, if it is there, with its text.
  abbrev pub JsonFile : Type 0
  JsonFile = Option String

  unfoldable pub decoded : Option (Dict Payload) → Result (Dict Payload)
  decoded none = err persistence_error
  decoded (some d) = ok d

  -- `_read_unlocked`, which is `load_all`.
  unfoldable pub read_file : JsonFile → Result (Dict Payload)
  read_file none = ok []
  read_file (some text) = decoded (loads text)

  -- `_write`: the file is replaced by the temporary one as the last step.
  unfoldable pub write_file : JsonFile → Dict Payload → Fate → Result (Unit {0}) × JsonFile
  write_file file days no_temporary = (err persistence_error, file)
  write_file file days broken = (err persistence_error, file)
  write_file file days done = (ok tt, some (dumps days))

  -- `JSONPersistence.save_day`
  unfoldable pub json_save_day : JsonFile → String → Payload → Fate → Result (Unit {0}) × JsonFile
  json_save_day file date payload fate = elim (read_file file) [
    | err e ↦ (err e, file)
    | ok days ↦ write_file file (put days date payload) fate
  ]

  -- `JSONPersistence.save_all`
  unfoldable pub json_save_all : JsonFile → Dict Payload → Fate → Result (Unit {0}) × JsonFile
  json_save_all file days fate = write_file file days fate

  -- The table `daily_usage`.
  abbrev pub Table : Type 0
  Table = Dict String

  -- `{date: json.loads(payload) for date, payload in rows}`
  unfoldable pub read_rows : Table → Result (Dict Payload)
  read_rows [] = ok []
  read_rows ((date, text) ∷ rows) = elim (loads_payload text) [
    | none ↦ err persistence_error
    | some p ↦ read_rows rows >>= (λ days. ok ((date, p) ∷ days))
  ]

  -- `SQLitePersistence.load_all`
  unfoldable pub sqlite_load_all : Table → Result (Dict Payload)
  sqlite_load_all table = read_rows table

  unfoldable pub transaction : Table → Table → Fate → Result (Unit {0}) × Table
  transaction table changed done = (ok tt, changed)
  transaction table changed _ = (err persistence_error, table)

  -- `SQLitePersistence.save_day`: `INSERT ... ON CONFLICT(date) DO UPDATE`.
  unfoldable pub sqlite_save_day : Table → String → Payload → Fate → Result (Unit {0}) × Table
  sqlite_save_day table date payload fate =
      transaction table (put table date (dumps_payload payload)) fate

  unfoldable pub upsert_all : Table → Dict Payload → Table
  upsert_all table [] = table
  upsert_all table ((date, payload) ∷ days) =
      upsert_all (put table date (dumps_payload payload)) days

  -- `SQLitePersistence.save_all`
  unfoldable pub sqlite_save_all : Table → Dict Payload → Fate → Result (Unit {0}) × Table
  sqlite_save_all table days fate = transaction table (upsert_all table days) fate
