-- ===== src/Tracking/Usage/Export.antt =====
-- `export_days` and `load_days` of `UsageTracker`, with `to_dict` and `from_dict` of `DailyBucket`. A
-- count that a payload leaves out is read as 0 before this. Loading writes the days only: the lifetime
-- counters stay as they are.
use pool_gate.Common.{
  ℕ, ◌≡◌, refl, sym, ap, ◌∙◌, String, Option, none, some, [], ◌∷◌, arith, str_eq, eq_iff,
  Bool-cases, Option-cases, inl, inr,
}
use pool_gate.Dict.{Dict, get, put}
use pool_gate.Dict.Laws.{IsDict, get-put, get_or-get, has-eq-false_iff_get, get-map_values}
use pool_gate.Dict.{map_values}
use pool_gate.Tracking.Usage.{DailyBucket, UsageTracker, new, new_day, snapshot_for_day}

pub record DayPayload : Type 0 where
  pub date : Option String
  pub requests : ℕ
  pub successful_requests : ℕ
  pub failed_requests : ℕ
  pub tokens_in : ℕ
  pub tokens_out : ℕ

unfoldable pub to_dict : DailyBucket → DayPayload
to_dict b = record {
  date = some b.date;
  requests = b.requests;
  successful_requests = b.successful_requests;
  failed_requests = b.failed_requests;
  tokens_in = b.tokens_in;
  tokens_out = b.tokens_out;
}

-- `payload = {**payload, "date": key}` where the payload has no date.
abbrev pub date_or : Option String → String → String
date_or none key = key
date_or (some date) key = date

-- `from_dict`, of a payload under a key.
unfoldable pub from_dict : String → DayPayload → DailyBucket
from_dict key d = record {
  date = date_or d.date key;
  requests = d.requests;
  successful_requests = d.successful_requests;
  failed_requests = d.failed_requests;
  tokens_in = d.tokens_in;
  tokens_out = d.tokens_out;
}

unfoldable pub export_days : UsageTracker → Dict DayPayload
export_days t = map_values to_dict t.days

-- The loop of `load_days`.
unfoldable pub load_buckets : Dict DailyBucket → Dict DayPayload → Dict DailyBucket
load_buckets days [] = days
load_buckets days ((key, payload) ∷ rest) = load_buckets (put days key (from_dict key payload)) rest

unfoldable pub load_days : UsageTracker → Dict DayPayload → UsageTracker
load_days t days = record t { days = load_buckets t.days days }

-- A bucket that is read where there is a payload.
loaded : String → Option DayPayload → Option DailyBucket → Option DailyBucket
loaded k none old = old
loaded k (some p) old = some (from_dict k p)

get-load_buckets :
    (ps : Dict DayPayload) (days : Dict DailyBucket) (k : String)
    → IsDict ps
    → get (load_buckets days ps) k ≡ loaded k (get ps k) (get days k)
unfolding load_buckets get loaded
get-load_buckets [] days k u = refl
get-load_buckets ((key, p) ∷ ps) days k u =
    get-load_buckets ps (put days key (from_dict key p)) k u.1
    ∙ ap (loaded k (get ps k)) (get-put days key k (from_dict key p))
    ∙ (elim (Bool-cases (str_eq key k)) [
      | inl e ↦
          let same : key ≡ k = ground (arith, eq_iff key k) in
          let absent : get ps k ≡ none = ap (get ps) (sym same) ∙ has-eq-false_iff_get ps key u.0 in
          rw (e, absent) (ap (λ (i : String). some (from_dict i p)) same)
      | inr e ↦ rw e refl
    ])

-- Days that hold what a tracker exports, in whatever order, give a new tracker its days.
pub get-load_days :
    (t : UsageTracker) (ps : Dict DayPayload) (k : String)
    → IsDict ps
    → get ps k ≡ get (export_days t) k
    → get (load_days new ps).days k ≡ get t.days k
unfolding load_days export_days get new loaded to_dict from_dict
get-load_days t ps k u same =
    get-load_buckets ps [] k u
    ∙ ap (λ (o : Option DayPayload). loaded k o none) (same ∙ get-map_values to_dict t.days k)
    ∙ (elim (Option-cases (get t.days k)) [ inl e ↦ rw e refl | inr (b, e) ↦ rw e refl ])

pub snapshot_for_day-same :
    (t t' : UsageTracker) (date : String)
    → get t'.days date ≡ get t.days date
    → snapshot_for_day t' date ≡ snapshot_for_day t date
unfolding snapshot_for_day
snapshot_for_day-same t t' date same =
    get_or-get t'.days date (new_day date)
    ∙ ap (λ (o : Option DailyBucket). elim o [ none ↦ new_day date | some b ↦ b ]) same
    ∙ sym (get_or-get t.days date (new_day date))
