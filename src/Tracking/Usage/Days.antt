-- ===== src/Tracking/Usage/Days.antt =====
-- The lifetime counters and the day's counters, over any sequence of the methods.
use pool_gate.Common.{
  ℕ, ◌+◌, ◌≡◌, refl, subst, ◌∙◌, String, Bool, true, List, [], ◌∷◌, arith, str_eq, if◌then◌else◌,
  Bool-cases, inl, inr, eq_iff,
}
use pool_gate.Dict.{get_or}
use pool_gate.Dict.Laws.{get_or-put}
use pool_gate.Tracking.Usage.{
  UsageTracker, DailyBucket, new_day, bucket_for_today, success_on, failure_on, record_success,
  record_failure, snapshot_for_day,
}

pub data Call : Type 0 where
  -- the date, the tokens of both kinds, and whether it was a later attempt
  succeeds : String → ℕ → ℕ → Bool → Call
  fails : String → Bool → Call

unfoldable pub step : UsageTracker → Call → UsageTracker
step t (succeeds today tokens_in tokens_out retried) =
    record_success t today tokens_in tokens_out retried
step t (fails today retried) = record_failure t today retried

unfoldable pub run : UsageTracker → List Call → UsageTracker
run t [] = t
run t (c ∷ cs) = run (step t c) cs

abbrev pub day_of : Call → String
day_of (succeeds today i o r) = today
day_of (fails today r) = today

abbrev pub successes : List Call → ℕ
successes [] = 0
successes (succeeds today i o r ∷ cs) = 1 + successes cs
successes (fails today r ∷ cs) = successes cs

abbrev pub failures : List Call → ℕ
failures [] = 0
failures (succeeds today i o r ∷ cs) = failures cs
failures (fails today r ∷ cs) = 1 + failures cs

abbrev pub tokens : List Call → ℕ
tokens [] = 0
tokens (succeeds today i o r ∷ cs) = i + o + tokens cs
tokens (fails today r ∷ cs) = tokens cs

-- The calls of one day.
unfoldable pub of_day : String → List Call → List Call
of_day date [] = []
of_day date (c ∷ cs) =
    let rest = of_day date cs in if str_eq (day_of c) date then c ∷ rest else rest

-- How the counters of a day stand after calls of that day.
pub record Counts (b : DailyBucket) (cs : List Call) (b' : DailyBucket) : Type 0 where
  pub requests : b'.requests ≡ b.requests + (successes cs + failures cs)
  pub successful : b'.successful_requests ≡ b.successful_requests + successes cs
  pub failed : b'.failed_requests ≡ b.failed_requests + failures cs
  pub all_tokens : b'.tokens_in + b'.tokens_out ≡ b.tokens_in + b.tokens_out + tokens cs

-- A counted call on a bucket.
unfoldable pub counted : DailyBucket → Call → DailyBucket
counted b (succeeds today i o r) = success_on i o b
counted b (fails today r) = failure_on b

counted-Counts :
    (b : DailyBucket) (c : Call) (cs : List Call) (b' : DailyBucket)
    → Counts (counted b c) cs b'
    → Counts b (c ∷ cs) b'
unfolding counted success_on failure_on
counted-Counts b (succeeds today i o r) cs b' h = ground arith
counted-Counts b (fails today r) cs b' h = ground arith

pub snapshot_for_day-step :
    (t : UsageTracker) (c : Call) (date : String)
    → snapshot_for_day (step t c) date ≡ (
        if str_eq (day_of c) date
        then counted (get_or t.days (day_of c) (new_day (day_of c))) c
        else snapshot_for_day t date)
unfolding snapshot_for_day step record_success record_failure bucket_for_today counted
snapshot_for_day-step t (succeeds today i o r) date = get_or-put t.days today date _ (new_day date)
snapshot_for_day-step t (fails today r) date = get_or-put t.days today date _ (new_day date)

-- A call of the date itself.
pub same_day :
    (t : UsageTracker) (c : Call) (date : String)
    → str_eq (day_of c) date ≡ true
    → snapshot_for_day (step t c) date ≡ counted (snapshot_for_day t date) c
unfolding snapshot_for_day
same_day t c date h =
    let e : day_of c ≡ date = ground (arith, eq_iff (day_of c) date) in
    snapshot_for_day-step t c date ∙ rw h (rw e refl)

-- Whatever calls are made, on whatever dates, the bucket of a date grows by what the calls of that
-- date amount to: one request for each, one success or one failure, and its tokens.
pub run_day :
    (cs : List Call) (t : UsageTracker) (date : String)
    → Counts (snapshot_for_day t date) (of_day date cs) (snapshot_for_day (run t cs) date)
unfolding run of_day
run_day [] t date = record {
  requests = omega arith;
  successful = omega arith;
  failed = omega arith;
  all_tokens = omega arith;
}
run_day (c ∷ cs) t date = elim (Bool-cases (str_eq (day_of c) date)) [
  | inl e ↦
      rw (e, of_day)
        (counted-Counts (snapshot_for_day t date) c (of_day date cs) _ (
          subst
            (λ (b : DailyBucket).
              Counts b (of_day date cs) (snapshot_for_day (run (step t c) cs) date))
            (same_day t c date e) (run_day cs (step t c) date)))
  | inr e ↦
      rw (e, of_day)
        (subst
          (λ (b : DailyBucket).
            Counts b (of_day date cs) (snapshot_for_day (run (step t c) cs) date))
          (snapshot_for_day-step t c date ∙ rw e refl) (run_day cs (step t c) date))
]

-- The lifetime counters grow by what all the calls amount to, whatever their dates.
pub run_lifetime :
    (cs : List Call) (t : UsageTracker)
    → ((run t cs).lifetime.total_requests
        ≡ t.lifetime.total_requests + (successes cs + failures cs))
      × ((run t cs).lifetime.successful_requests ≡ t.lifetime.successful_requests + successes cs)
      × ((run t cs).lifetime.failed_requests ≡ t.lifetime.failed_requests + failures cs)
      × ((run t cs).lifetime.input_tokens + (run t cs).lifetime.output_tokens
          ≡ t.lifetime.input_tokens + t.lifetime.output_tokens + tokens cs)
unfolding run step record_success record_failure
run_lifetime [] t = (omega arith, omega arith, omega arith, omega arith)
run_lifetime (succeeds today i o r ∷ cs) t =
    ground (arith, run_lifetime cs (record_success t today i o r))
run_lifetime (fails today r ∷ cs) t = ground (arith, run_lifetime cs (record_failure t today r))
