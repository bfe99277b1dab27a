-- ===== src/Tracking/Usage.antt =====
-- `UsageTracker` of poolgate/tracking/usage.py and `DailyBucket` of poolgate/tracking/models.py. A
-- method that reads the date takes it. The lock makes a method one step; the rate of successes in
-- the snapshot is a float and is left out.
pub mod Days
pub mod Export
use pool_gate.Common.{ℕ, ◌+◌, String, Bool, true, false, if◌then◌else◌, List, [], ◌∷◌}
use pool_gate.Dict.{Dict, get_or, put, has}

pub record GlobalUsage : Type 0 where
  pub total_requests : ℕ
  pub successful_requests : ℕ
  pub failed_requests : ℕ
  pub total_retries : ℕ
  pub input_tokens : ℕ
  pub output_tokens : ℕ

pub record DailyBucket : Type 0 where
  pub date : String
  pub requests : ℕ
  pub successful_requests : ℕ
  pub failed_requests : ℕ
  pub tokens_in : ℕ
  pub tokens_out : ℕ

pub record UsageTracker : Type 0 where
  pub lifetime : GlobalUsage
  pub days : Dict DailyBucket

-- `DailyBucket(date=date)`
unfoldable pub new_day : String → DailyBucket
new_day date = record {
  date = date;
  requests = 0;
  successful_requests = 0;
  failed_requests = 0;
  tokens_in = 0;
  tokens_out = 0;
}

unfoldable pub new : UsageTracker
new = record {
  lifetime = record {
    total_requests = 0;
    successful_requests = 0;
    failed_requests = 0;
    total_retries = 0;
    input_tokens = 0;
    output_tokens = 0;
  };
  days = [];
}

-- `_bucket_for_today`, with the writes that follow it to the bucket.
unfoldable pub bucket_for_today :
    Dict DailyBucket → String → (DailyBucket → DailyBucket) → Dict DailyBucket
bucket_for_today days today write = put days today (write (get_or days today (new_day today)))

abbrev pub one_if : Bool → ℕ
one_if true = 1
one_if false = 0

unfoldable pub success_on : ℕ → ℕ → DailyBucket → DailyBucket
success_on tokens_in tokens_out day = record day {
  requests = day.requests + 1;
  successful_requests = day.successful_requests + 1;
  tokens_in = day.tokens_in + tokens_in;
  tokens_out = day.tokens_out + tokens_out;
}

unfoldable pub failure_on : DailyBucket → DailyBucket
failure_on day = record day {
  requests = day.requests + 1;
  failed_requests = day.failed_requests + 1;
}

unfoldable pub record_success : UsageTracker → String → ℕ → ℕ → Bool → UsageTracker
record_success t today tokens_in tokens_out retried =
    let u = t.lifetime in
    record {
      lifetime = record u {
        total_requests = u.total_requests + 1;
        successful_requests = u.successful_requests + 1;
        input_tokens = u.input_tokens + tokens_in;
        output_tokens = u.output_tokens + tokens_out;
        total_retries = u.total_retries + one_if retried;
      };
      days = bucket_for_today t.days today (success_on tokens_in tokens_out);
    }

unfoldable pub record_failure : UsageTracker → String → Bool → UsageTracker
record_failure t today retried =
    let u = t.lifetime in
    record {
      lifetime = record u {
        total_requests = u.total_requests + 1;
        failed_requests = u.failed_requests + 1;
        total_retries = u.total_retries + one_if retried;
      };
      days = bucket_for_today t.days today failure_on;
    }

-- The bucket behind `snapshot_for_day`, under the key that `date or today_str()` gave.
unfoldable pub snapshot_for_day : UsageTracker → String → DailyBucket
snapshot_for_day t date = get_or t.days date (new_day date)
