-- ===== src/Session.antt =====
-- `SessionUsageTracker` and `SessionManager` of poolgate/persistence/session.py. A method that reads
-- the clock takes the reading, once for the whole method, and `get_or_create` takes the text of the
-- `uuid4` that it may draw. The metadata and the averages of `to_dict` are left out.
pub mod Accounts
pub mod Expiry
use pool_gate.Common.{
  ℕ, ◌+◌, ◌*◌, String, Bool, true, false, Option, none, some, List, [], ◌∷◌, map, foldl, ltb,
  str_eq, not, keep_if, length, if◌then◌else◌, second,
}
use pool_gate.Dict.{Dict, get, get_or, put, remove}
use pool_gate.Latency.{LatencyTracker, record_sample}
use pool_gate.Latency
use pool_gate.Result.{Result, ok, err, session_expired}
use pool_gate.Tracking.Usage.{one_if}

pub record ModelUsageStat : Type 0 where
  pub request_count : ℕ
  pub tokens : ℕ
  pub total_latency : ℕ

pub record SessionUsageTracker : Type 0 where
  pub session_id : String
  pub created_at : ℕ
  pub expires_at : ℕ
  pub last_activity : ℕ
  pub total_requests : ℕ
  pub successful_requests : ℕ
  pub failed_requests : ℕ
  pub retries : ℕ
  pub input_tokens : ℕ
  pub output_tokens : ℕ
  pub latency_tracker : LatencyTracker
  pub model_stats : Dict ModelUsageStat

-- `SessionUsageTracker(session_id=..., expires_at=...)`
unfoldable pub new_session : String → ℕ → ℕ → SessionUsageTracker
new_session session_id now expires_at = record {
  session_id = session_id;
  created_at = now;
  expires_at = expires_at;
  last_activity = now;
  total_requests = 0;
  successful_requests = 0;
  failed_requests = 0;
  retries = 0;
  input_tokens = 0;
  output_tokens = 0;
  latency_tracker = Latency.new 200;
  model_stats = [];
}

unfoldable pub is_expired : SessionUsageTracker → ℕ → Bool
is_expired s now = ltb s.expires_at now

-- `ModelUsageStat()`
abbrev pub no_usage : ModelUsageStat
no_usage = record { request_count = 0; tokens = 0; total_latency = 0 }

unfoldable pub use_model : ModelUsageStat → ℕ → ℕ → ModelUsageStat
use_model stat tokens latency = record {
  request_count = stat.request_count + 1;
  tokens = stat.tokens + tokens;
  total_latency = stat.total_latency + latency;
}

unfoldable pub record_success :
    SessionUsageTracker → String → ℕ → ℕ → ℕ → Bool → ℕ → SessionUsageTracker
record_success s model tokens_in tokens_out latency retried now = record s {
  total_requests = s.total_requests + 1;
  successful_requests = s.successful_requests + 1;
  input_tokens = s.input_tokens + tokens_in;
  output_tokens = s.output_tokens + tokens_out;
  last_activity = now;
  latency_tracker = record_sample s.latency_tracker latency;
  retries = s.retries + one_if retried;
  model_stats =
      put s.model_stats model
        (use_model (get_or s.model_stats model no_usage) (tokens_in + tokens_out) latency);
}

unfoldable pub record_failure : SessionUsageTracker → Bool → ℕ → SessionUsageTracker
record_failure s retried now = record s {
  total_requests = s.total_requests + 1;
  failed_requests = s.failed_requests + 1;
  last_activity = now;
  retries = s.retries + one_if retried;
}

pub record SessionManager : Type 0 where
  pub ttl_seconds : ℕ
  pub sessions : Dict SessionUsageTracker

unfoldable pub new : ℕ → SessionManager
new session_ttl_hours = record { ttl_seconds = session_ttl_hours * 3600; sessions = [] }

-- The creation at the end of `get_or_create`.
unfoldable pub create : SessionManager → String → ℕ → Result SessionUsageTracker × SessionManager
create m sid now =
    let tracker = new_session sid now (now + m.ttl_seconds * second) in
    (ok tracker, record m { sessions = put m.sessions sid tracker })

-- `get_or_create` of an id that is given.
unfoldable pub find_or_create :
    SessionManager → String → ℕ → Result SessionUsageTracker × SessionManager
find_or_create m session_id now = elim (get m.sessions session_id) [
  | none ↦ create m session_id now
  | some existing ↦
      if is_expired existing now
      then (err (session_expired session_id), record m { sessions = remove m.sessions session_id })
      else (ok existing, m)
]

-- An id that is empty counts as none.
unfoldable pub get_or_create :
    SessionManager → Option String → String → ℕ → Result SessionUsageTracker × SessionManager
get_or_create m none drawn now = create m drawn now
get_or_create m (some session_id) drawn now =
    if str_eq session_id "" then create m drawn now else find_or_create m session_id now

-- `get`
unfoldable pub get_session :
    SessionManager → String → ℕ → Option SessionUsageTracker × SessionManager
get_session m session_id now = elim (get m.sessions session_id) [
  | none ↦ (none, m)
  | some tracker ↦
      if is_expired tracker now
      then (none, record m { sessions = remove m.sessions session_id })
      else (some tracker, m)
]

-- The ids that `expire_old_sessions` collects.
unfoldable pub expired_ids : Dict SessionUsageTracker → ℕ → List String
expired_ids sessions now = map (λ e. e.0) (keep_if (λ e. is_expired e.1 now) sessions)

unfoldable pub remove_all : Dict SessionUsageTracker → List String → Dict SessionUsageTracker
remove_all = foldl remove

unfoldable pub expire_old_sessions : SessionManager → ℕ → ℕ × SessionManager
expire_old_sessions m now =
    let expired = expired_ids m.sessions now in
    (length expired, record m { sessions = remove_all m.sessions expired })

unfoldable pub active_count : SessionManager → ℕ → ℕ
active_count m now = length (keep_if (λ e. not (is_expired e.1 now)) m.sessions)
