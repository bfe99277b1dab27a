-- ===== src/Pool/Key.antt =====
-- `APIKeyState` of poolgate/pool/key_pool.py, with `APIKeyStatus` of
-- poolgate/schemas/common/runtime.py. A method that reads a clock takes the reading, once for the
-- whole method: `mono` for `time.monotonic`, `wall` for `time.time`. A read of a request counter
-- also evicts from it; the model keeps the number that is read, since no eviction changes a later
-- count (`Window.Sliding.count-recorded`). The attributes `weight`, `max_rpm` and `priority`, which
-- the class does not declare and the strategies look for, are options here.
pub mod Score
pub mod Counts
pub mod Availability
use pool_gate.Common.{
  ℕ, zero, ◌+◌, ◌-◌, ◌*◌, String, Bool, true, false, not, ◌&&◌, ◌||◌, Option, none, some, List, ltb,
  second, if◌then◌else◌,
}
use pool_gate.Window.Sliding.{SlidingWindowCounter}
use pool_gate.Window.Sliding
use pool_gate.Latency.{LatencyTracker}
use pool_gate.Latency
use pool_gate.Mask.{mask_key}

pub data ApiKeyStatus : Type 0 where
  active rate_limited cooldown failed disabled exhausted : ApiKeyStatus

pub record Clock : Type 0 where
  pub mono : ℕ
  pub wall : ℕ

pub record ApiKeyState : Type 0 where
  pub key_id : String
  pub raw_key : List ℕ
  pub masked_key : List ℕ
  pub status : ApiKeyStatus
  pub created_at : ℕ
  pub last_used : ℕ
  pub rpm_counter : SlidingWindowCounter
  pub rph_counter : SlidingWindowCounter
  pub rpd_counter : SlidingWindowCounter
  pub input_tokens : ℕ
  pub output_tokens : ℕ
  pub total_tokens : ℕ
  pub success_count : ℕ
  pub failure_count : ℕ
  pub last_failure : ℕ
  pub last_success : ℕ
  pub consecutive_429s : ℕ
  pub consecutive_failures : ℕ
  pub cooldown_until : ℕ
  pub latency_tracker : LatencyTracker
  pub active_requests : ℕ
  pub max_parallel_requests : ℕ
  pub weight : Option ℕ
  pub max_rpm : Option ℕ
  pub priority : Option ℕ

unfoldable pub from_key : Clock → String → List ℕ → ℕ → ApiKeyState
from_key now key_id raw_key max_parallel = record {
  key_id = key_id;
  raw_key = raw_key;
  masked_key = mask_key raw_key;
  status = active;
  created_at = now.wall;
  last_used = 0;
  rpm_counter = Sliding.new (60 * second);
  rph_counter = Sliding.new (3600 * second);
  rpd_counter = Sliding.new (86400 * second);
  input_tokens = 0;
  output_tokens = 0;
  total_tokens = 0;
  success_count = 0;
  failure_count = 0;
  last_failure = 0;
  last_success = 0;
  consecutive_429s = 0;
  consecutive_failures = 0;
  cooldown_until = 0;
  latency_tracker = Latency.new 200;
  active_requests = 0;
  max_parallel_requests = max_parallel;
  weight = none;
  max_rpm = none;
  priority = none;
}

abbrev pub is_active : ApiKeyStatus → Bool
is_active active = true
is_active _ = false

abbrev pub is_rate_limited : ApiKeyStatus → Bool
is_rate_limited rate_limited = true
is_rate_limited _ = false

unfoldable pub requests_per_minute : ApiKeyState → Clock → ℕ
requests_per_minute k now = (Sliding.count k.rpm_counter now.mono).0

unfoldable pub is_cooling_down : ApiKeyState → Clock → Bool
is_cooling_down k now = ltb now.mono k.cooldown_until

unfoldable pub is_available : ApiKeyState → Clock → Bool
unfolding is_cooling_down
is_available k now =
    is_active k.status
    && (not (is_cooling_down k now) && ltb k.active_requests k.max_parallel_requests)

unfoldable pub record_request_start : ApiKeyState → Clock → ApiKeyState
record_request_start k now = record k {
  active_requests = k.active_requests + 1;
  last_used = now.wall;
  rpm_counter = Sliding.record_event k.rpm_counter now.mono;
  rph_counter = Sliding.record_event k.rph_counter now.mono;
  rpd_counter = Sliding.record_event k.rpd_counter now.mono;
}

-- A success ends the rate-limited state.
abbrev pub after_success : ApiKeyStatus → ApiKeyStatus
after_success rate_limited = active
after_success status = status

unfoldable pub record_request_end : ApiKeyState → Clock → ℕ → ℕ → ℕ → ApiKeyState
record_request_end k now latency tokens_in tokens_out = record k {
  active_requests = k.active_requests - 1;
  success_count = k.success_count + 1;
  last_success = now.wall;
  consecutive_429s = 0;
  consecutive_failures = 0;
  input_tokens = k.input_tokens + tokens_in;
  output_tokens = k.output_tokens + tokens_out;
  total_tokens = k.total_tokens + (tokens_in + tokens_out);
  latency_tracker = Latency.record_sample k.latency_tracker latency;
  status = after_success k.status;
}

unfoldable pub record_failure : ApiKeyState → Clock → Bool → ℕ → ApiKeyState
record_failure k now true cooldown_secs = record k {
  active_requests = k.active_requests - 1;
  failure_count = k.failure_count + 1;
  consecutive_failures = k.consecutive_failures + 1;
  last_failure = now.wall;
  consecutive_429s = k.consecutive_429s + 1;
  status = rate_limited;
  cooldown_until = now.mono + cooldown_secs;
}
record_failure k now false cooldown_secs = record k {
  active_requests = k.active_requests - 1;
  failure_count = k.failure_count + 1;
  consecutive_failures = k.consecutive_failures + 1;
  last_failure = now.wall;
  consecutive_429s = 0;
}

unfoldable pub mark_disabled : ApiKeyState → ApiKeyState
mark_disabled k = record k { status = disabled }

unfoldable pub mark_failed : ApiKeyState → ApiKeyState
mark_failed k = record k { status = failed }

abbrev pub after_reset : ApiKeyStatus → ApiKeyStatus
after_reset rate_limited = active
after_reset cooldown = active
after_reset status = status

unfoldable pub reset_cooldown : ApiKeyState → ApiKeyState
reset_cooldown k = record k { cooldown_until = 0; status = after_reset k.status }
