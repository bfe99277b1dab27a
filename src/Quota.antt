-- ===== src/Quota.antt =====
-- `QuotaTracker` of poolgate/throttling/quota.py and `ThrottleManager` of
-- poolgate/throttling/limiter.py. A snapshot keeps the two counters and the times as the provider
-- reported them; an optional number is `none` where the provider reported none. The counters are
-- natural numbers, as they are after any `consume`.
pub mod Exhaustion
pub mod Throttle
use pool_gate.Common.{
  ℕ, zero, ◌+◌, ◌-◌, ◌==◌, String, Bool, true, false, not, ◌||◌, Option, none, some, List, [], ◌∷◌,
  ltb, if◌then◌else◌,
}
use pool_gate.Dict.{Dict, get, put}
use pool_gate.Window.Sliding.{SlidingWindowCounter, record_event, count}
use pool_gate.Window.Sliding

pub record QuotaSnapshot : Type 0 where
  pub model : String
  pub remaining_rpd : Option ℕ
  pub remaining_tpd : Option ℕ
  -- In microseconds.
  pub reset_requests : Option ℕ
  pub reset_tokens : Option ℕ
  pub last_updated : ℕ

pub record QuotaTracker : Type 0 where
  pub quotas : Dict QuotaSnapshot

abbrev pub new : QuotaTracker
new = record { quotas = [] }

unfoldable pub update :
    QuotaTracker → String → Option ℕ → Option ℕ → Option ℕ → Option ℕ → ℕ → QuotaTracker
update t model remaining_rpd remaining_tpd reset_requests reset_tokens now = record {
  quotas = put t.quotas model (record {
    model = model;
    remaining_rpd = remaining_rpd;
    remaining_tpd = remaining_tpd;
    reset_requests = reset_requests;
    reset_tokens = reset_tokens;
    last_updated = now;
  });
}

-- `max(0, n - used)`, where there is a number.
unfoldable pub spend : Option ℕ → ℕ → Option ℕ
spend none used = none
spend (some n) used = some (n - used)

unfoldable pub consume : QuotaTracker → String → ℕ → ℕ → ℕ → QuotaTracker
consume t model requests tokens now = elim (get t.quotas model) [
  | none ↦ t
  | some snap ↦ record {
    quotas = put t.quotas model (record snap {
      remaining_rpd = spend snap.remaining_rpd requests;
      remaining_tpd = spend snap.remaining_tpd tokens;
      last_updated = now;
    });
  }
]

-- `n == 0`, for a number that may be missing.
abbrev pub is_zero : Option ℕ → Bool
is_zero none = false
is_zero (some n) = n == 0

unfoldable pub is_exhausted : QuotaTracker → String → Bool
is_exhausted t model = elim (get t.quotas model) [
  | none ↦ false
  | some snap ↦ is_zero snap.remaining_rpd || is_zero snap.remaining_tpd
]

unfoldable pub check_quota : QuotaTracker → String → Bool
check_quota t model = not (is_exhausted t model)

-- `get_remaining`: the two counters.
unfoldable pub get_remaining : QuotaTracker → String → Option ℕ × Option ℕ
get_remaining t model = elim (get t.quotas model) [
  | none ↦ (none, none)
  | some snap ↦ (snap.remaining_rpd, snap.remaining_tpd)
]

pub record ThrottleManager : Type 0 where
  pub rpm_limit : ℕ
  pub window : SlidingWindowCounter
  pub quota : QuotaTracker

-- The window is in the unit of the clock.
unfoldable pub new_throttle : ℕ → ℕ → ThrottleManager
new_throttle rpm_limit window = record {
  rpm_limit = rpm_limit;
  window = Sliding.new window;
  quota = new;
}

unfoldable pub check_rpm : ThrottleManager → ℕ → Bool × ThrottleManager
check_rpm m now =
    let (n, window) = count m.window now in (ltb n m.rpm_limit, record m { window = window })

unfoldable pub record_request : ThrottleManager → ℕ → ThrottleManager
record_request m now = record m { window = record_event m.window now }
