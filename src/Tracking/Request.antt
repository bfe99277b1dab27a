-- ===== src/Tracking/Request.antt =====
-- `RequestTracker` of poolgate/tracking/request.py. A read of a counter evicts from it, so a method
-- that counts returns the tracker too. The methods `record`, `update`, `get_request` and `snapshot`
-- only pass on to these.
pub mod Scopes
use pool_gate.Common.{ℕ, ◌-◌, String, none, some, []}
use pool_gate.Dict.{Dict, get, get_or, put}
use pool_gate.Window.Rolling.{RollingWindowCounter, add, count_since, reset_in_seconds}
use pool_gate.Window.Rolling

abbrev pub minute : ℕ
minute = 60

-- `DAY = 24 * 60 * 60`
abbrev pub day : ℕ
day = 86400

pub record RequestTracker : Type 0 where
  pub scopes : Dict RollingWindowCounter

abbrev pub new : RequestTracker
new = record { scopes = [] }

unfoldable pub record_request : RequestTracker → String → ℕ → RequestTracker
record_request t scope now = record {
  scopes = put t.scopes scope (add (get_or t.scopes scope (Rolling.new day)) 1 now);
}

-- `_count`
unfoldable pub count_scope : RequestTracker → String → ℕ → ℕ → ℕ × RequestTracker
count_scope t scope seconds now = elim (get t.scopes scope) [
  | none ↦ (0, t)
  | some counter ↦
      let (n, counter') = count_since counter seconds now in
      (n, record { scopes = put t.scopes scope counter' })
]

unfoldable pub requests_per_minute : RequestTracker → String → ℕ → ℕ × RequestTracker
requests_per_minute t scope now = count_scope t scope minute now

unfoldable pub requests_per_day : RequestTracker → String → ℕ → ℕ × RequestTracker
requests_per_day t scope now = count_scope t scope day now

unfoldable pub remaining_rpm : RequestTracker → String → ℕ → ℕ → ℕ × RequestTracker
remaining_rpm t scope limit now = let (n, t') = requests_per_minute t scope now in (limit - n, t')

unfoldable pub remaining_rpd : RequestTracker → String → ℕ → ℕ → ℕ × RequestTracker
remaining_rpd t scope limit now = let (n, t') = requests_per_day t scope now in (limit - n, t')

unfoldable pub seconds_until_rpm_frees_up : RequestTracker → String → ℕ → ℕ
seconds_until_rpm_frees_up t scope now = elim (get t.scopes scope) [
  | none ↦ 0
  | some counter ↦ reset_in_seconds counter minute now
]

unfoldable pub seconds_until_rpd_frees_up : RequestTracker → String → ℕ → ℕ
seconds_until_rpd_frees_up t scope now = elim (get t.scopes scope) [
  | none ↦ 0
  | some counter ↦ reset_in_seconds counter day now
]
