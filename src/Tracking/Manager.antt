-- ===== src/Tracking/Manager.antt =====
-- `TrackingManager` of poolgate/tracking/manager.py. A `scope` or an `api_key_id` that is empty counts
-- as none. `update_quota_from_headers`, which passes on to the quota tracker, and `snapshot` are left
-- out.
pub mod Agree
use pool_gate.Common.{ℕ, ◌+◌, String, Bool, true, false, if◌then◌else◌, str_eq, Option, none, some}
use pool_gate.Quota.{QuotaTracker}
use pool_gate.Quota
use pool_gate.Tracking.Usage.{UsageTracker}
use pool_gate.Tracking.Usage
use pool_gate.Tracking.Request.{RequestTracker, record_request}
use pool_gate.Tracking.Request
use pool_gate.Tracking.Token.{TokenTracker, record_tokens}
use pool_gate.Tracking.Token
use pool_gate.Tracking.Account.{AccountTracker, record_use}
use pool_gate.Tracking.Account

pub record TrackingManager : Type 0 where
  pub usage_tracker : UsageTracker
  pub request_tracker : RequestTracker
  pub token_tracker : TokenTracker
  pub quota_tracker : QuotaTracker
  pub account_tracker : AccountTracker

unfoldable pub new : TrackingManager
new = record {
  usage_tracker = Usage.new;
  request_tracker = Request.new;
  token_tracker = Token.new;
  quota_tracker = Quota.new;
  account_tracker = Account.new;
}

-- The dates that the trackers read in a call, each for itself: `today_str()` of the usage tracker, of the
-- token tracker for the input and for the output, and of the account tracker.
pub record Dates : Type 0 where
  pub usage : String
  pub input : String
  pub output : String
  pub account : String

-- The dates of a call that does not run across midnight.
abbrev pub one_day : String → Dates
one_day today = record { usage = today; input = today; output = today; account = today }

-- `scope or model`
abbrev pub scope_or : Option String → String → String
scope_or none model = model
scope_or (some scope) model = if str_eq scope "" then model else scope

-- `if api_key_id: self.account_tracker.record_use(api_key_id, tokens)`
unfoldable pub use_key : AccountTracker → Option String → ℕ → ℕ → String → AccountTracker
use_key t none tokens now today = t
use_key t (some api_key_id) tokens now today =
    if str_eq api_key_id "" then t else record_use t api_key_id tokens now today

unfoldable pub record_success :
    TrackingManager
    → String
    → ℕ
    → ℕ
    → Option String
    → Option String
    → Bool
    → ℕ
    → Dates
    → TrackingManager
record_success m model tokens_in tokens_out api_key_id scope retried now dates = record m {
  usage_tracker = Usage.record_success m.usage_tracker dates.usage tokens_in tokens_out retried;
  request_tracker = record_request m.request_tracker (scope_or scope model) now;
  token_tracker =
      record_tokens m.token_tracker model tokens_in tokens_out now dates.input dates.output;
  account_tracker = use_key m.account_tracker api_key_id (tokens_in + tokens_out) now dates.account;
}

unfoldable pub record_failure :
    TrackingManager → String → Option String → Option String → Bool → ℕ → Dates → TrackingManager
record_failure m model api_key_id scope retried now dates = record m {
  usage_tracker = Usage.record_failure m.usage_tracker dates.usage retried;
  request_tracker = record_request m.request_tracker (scope_or scope model) now;
  account_tracker = use_key m.account_tracker api_key_id 0 now dates.account;
}
