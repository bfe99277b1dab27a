-- ===== src/Tracking/Account.antt =====
-- `AccountTracker` of poolgate/tracking/account.py. The lock is released before `count_since`, which
-- has one of its own; a method is one step here. `record_request` and `get_stats` only pass on.
pub mod Totals
use pool_gate.Common.{
  ℕ, zero, suc, ◌+◌, ◌==◌, String, Option, none, some, List, [], ◌∷◌, map, if◌then◌else◌, ltb,
}
use pool_gate.Dict.{Dict, get, get_or, put}
use pool_gate.Window.Rolling.{RollingWindowCounter, add, count_since}
use pool_gate.Window.Rolling
use pool_gate.Tracking.Request.{day}

pub record KeyState : Type 0 where
  pub request_window : RollingWindowCounter
  pub token_window : RollingWindowCounter
  pub daily_requests : Dict ℕ
  pub daily_tokens : Dict ℕ
  pub last_used : Option ℕ

pub record AccountTracker : Type 0 where
  pub keys : Dict KeyState

-- `_KeyState()`
unfoldable pub new_key : KeyState
new_key = record {
  request_window = Rolling.new day;
  token_window = Rolling.new day;
  daily_requests = [];
  daily_tokens = [];
  last_used = none;
}

abbrev pub new : AccountTracker
new = record { keys = [] }

-- `d[date] = d.get(date, 0) + n`
unfoldable pub count_on : Dict ℕ → String → ℕ → Dict ℕ
count_on d date n = put d date (get_or d date 0 + n)

-- What `record_use` does to the state of a key.
unfoldable pub use_state : KeyState → ℕ → ℕ → String → KeyState
use_state state tokens now today = record {
  request_window = add state.request_window 1 now;
  token_window = if tokens == 0 then state.token_window else add state.token_window tokens now;
  daily_requests = count_on state.daily_requests today 1;
  daily_tokens =
      if tokens == 0 then state.daily_tokens else count_on state.daily_tokens today tokens;
  last_used = some now;
}

unfoldable pub record_use : AccountTracker → String → ℕ → ℕ → String → AccountTracker
record_use t api_key tokens now today = record {
  keys = put t.keys api_key (use_state (get_or t.keys api_key new_key) tokens now today);
}

unfoldable pub requests_last_24h : AccountTracker → String → ℕ → ℕ × AccountTracker
requests_last_24h t api_key now = elim (get t.keys api_key) [
  | none ↦ (0, t)
  | some state ↦
      let (n, window) = count_since state.request_window day now in
      (n, record { keys = put t.keys api_key (record state { request_window = window }) })
]

unfoldable pub tokens_last_24h : AccountTracker → String → ℕ → ℕ × AccountTracker
tokens_last_24h t api_key now = elim (get t.keys api_key) [
  | none ↦ (0, t)
  | some state ↦
      let (n, window) = count_since state.token_window day now in
      (n, record { keys = put t.keys api_key (record state { token_window = window }) })
]

-- `snapshot`: the requests and the tokens of the day, and when the key was last used.
unfoldable pub snapshot : AccountTracker → String → String → ℕ × (ℕ × Option ℕ)
snapshot t api_key today = elim (get t.keys api_key) [
  | none ↦ (0, (0, none))
  | some state ↦
      (get_or state.daily_requests today 0, (get_or state.daily_tokens today 0, state.last_used))
]

unfoldable pub reset : AccountTracker → AccountTracker
reset t = record { keys = [] }
