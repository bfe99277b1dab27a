-- ===== src/Books.antt =====
-- What a request leaves in the trackers and in its session: `_record_success`, `_record_success_raw`
-- and `_record_failure` of poolgate/services/provider.py and gemini_provider.py. A session is changed
-- in place, so what its method returns is put back under its id. The journal is left out.
pub mod Counted
pub mod Sums
pub mod Sound
use pool_gate.Common.{ℕ, ◌+◌, String, Bool, Option, none, some}
use pool_gate.Dict.{put}
use pool_gate.Pool.Key.{Clock}
use pool_gate.Session.{SessionUsageTracker, SessionManager, get_session}
use pool_gate.Session
use pool_gate.Tracking.Manager.{TrackingManager, Dates}
use pool_gate.Tracking.Manager

pub record Books : Type 0 where
  pub tracking : TrackingManager
  pub sessions : SessionManager

-- The arguments of a request that its records name.
pub record Request : Type 0 where
  pub model : String
  pub session_id : String

-- The clock and the dates when something is recorded.
pub record Moment : Type 0 where
  pub clock : Clock
  pub today : Dates

-- `if session:`, a method of the session.
abbrev pub on_found :
    String
    → (SessionUsageTracker → SessionUsageTracker)
    → Option SessionUsageTracker × SessionManager
    → SessionManager
on_found session_id method (none, m) = m
on_found session_id method (some session, m) = record m {
  sessions = put m.sessions session_id (method session);
}

-- `session = self._session_manager.get(session_id)`, and a method of the session if there is one.
unfoldable pub on_session :
    SessionManager → String → ℕ → (SessionUsageTracker → SessionUsageTracker) → SessionManager
on_session m session_id now method = on_found session_id method (get_session m session_id now)

-- `_record_success`, and `_record_success_raw` for results of other types.
unfoldable pub book_success : Books → Request → Moment → String → ℕ → ℕ → ℕ → Bool → Books
book_success b request at api_key_id latency tokens_in tokens_out retried = record {
  tracking =
      Manager.record_success b.tracking request.model tokens_in tokens_out (some api_key_id) none
        retried at.clock.wall at.today;
  sessions = on_session b.sessions request.session_id at.clock.wall (λ session.
      Session.record_success session request.model tokens_in tokens_out latency retried
        at.clock.wall);
}

-- `_record_failure`
unfoldable pub book_failure : Books → Request → Moment → Bool → Books
book_failure b request at retried = record {
  tracking =
      Manager.record_failure b.tracking request.model none none retried at.clock.wall at.today;
  sessions =
      on_session b.sessions request.session_id at.clock.wall
        (λ session. Session.record_failure session retried at.clock.wall);
}
