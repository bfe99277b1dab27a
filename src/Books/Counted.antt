-- ===== src/Books/Counted.antt =====
-- What one recorded success or failure counts.
use pool_gate.Common.{
  ℕ, ◌+◌, ◌≡◌, refl, ap, ◌∙◌, String, Bool, true, false, Option, none, some, eq_iff, if◌then◌else◌,
  arith, str_eq,
}
use pool_gate.Dict.{get, remove}
use pool_gate.Dict.Laws.{get-put}
use pool_gate.Session.{SessionUsageTracker, SessionManager, is_expired, get_session, record_success}
use pool_gate.Tracking.Manager
use pool_gate.Tracking.Usage.{UsageTracker}
use pool_gate.Tracking.Usage
use pool_gate.Books.{Books, Request, Moment, on_found, on_session, book_success, book_failure}

-- The lifetime counters grow by these.
abbrev pub Grows : UsageTracker → ℕ → ℕ → UsageTracker → Type 0
Grows u successes failures u' =
    (u'.lifetime.total_requests ≡ u.lifetime.total_requests + 1)
    × (u'.lifetime.successful_requests ≡ u.lifetime.successful_requests + successes)
    × (u'.lifetime.failed_requests ≡ u.lifetime.failed_requests + failures)

pub book_success-usage :
    (b : Books) (request : Request) (at : Moment) (key : String) (latency x y : ℕ) (retried : Bool)
    → (book_success b request at key latency x y retried).tracking.usage_tracker
      ≡ Usage.record_success b.tracking.usage_tracker at.today.usage x y retried
unfolding book_success Manager.record_success
book_success-usage b request at key latency x y retried = refl

pub book_failure-usage :
    (b : Books) (request : Request) (at : Moment) (retried : Bool)
    → (book_failure b request at retried).tracking.usage_tracker
      ≡ Usage.record_failure b.tracking.usage_tracker at.today.usage retried
unfolding book_failure Manager.record_failure
book_failure-usage b request at retried = refl

pub get_session_absent :
    (m : SessionManager) (id : String) (now : ℕ)
    → get m.sessions id ≡ none
    → get_session m id now ≡ (none, m)
unfolding get_session
get_session_absent m id now e = rw (e, get_session) refl

pub get_session_expired :
    (m : SessionManager) (id : String) (now : ℕ) (s : SessionUsageTracker)
    → get m.sessions id ≡ some s
    → is_expired s now ≡ true
    → get_session m id now ≡ (none, record m { sessions = remove m.sessions id })
unfolding get_session
get_session_expired m id now s e x = rw (e, get_session) (rw x refl)

pub get_session_alive :
    (m : SessionManager) (id : String) (now : ℕ) (s : SessionUsageTracker)
    → get m.sessions id ≡ some s
    → is_expired s now ≡ false
    → get_session m id now ≡ (some s, m)
unfolding get_session
get_session_alive m id now s e alive = rw (e, get_session) (rw alive refl)

-- A method of a session that is alive is seen under its id, and under no other.
pub on_session_alive :
    (m : SessionManager) (id other : String) (now : ℕ)
    (method : SessionUsageTracker → SessionUsageTracker) (s : SessionUsageTracker)
    → get m.sessions id ≡ some s
    → is_expired s now ≡ false
    → get (on_session m id now method).sessions other
      ≡ (if str_eq id other then some (method s) else get m.sessions other)
unfolding on_session
on_session_alive m id other now method s e alive =
    ap
      (λ (r : Option SessionUsageTracker × SessionManager).
        get (on_found id method r).sessions other)
      (get_session_alive m id now s e alive)
    ∙ get-put m.sessions id other (method s)

-- A session that is alive when a request is recorded has that success, and the usage tracker too.
pub book_success_counts :
    (b : Books) (request : Request) (at : Moment) (key : String) (latency x y : ℕ) (retried : Bool)
    (s : SessionUsageTracker)
    → get b.sessions.sessions request.session_id ≡ some s
    → is_expired s at.clock.wall ≡ false
    → (get (book_success b request at key latency x y retried).sessions.sessions request.session_id
        ≡ some (record_success s request.model x y latency retried at.clock.wall))
      × Grows b.tracking.usage_tracker 1 0
          (book_success b request at key latency x y retried).tracking.usage_tracker
unfolding book_success Manager.record_success Usage.record_success
book_success_counts b request at key latency x y retried s e alive = (
  on_session_alive b.sessions request.session_id request.session_id at.clock.wall _ s e alive
      ∙ ground (arith, eq_iff request.session_id request.session_id),
  (refl, refl, omega arith),
)
