-- ===== src/Books/Sound.antt =====
-- The sessions' accounts against the service's: what the sessions count together, the usage tracker
-- has counted.
use pool_gate.Common.{ℕ, ◌+◌, ◌≤◌, ◌≡◌, refl, String, Bool, arith}
use pool_gate.Dict.Laws.{IsDict}
use pool_gate.Session.{SessionUsageTracker, SessionManager, new_session}
use pool_gate.Session
use pool_gate.Tracking.Usage.{GlobalUsage, UsageTracker, one_if}
use pool_gate.Tracking.Usage
use pool_gate.Tracking.Manager
use pool_gate.Books.Sums.{over, Within, on_session-Within}
use pool_gate.Books.{Books, Request, Moment, book_success, book_failure}

-- The counters that a session and the service both keep.
pub data Column : Type 0 where
  requests successes failures retries tokens_in tokens_out : Column

abbrev pub of_session : Column → SessionUsageTracker → ℕ
of_session requests s = s.total_requests
of_session successes s = s.successful_requests
of_session failures s = s.failed_requests
of_session retries s = s.retries
of_session tokens_in s = s.input_tokens
of_session tokens_out s = s.output_tokens

abbrev pub of_usage : Column → GlobalUsage → ℕ
of_usage requests u = u.total_requests
of_usage successes u = u.successful_requests
of_usage failures u = u.failed_requests
of_usage retries u = u.total_retries
of_usage tokens_in u = u.input_tokens
of_usage tokens_out u = u.output_tokens

abbrev pub life : Books → GlobalUsage
life b = b.tracking.usage_tracker.lifetime

-- The sessions stand once each, their counters together are at most those of the service, and the
-- requests of the service are its successes and failures.
pub record Sound (b : Books) : Type 0 where
  pub ids : IsDict b.sessions.sessions
  pub covered : (c : Column) → over (of_session c) b.sessions ≤ of_usage c (life b)
  pub balanced : (life b).total_requests ≡ (life b).successful_requests + (life b).failed_requests

pub fresh :
    (c : Column) (id : String) (now expires : ℕ) → of_session c (new_session id now expires) ≡ 0
unfolding new_session
fresh requests id now expires = refl
fresh successes id now expires = refl
fresh failures id now expires = refl
fresh retries id now expires = refl
fresh tokens_in id now expires = refl
fresh tokens_out id now expires = refl

-- What a success and a failure add to each counter.
success_adds : Column → Bool → ℕ → ℕ → ℕ
success_adds requests retried x y = 1
success_adds successes retried x y = 1
success_adds failures retried x y = 0
success_adds retries retried x y = one_if retried
success_adds tokens_in retried x y = x
success_adds tokens_out retried x y = y

failure_adds : Column → Bool → ℕ
failure_adds requests retried = 1
failure_adds successes retried = 0
failure_adds failures retried = 1
failure_adds retries retried = one_if retried
failure_adds tokens_in retried = 0
failure_adds tokens_out retried = 0

success_on_session :
    (c : Column) (s : SessionUsageTracker) (model : String) (x y latency : ℕ) (retried : Bool)
    (now : ℕ)
    → of_session c (Session.record_success s model x y latency retried now)
      ≤ of_session c s + success_adds c retried x y
unfolding Session.record_success success_adds
success_on_session requests s model x y latency retried now = omega arith
success_on_session successes s model x y latency retried now = omega arith
success_on_session failures s model x y latency retried now = omega arith
success_on_session retries s model x y latency retried now = omega arith
success_on_session tokens_in s model x y latency retried now = omega arith
success_on_session tokens_out s model x y latency retried now = omega arith

success_on_usage :
    (c : Column) (u : UsageTracker) (today : String) (x y : ℕ) (retried : Bool)
    → of_usage c (Usage.record_success u today x y retried).lifetime
      ≡ of_usage c u.lifetime + success_adds c retried x y
unfolding Usage.record_success success_adds
success_on_usage requests u today x y retried = refl
success_on_usage successes u today x y retried = refl
success_on_usage failures u today x y retried = omega arith
success_on_usage retries u today x y retried = refl
success_on_usage tokens_in u today x y retried = refl
success_on_usage tokens_out u today x y retried = refl

failure_on_session :
    (c : Column) (s : SessionUsageTracker) (retried : Bool) (now : ℕ)
    → of_session c (Session.record_failure s retried now) ≤ of_session c s + failure_adds c retried
unfolding Session.record_failure failure_adds
failure_on_session requests s retried now = omega arith
failure_on_session successes s retried now = omega arith
failure_on_session failures s retried now = omega arith
failure_on_session retries s retried now = omega arith
failure_on_session tokens_in s retried now = omega arith
failure_on_session tokens_out s retried now = omega arith

failure_on_usage :
    (c : Column) (u : UsageTracker) (today : String) (retried : Bool)
    → of_usage c (Usage.record_failure u today retried).lifetime
      ≡ of_usage c u.lifetime + failure_adds c retried
unfolding Usage.record_failure failure_adds
failure_on_usage requests u today retried = refl
failure_on_usage successes u today retried = omega arith
failure_on_usage failures u today retried = refl
failure_on_usage retries u today retried = refl
failure_on_usage tokens_in u today retried = omega arith
failure_on_usage tokens_out u today retried = omega arith

-- Books whose sessions gained at most what the service gained.
grown-Sound :
    (b b' : Books) (adds : Column → ℕ)
    → ((c : Column) → Within (of_session c) b.sessions (adds c) b'.sessions)
    → ((c : Column) → of_usage c (life b') ≡ of_usage c (life b) + adds c)
    → adds requests ≡ adds successes + adds failures
    → Sound b
    → Sound b'
grown-Sound b b' adds w grows e h = record {
  ids = (w requests).0 h.ids;
  covered = λ c. omega (arith, (w c).1, h.covered c, grows c);
  balanced = omega (arith, grows requests, grows successes, grows failures, h.balanced, e);
}

-- A change of the sessions that adds nothing.
pub sessions-Sound :
    (b : Books) (m : SessionManager)
    → ((c : Column) → Within (of_session c) b.sessions 0 m)
    → Sound b
    → Sound (record b { sessions = m })
sessions-Sound b m w h =
    grown-Sound b (record b { sessions = m }) (λ c. 0) w (λ c. omega arith) refl h

pub book_success-Sound :
    (b : Books) (request : Request) (at : Moment) (key : String) (latency x y : ℕ) (retried : Bool)
    → Sound b
    → Sound (book_success b request at key latency x y retried)
unfolding book_success Manager.record_success success_adds
book_success-Sound b request at key latency x y retried h =
    grown-Sound b (book_success b request at key latency x y retried)
      (λ c. success_adds c retried x y)
      (λ c.
        on_session-Within (of_session c) (fresh c) b.sessions request.session_id at.clock.wall
          (success_adds c retried x y) _
          (λ s. success_on_session c s request.model x y latency retried at.clock.wall))
      (λ c. success_on_usage c b.tracking.usage_tracker at.today.usage x y retried) refl h

pub book_failure-Sound :
    (b : Books) (request : Request) (at : Moment) (retried : Bool)
    → Sound b
    → Sound (book_failure b request at retried)
unfolding book_failure Manager.record_failure failure_adds
book_failure-Sound b request at retried h =
    grown-Sound b (book_failure b request at retried) (λ c. failure_adds c retried)
      (λ c.
        on_session-Within (of_session c) (fresh c) b.sessions request.session_id at.clock.wall
          (failure_adds c retried) _ (λ s. failure_on_session c s retried at.clock.wall))
      (λ c. failure_on_usage c b.tracking.usage_tracker at.today.usage retried) refl h
