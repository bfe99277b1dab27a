-- ===== src/Tests/Requests.antt =====
-- The theorems of the rotation and of the usage counters at concrete inputs.
use pool_gate.Common.{
  some, get_elem?, ◌-◌, ℕ, zero, suc, subst, ◌+◌, ◌≡◌, refl, true, false, none, List, [], ◌∷◌,
}
use pool_gate.Retry.{Exception, other, is_auth_error}
use pool_gate.Pool.Key.{ApiKeyState}
use pool_gate.Tracking.Usage.{new, snapshot_for_day}
use pool_gate.Tracking.Usage.Days
use pool_gate.Tracking.Usage.Days.{
  Counts, succeeds, fails, of_day, successes, failures, tokens, run, run_day, run_lifetime,
}
use pool_gate.Books.{Request, Moment}
use pool_gate.Session
use pool_gate.Tracking.Manager
use pool_gate.Tracking.Manager.{one_day}
use pool_gate.Rotation.{is_passed_on, Reply, answered, raised, Attempt, Service, run_with_rotation}
use pool_gate.Gemini.{close_stream, close_stream_closes_twice}
use pool_gate.Streams.{stream, stream-Booked}
use pool_gate.Rotation.Accounts.{Booked, run_with_rotation-Booked}
use pool_gate.Rotation.Open.{opens, IsMild, Stands, run_with_rotation-Stands}
use pool_gate.Tests.Keys.{key_a, early, late, whole}
use pool_gate.Tests.Schedulers.{two_keys, two_keys-Distinct}

abbrev pub request : Request
request = record { model = "llama"; session_id = "one" }

abbrev pub closing : Moment
closing = record { clock = late; today = one_day "2025-01-31" }

abbrev pub service : Service
service = record {
  scheduler = two_keys;
  books = record { tracking = Manager.new; sessions = Session.new 24 };
}

abbrev pub timeout : Exception
timeout = record { class = other; type_name = "APITimeoutError"; status_code = none }

-- The first attempt times out, and the second is answered.
abbrev reply : ℕ → Reply ℕ
reply zero = raised timeout
reply (suc n) = answered 42 3 4

abbrev env : ℕ → Attempt ℕ
env index = record {
  starts_at = early;
  ends_at = late;
  latency = 7;
  today = one_day "2025-01-31";
  call = λ k. reply index;
}

env-IsMild : IsMild env
unfolding is_auth_error
env-IsMild zero k exc h =
    let e : timeout ≡ exc = cc in
    (
      subst (λ (x : Exception). is_passed_on x.class ≡ false) e refl,
      subst (λ (x : Exception). is_auth_error x ≡ false) e refl,
    )
env-IsMild (suc n) k exc h = cc

run_with_rotation-Booked_example :
    Booked request 3 env closing service.books
      (run_with_rotation request whole none service 2 env closing).0
      (run_with_rotation request whole none service 2 env closing).1.books
run_with_rotation-Booked_example = run_with_rotation-Booked request whole none service 2 env closing

stream-Booked_example :
    Booked request 3 env closing service.books
      (stream request whole none service 2 env (λ index k. false) closing).0
      (stream request whole none service 2 env (λ index k. false) closing).1.books
stream-Booked_example = stream-Booked request whole none service 2 env (λ index k. false) closing

close_stream_closes_twice_example :
    (k' : ApiKeyState) × (get_elem? (close_stream two_keys late 0 7 (1, 2) (some timeout)).keys 0
      ≡ some k')
    × (k'.success_count ≡ key_a.success_count + 1)
    × (k'.failure_count ≡ key_a.failure_count + 1)
    × (k'.active_requests ≡ key_a.active_requests - 2)
    × (k'.consecutive_failures ≡ 0)
unfolding is_auth_error
close_stream_closes_twice_example =
    close_stream_closes_twice two_keys late 0 7 1 2 timeout key_a refl refl

run_with_rotation-Stands_example :
    Stands (opens two_keys.keys) (run_with_rotation request whole none service 2 env closing).1
run_with_rotation-Stands_example =
    run_with_rotation-Stands request whole none service 2 env closing env-IsMild two_keys-Distinct

abbrev calls : List Days.Call
calls =
    succeeds "2025-01-31" 3 4 false ∷ fails "2025-02-01" true ∷ succeeds "2025-01-31" 1 1 true ∷ []

run_day_example :
    Counts
      (snapshot_for_day new "2025-01-31")
      (of_day "2025-01-31" calls)
      (snapshot_for_day (run new calls) "2025-01-31")
run_day_example = run_day calls new "2025-01-31"
