-- ===== src/Gemini.antt =====
-- The streams of poolgate/services/gemini_provider.py, and its key-rotating loops, which go through the same steps as
-- those of poolgate/services/provider.py (`pool_gate.Rotation`).
use pool_gate.Common.{
  ℕ, ap, ◌∙◌, ◌+◌, ◌-◌, ◌<◌, ◌≡◌, refl, Bool, true, false, Option, none, some, get_elem?, set,
  length, arith, get_elem?-set_self, lt-length_of_get_elem?,
}
use pool_gate.Float.{FloatOps}
use pool_gate.Result.{ok, err}
use pool_gate.Retry.{Exception, is_auth_error, is_rate_limit}
use pool_gate.Pool.Key.{Clock, ApiKeyState, record_request_end, record_failure, mark_failed}
use pool_gate.Pool.Strategy.{PoolConfig}
use pool_gate.Pool.Scheduler.{
  RequestScheduler, acquire_key, release_key, mark_key_failure, on_key, failed_key,
}
use pool_gate.Books.{Request, Moment}
use pool_gate.Rotation.{Attempt, Service, Outcome, loop, run_with_rotation, exception_of, fail_held}
use pool_gate.Rotation.Accounts.{Recorded, run_with_rotation-Recorded}

module _ {ℓ} {R : Type ℓ} (request : Request) where
  -- `_run_with_rotation`
  unfoldable pub gemini_rotation :
      FloatOps → Option ℕ → Service → ℕ → (ℕ → Attempt R) → Moment → Outcome R × Service
  gemini_rotation f max_rpm s retries env closing =
      loop request f max_rpm (retries + 1) env closing (retries + 1) 0 s none

  -- `_async_run_with_rotation`
  unfoldable pub async_gemini_rotation :
      FloatOps → Option ℕ → Service → ℕ → (ℕ → Attempt R) → Moment → Outcome R × Service
  async_gemini_rotation f max_rpm s retries env closing =
      loop request f max_rpm (retries + 1) env closing (retries + 1) 0 s none

  -- The loop counts a request once, as the one of the other provider does.
  pub gemini_rotation-Recorded :
      (f : FloatOps) (max_rpm : Option ℕ) (s : Service) (retries : ℕ) (env : ℕ → Attempt R)
      (closing : Moment)
      → let result = gemini_rotation f max_rpm s retries env closing in
        Recorded s.books.tracking.usage_tracker result.0 result.1.books.tracking.usage_tracker
  unfolding gemini_rotation run_with_rotation
  gemini_rotation-Recorded f max_rpm s retries env closing =
      run_with_rotation-Recorded request f max_rpm s retries env closing

-- What follows the stream in `stream`: the handler, which fails or disables the key, and the
-- `finally` clause, which releases it whatever happened, with the tokens collected by then.
unfoldable pub close_stream :
    RequestScheduler → Clock → ℕ → ℕ → ℕ × ℕ → Option Exception → RequestScheduler
close_stream s now i latency (tokens_in, tokens_out) none =
    release_key s now i latency tokens_in tokens_out
close_stream s now i latency (tokens_in, tokens_out) (some exc) =
    release_key (fail_held s now (some i) exc) now i latency tokens_in tokens_out

-- `stream`, from the acquisition of the key on: the exception that it passes on, if any, and the
-- scheduler. The stream is the environment's.
unfoldable pub gemini_stream :
    FloatOps
    → Option ℕ
    → RequestScheduler
    → Clock
    → Clock
    → ℕ
    → ℕ × ℕ
    → Option Exception
    → Option Exception × RequestScheduler
gemini_stream f max_rpm s starts_at ends_at latency collected raises =
    let (acquired, s') = acquire_key f s starts_at max_rpm in
    elim acquired [
      | err e ↦ (some (exception_of e), s')
      | ok i ↦ (raises, close_stream s' ends_at i latency collected raises)
    ]

-- `async_stream`: the same over an asynchronous stream.
unfoldable pub async_gemini_stream :
    FloatOps
    → Option ℕ
    → RequestScheduler
    → Clock
    → Clock
    → ℕ
    → ℕ × ℕ
    → Option Exception
    → Option Exception × RequestScheduler
async_gemini_stream f max_rpm s starts_at ends_at latency collected raises =
    gemini_stream f max_rpm s starts_at ends_at latency collected raises

-- The key after a failure and the release that follows it.
failed_and_released :
    (config : PoolConfig) (k : ApiKeyState) (now : Clock) (limit : Bool) (latency x y : ℕ)
    → let k' = record_request_end (failed_key config now limit k) now latency x y in
      (k'.success_count ≡ k.success_count + 1)
      × (k'.failure_count ≡ k.failure_count + 1)
      × (k'.active_requests ≡ k.active_requests - 2)
      × (k'.consecutive_failures ≡ 0)
unfolding record_request_end failed_key record_failure mark_failed
failed_and_released config k now true latency x y = (refl, refl, omega arith, refl)
failed_and_released config k now false latency x y = ground arith

on_key_at :
    (s : RequestScheduler) (i : ℕ) (k : ApiKeyState) (method : ApiKeyState → ApiKeyState)
    → get_elem? s.keys i ≡ some k
    → on_key s i method ≡ record s { keys = set s.keys i (method k) }
unfolding on_key
on_key_at s i k method at = rw (at, on_key) refl

fail_held_at :
    (s : RequestScheduler) (now : Clock) (i : ℕ) (k : ApiKeyState) (exc : Exception)
    → get_elem? s.keys i ≡ some k
    → is_auth_error exc ≡ false
    → fail_held s now (some i) exc
      ≡ record s { keys = set s.keys i (failed_key s.config now (is_rate_limit exc) k) }
unfolding fail_held mark_key_failure
fail_held_at s now i k exc at not_auth =
    rw (not_auth, fail_held) (on_key_at s i k (failed_key s.config now (is_rate_limit exc)) at)

-- A stream that fails without an authentication error closes its request twice: its key counts a
-- failure and a success, loses two open requests where it has two, and its streak of failures is
-- gone.
pub close_stream_closes_twice :
    (s : RequestScheduler) (now : Clock) (i latency x y : ℕ) (exc : Exception) (k : ApiKeyState)
    → get_elem? s.keys i ≡ some k
    → is_auth_error exc ≡ false
    → (k' : ApiKeyState) × (get_elem? (close_stream s now i latency (x, y) (some exc)).keys i
        ≡ some k')
      × (k'.success_count ≡ k.success_count + 1)
      × (k'.failure_count ≡ k.failure_count + 1)
      × (k'.active_requests ≡ k.active_requests - 2)
      × (k'.consecutive_failures ≡ 0)
unfolding close_stream release_key
close_stream_closes_twice s now i latency x y exc k at not_auth =
    let limit = is_rate_limit exc in
    let failed_k = failed_key s.config now limit k in
    let there : get_elem? (set s.keys i failed_k) i ≡ some failed_k =
      get_elem?-set_self s.keys i failed_k (lt-length_of_get_elem? s.keys i at) in
    let there' : i < length (set s.keys i failed_k) =
      lt-length_of_get_elem? (set s.keys i failed_k) i there in
    let k' = record_request_end failed_k now latency x y in
    let counts = failed_and_released s.config k now limit latency x y in
    (
      k',
      ap (λ (t : RequestScheduler). get_elem? t.keys i)
            (ap (λ (t : RequestScheduler). release_key t now i latency x y)
                (fail_held_at s now i k exc at not_auth)
              ∙ on_key_at (record s { keys = set s.keys i failed_k }) i failed_k
                  (λ l. record_request_end l now latency x y) there)
          ∙ get_elem?-set_self (set s.keys i failed_k) i k' there',
      counts.0,
      counts.1,
      counts.2,
      counts.3,
    )
