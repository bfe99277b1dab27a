-- ===== src/Rotation.antt =====
-- The key-rotating loops of poolgate/services/provider.py, `_run_with_rotation` and its generic and
-- asynchronous forms, for a request that
-- has the scheduler to itself. What the provider's client does with a key in an attempt, and the
-- clock readings, are the environment's. The journal and the log lines are left out.
pub mod Accounts
pub mod Open
use pool_gate.Common.{
  ℕ, zero, suc, ◌+◌, ◌-◌, String, Bool, true, false, Option, none, some, List, [], ◌∷◌, ltb, map,
  if◌then◌else◌, get_elem?,
}
use pool_gate.Float.{FloatOps}
use pool_gate.Result.{Error, Result, ok, err, no_available_api_key, api_key_disabled, index_error}
use pool_gate.Retry.{
  Exception, ExceptionClass, key_disabled, no_available_key, other, is_auth_error, is_rate_limit,
}
use pool_gate.Pool.Key.{Clock, ApiKeyState}
use pool_gate.Pool.Scheduler.{
  RequestScheduler, acquire_key, release_key, mark_key_failure, mark_key_disabled,
}
use pool_gate.Tracking.Manager.{Dates}
use pool_gate.Books.{Books, Request, Moment, book_success, book_failure}

-- What `call(key)` returned, with the tokens it reports, or raised.
pub data Reply {ℓ} (R : Type ℓ) : Type ℓ where
  answered : R → ℕ → ℕ → Reply R
  raised : Exception → Reply R

-- An attempt as the environment lets it go: the clock at its start and at its end, the latency, the
-- dates, and the call.
pub record Attempt {ℓ} (R : Type ℓ) : Type ℓ where
  pub starts_at : Clock
  pub ends_at : Clock
  pub latency : ℕ
  pub today : Dates
  pub call : ApiKeyState → Reply R

-- When an attempt is recorded.
abbrev pub end_of {ℓ} : {R : Type ℓ} → Attempt R → Moment
end_of a = record { clock = a.ends_at; today = a.today }

pub record Service : Type 0 where
  pub scheduler : RequestScheduler
  pub books : Books

-- How a request ends: with a response, with `RetryExhaustedError` and the last exception, or with
-- the exception that is passed on.
pub data Outcome {ℓ} (R : Type ℓ) : Type ℓ where
  responded : R → Outcome R
  exhausted_retries : Option Exception → Outcome R
  passed_on : Exception → Outcome R

-- The exception that the scheduler raises, as the handlers see it.
abbrev pub exception_of : Error → Exception
exception_of no_available_api_key = record {
  class = no_available_key;
  type_name = "NoAvailableAPIKeyError";
  status_code = none;
}
exception_of (api_key_disabled k) = record {
  class = key_disabled;
  type_name = "APIKeyDisabledError";
  status_code = none;
}
exception_of _ = record { class = other; type_name = "IndexError"; status_code = none }

-- `except (NoAvailableAPIKeyError, APIKeyDisabledError)`
abbrev pub is_passed_on : ExceptionClass → Bool
is_passed_on key_disabled = true
is_passed_on no_available_key = true
is_passed_on _ = false

-- `if key: self._scheduler.mark_key_disabled(key)`
unfoldable pub disable_held : RequestScheduler → Option ℕ → RequestScheduler
disable_held s none = s
disable_held s (some i) = mark_key_disabled s i

-- The key's share of the last handler: disabled on an authentication error, failed on any other.
unfoldable pub fail_held : RequestScheduler → Clock → Option ℕ → Exception → RequestScheduler
fail_held s now none exc = s
fail_held s now (some i) exc =
    if is_auth_error exc
    then mark_key_disabled s i
    else mark_key_failure s now i (is_rate_limit exc)

-- What an attempt leads to: it ends the request, or the loop goes on or is left with an exception.
pub data Verdict {ℓ} (R : Type ℓ) : Type ℓ where
  ends : Outcome R → Service → Verdict R
  goes_on : Exception → Service → Verdict R
  leaves : Exception → Service → Verdict R

module _ {ℓ} {R : Type ℓ} where
  -- The handlers, with the key that the attempt holds.
  unfoldable pub handle : Service → Clock → Option ℕ → Exception → Verdict R
  handle s now held exc =
      if is_passed_on exc.class
      then ends (passed_on exc) (record s { scheduler = disable_held s.scheduler held })
      else let s' : Service = record s { scheduler = fail_held s.scheduler now held exc } in
        if is_auth_error exc then leaves exc s' else goes_on exc s'

  -- `tokens_extractor(result) if tokens_extractor else (0, 0)`, on a reply that reports no tokens of
  -- its own.
  unfoldable pub extract_tokens : Option (R → ℕ × ℕ) → Reply R → Reply R
  extract_tokens tokens_extractor (raised exc) = raised exc
  extract_tokens none (answered r x y) = answered r 0 0
  extract_tokens (some tokens_of) (answered r x y) = answered r (tokens_of r).0 (tokens_of r).1

  abbrev pub with_extractor : Option (R → ℕ × ℕ) → (ℕ → Attempt R) → ℕ → Attempt R
  with_extractor tokens_extractor env index =
      let a = env index in record a { call = λ k. extract_tokens tokens_extractor (a.call k) }

module _ {ℓ} {R : Type ℓ} (request : Request) where
  -- After the call, with the key and its place. The response names the key that it came from.
  unfoldable pub conclude : Service → ℕ → Attempt R → ℕ → ApiKeyState → Reply R → Verdict R
  conclude s index a i k (answered r tokens_in tokens_out) = ends (responded r) (record {
    scheduler = release_key s.scheduler a.ends_at i a.latency tokens_in tokens_out;
    books =
        book_success s.books request (end_of a) k.key_id a.latency tokens_in tokens_out
          (ltb 0 index);
  })
  conclude s index a i k (raised exc) = handle s a.ends_at (some i) exc

  -- The call with the key at a place.
  unfoldable pub call_with : Service → ℕ → Attempt R → ℕ → Verdict R
  call_with s index a i = elim (get_elem? s.scheduler.keys i) [
    | none ↦ handle s a.ends_at none (exception_of index_error)
    | some k ↦ conclude s index a i k (a.call k)
  ]

  unfoldable pub after_acquire : Books → ℕ → Attempt R → Result ℕ × RequestScheduler → Verdict R
  after_acquire books index a (ok i, scheduler) =
      call_with (record { scheduler = scheduler; books = books }) index a i
  after_acquire books index a (err e, scheduler) =
      handle (record { scheduler = scheduler; books = books }) a.ends_at none (exception_of e)

  module _ (f : FloatOps) (max_rpm : Option ℕ) where
    -- The body of the loop.
    unfoldable pub attempt_once : Service → ℕ → Attempt R → Verdict R
    attempt_once s index a =
        after_acquire s.books index a (acquire_key f s.scheduler a.starts_at max_rpm)

    module _ (attempts : ℕ) (env : ℕ → Attempt R) (closing : Moment) where
      -- What follows the loop.
      unfoldable pub give_up : Service → Option Exception → Outcome R × Service
      give_up s last_exc = (
        exhausted_retries last_exc,
        record s { books = book_failure s.books request closing (ltb 1 attempts) },
      )

      -- The loop, with the attempts that are left and the index of the next.
      unfoldable pub loop : ℕ → ℕ → Service → Option Exception → Outcome R × Service
      loop zero index s last_exc = give_up s last_exc
      loop (suc left) index s last_exc = elim (attempt_once s index (env index)) [
        | ends outcome s' ↦ (outcome, s')
        | goes_on exc s' ↦ loop left (index + 1) s' (some exc)
        | leaves exc s' ↦ give_up s' (some exc)
      ]

    -- `_run_with_rotation`
    unfoldable pub run_with_rotation : Service → ℕ → (ℕ → Attempt R) → Moment → Outcome R × Service
    run_with_rotation s retries env closing = loop (retries + 1) env closing (retries + 1) 0 s none

  -- `_async_run_with_rotation`: the same loop, with the scheduler's step in a worker thread and the
  -- call awaited.
  unfoldable pub async_run_with_rotation :
      FloatOps → Option ℕ → Service → ℕ → (ℕ → Attempt R) → Moment → Outcome R × Service
  async_run_with_rotation f max_rpm s retries env closing =
      loop f max_rpm (retries + 1) env closing (retries + 1) 0 s none

  -- `_run_rotation_generic`
  unfoldable pub run_rotation_generic :
      FloatOps
      → Option ℕ
      → Service
      → ℕ
      → (ℕ → Attempt R)
      → Option (R → ℕ × ℕ)
      → Moment
      → Outcome R × Service
  run_rotation_generic f max_rpm s retries env tokens_extractor closing =
      loop f max_rpm (retries + 1) (with_extractor tokens_extractor env) closing (retries + 1) 0 s
        none

  -- `_async_run_rotation_generic`
  unfoldable pub async_run_rotation_generic :
      FloatOps
      → Option ℕ
      → Service
      → ℕ
      → (ℕ → Attempt R)
      → Option (R → ℕ × ℕ)
      → Moment
      → Outcome R × Service
  async_run_rotation_generic f max_rpm s retries env tokens_extractor closing =
      loop f max_rpm (retries + 1) (with_extractor tokens_extractor env) closing (retries + 1) 0 s
        none
