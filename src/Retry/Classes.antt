-- ===== src/Retry/Classes.antt =====
-- How the tests on exceptions fit together.
use pool_gate.Common.{ℕ, ◌≤◌, ◌+◌, ◌≡◌, ◌≢◌, refl, true, false, arith, ◌^◌, ◌*◌, min, suc, zero}
use native.Mathlib.Numerals.{unary_clauses}
use native.Mathlib.Nat.{mul-le-mul_left}
use pool_gate.Retry.{
  Exception, ExceptionClass, key_disabled, no_available_key, structured_output, invalid_response,
  transport, other, is_retryable, is_rate_limit, classify, unknown, status_in, fatal_status_codes,
  retryable_of, backoff, calculate,
}

-- An exception with a fatal status is never retried, unless it is one of the transport errors.
pub fatal_not_retried :
    (exc : Exception)
    → status_in fatal_status_codes exc.status_code ≡ true
    → exc.class ≢ transport
    → is_retryable exc ≡ false
unfolding is_retryable
fatal_not_retried exc h c = go exc.class refl
  where
    go : (k : ExceptionClass) → exc.class ≡ k → retryable_of k exc ≡ false
    go key_disabled e = refl
    go no_available_key e = refl
    go structured_output e = refl
    go invalid_response e = ground arith
    go transport e = absurd (c e)
    go other e = ground arith

-- The exception that the providers raise for a rate limit counts as one, and yet is not retried and
-- has no category.
pub rate_limit_exceeded_unclassified :
    (exc : Exception)
    → exc.class ≡ other
    → exc.type_name ≡ "RateLimitExceededError"
    → (is_rate_limit exc ≡ true) × (is_retryable exc ≡ false) × (classify exc ≡ unknown)
unfolding is_rate_limit is_retryable classify
rate_limit_exceeded_unclassified exc c n =
    (rw n refl, rw (c, is_retryable) (rw n refl), rw (c, classify) (rw n refl))

doubled : (base p max_backoff : ℕ) → min max_backoff (base * p) ≤ min max_backoff (base * (p * 2))
doubled base p max_backoff =
    let h : base * p ≤ base * (p * 2) = mul-le-mul_left base (omega arith) in ground arith

backoff-grows :
    (base max_backoff attempt : ℕ)
    → backoff base max_backoff attempt ≤ backoff base max_backoff (attempt + 1)
unfolding backoff
backoff-grows base max_backoff zero = omega arith
backoff-grows base max_backoff (suc n) = simp unary_clauses (doubled base (2 ^ n) max_backoff)

-- The delay before the jitter never falls from one attempt to the next, and the delay never passes
-- the maximum by more than the jitter that was drawn.
pub calculate_bounds :
    (base max_backoff jitter attempt drawn : ℕ)
    → (backoff base max_backoff attempt ≤ backoff base max_backoff (attempt + 1))
      × (calculate base max_backoff jitter attempt drawn ≤ max_backoff + drawn)
unfolding calculate backoff
calculate_bounds base max_backoff jitter attempt drawn =
    (backoff-grows base max_backoff attempt, ground arith)
