-- ===== src/Pool/Key/Counts.antt =====
-- The counters of a key, over any sequence of the methods.
use pool_gate.Common.{ℕ, ◌+◌, ◌-◌, ◌≤◌, ◌<◌, ◌≡◌, Bool, true, false, List, [], ◌∷◌, arith}
use pool_gate.Pool.Key.{
  Clock, ApiKeyState, record_request_start, record_request_end, record_failure, mark_disabled,
  mark_failed, reset_cooldown,
}

-- A call of a method that changes the key.
pub data Call : Type 0 where
  starts : Clock → Call
  ends : Clock → ℕ → ℕ → ℕ → Call
  fails : Clock → Bool → ℕ → Call
  disables : Call
  retires : Call
  resets : Call

unfoldable pub step : ApiKeyState → Call → ApiKeyState
step k (starts now) = record_request_start k now
step k (ends now latency tokens_in tokens_out) =
    record_request_end k now latency tokens_in tokens_out
step k (fails now is_rate_limit secs) = record_failure k now is_rate_limit secs
step k disables = mark_disabled k
step k retires = mark_failed k
step k resets = reset_cooldown k

unfoldable pub run : ApiKeyState → List Call → ApiKeyState
run k [] = k
run k (c ∷ cs) = run (step k c) cs

-- The streaks lie within the failures, the 429s of a streak within the streak, and the total of
-- the tokens is the sum of both kinds.
pub record IsConsistent (k : ApiKeyState) : Type 0 where
  pub tokens : k.total_tokens ≡ k.input_tokens + k.output_tokens
  pub streak : k.consecutive_failures ≤ k.failure_count
  pub limits : k.consecutive_429s ≤ k.consecutive_failures

step-IsConsistent : (k : ApiKeyState) (c : Call) → IsConsistent k → IsConsistent (step k c)
unfolding step record_request_start record_request_end record_failure mark_disabled mark_failed
    reset_cooldown
step-IsConsistent k (starts now) h = ground arith
step-IsConsistent k (ends now latency i o) h = ground arith
step-IsConsistent k (fails now true secs) h = ground arith
step-IsConsistent k (fails now false secs) h = ground arith
step-IsConsistent k disables h = ground arith
step-IsConsistent k retires h = ground arith
step-IsConsistent k resets h = ground arith

-- Over any calls the total of the tokens stays the sum of both kinds, the failures in a row stay
-- within all failures, and the rate limits in a row within the failures in a row.
pub run-IsConsistent : (cs : List Call) (k : ApiKeyState) → IsConsistent k → IsConsistent (run k cs)
unfolding run
run-IsConsistent [] k h = h
run-IsConsistent (c ∷ cs) k h = run-IsConsistent cs (step k c) (step-IsConsistent k c h)

-- How many of the calls start a request, and how many end one, by success or by failure.
abbrev pub started : List Call → ℕ
started [] = 0
started (starts now ∷ cs) = 1 + started cs
started (_ ∷ cs) = started cs

abbrev pub finished : List Call → ℕ
finished [] = 0
finished (ends now latency i o ∷ cs) = 1 + finished cs
finished (fails now limit secs ∷ cs) = 1 + finished cs
finished (_ ∷ cs) = finished cs

-- No request ends that is not open, with `n` open at first.
abbrev pub EndsOpen : ℕ → List Call → Type 0
EndsOpen n [] = Unit
EndsOpen n (starts now ∷ cs) = EndsOpen (n + 1) cs
EndsOpen n (ends now latency i o ∷ cs) = (0 < n) × EndsOpen (n - 1) cs
EndsOpen n (fails now limit secs ∷ cs) = (0 < n) × EndsOpen (n - 1) cs
EndsOpen n (_ ∷ cs) = EndsOpen n cs

-- Over any calls in which only open requests end, the open requests, the successes and the failures
-- account for every request that was started: none is lost or counted twice.
pub run_accounts :
    (cs : List Call) (k : ApiKeyState)
    → EndsOpen k.active_requests cs
    → ((run k cs).active_requests + finished cs ≡ k.active_requests + started cs)
      × ((run k cs).success_count + (run k cs).failure_count
          ≡ k.success_count + k.failure_count + finished cs)
unfolding run step record_request_start record_request_end record_failure mark_disabled mark_failed
    reset_cooldown
run_accounts [] k h = (omega arith, omega arith)
run_accounts (starts now ∷ cs) k h =
    let (a, b) = run_accounts cs (record_request_start k now) h in (omega arith, omega arith)
run_accounts (ends now latency i o ∷ cs) k h =
    let (a, b) = run_accounts cs (record_request_end k now latency i o) h.1 in
    (omega (arith, h.0), omega arith)
run_accounts (fails now true secs ∷ cs) k h =
    let (a, b) = run_accounts cs (record_failure k now true secs) h.1 in
    (omega (arith, h.0), omega arith)
run_accounts (fails now false secs ∷ cs) k h =
    let (a, b) = run_accounts cs (record_failure k now false secs) h.1 in
    (omega (arith, h.0), omega arith)
run_accounts (disables ∷ cs) k h =
    let (a, b) = run_accounts cs (mark_disabled k) h in (omega arith, omega arith)
run_accounts (retires ∷ cs) k h =
    let (a, b) = run_accounts cs (mark_failed k) h in (omega arith, omega arith)
run_accounts (resets ∷ cs) k h =
    let (a, b) = run_accounts cs (reset_cooldown k) h in (omega arith, omega arith)
