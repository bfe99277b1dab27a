-- ===== src/Pool/Key/Availability.antt =====
-- When a key may be used.
use pool_gate.Common.{ℕ, ◌≤◌, ◌<◌, ◌≡◌, true, false, arith, List, [], ◌∷◌}
use pool_gate.Pool.Key.{
  Clock, ApiKeyState, ApiKeyStatus, active, failed, disabled, is_available, after_success,
  after_reset, record_request_start, record_request_end, record_failure, mark_disabled, mark_failed,
  reset_cooldown,
}
use pool_gate.Pool.Key.Counts.{Call, starts, ends, fails, disables, retires, resets, step, run}

-- A key that is available is active, past its cooldown and has room for a request.
pub is_available_lem :
    (k : ApiKeyState) (now : Clock)
    → is_available k now ≡ true
    → (k.status ≡ active)
      × (k.cooldown_until ≤ now.mono)
      × (k.active_requests < k.max_parallel_requests)
unfolding is_available
is_available_lem k now h = ground arith

-- The key is not marked active.
abbrev Inactive : ApiKeyStatus → Type 0
Inactive active = ⊥
Inactive _ = Unit

-- The key was taken out of use for good.
abbrev pub Retired : ApiKeyStatus → Type 0
Retired failed = Unit
Retired disabled = Unit
Retired _ = ⊥

-- No success and no `reset_cooldown` among the calls.
abbrev pub NoRecovery : List Call → Type 0
NoRecovery [] = Unit
NoRecovery (ends now latency i o ∷ cs) = ⊥
NoRecovery (resets ∷ cs) = ⊥
NoRecovery (_ ∷ cs) = NoRecovery cs

-- No rate-limit failure among the calls.
abbrev pub NoRateLimit : List Call → Type 0
NoRateLimit [] = Unit
NoRateLimit (fails now true secs ∷ cs) = ⊥
NoRateLimit (_ ∷ cs) = NoRateLimit cs

Inactive-unavailable :
    (k : ApiKeyState) (now : Clock) → Inactive k.status → is_available k now ≡ false
unfolding is_available
Inactive-unavailable k now h = ground arith

run-Inactive :
    (cs : List Call) (k : ApiKeyState)
    → NoRecovery cs
    → Inactive k.status
    → Inactive (run k cs).status
unfolding run step record_request_start record_failure mark_disabled mark_failed
run-Inactive [] k c h = h
run-Inactive (starts now ∷ cs) k c h = run-Inactive cs (record_request_start k now) c h
run-Inactive (ends now latency i o ∷ cs) k c h = absurd c
run-Inactive (fails now true secs ∷ cs) k c h =
    run-Inactive cs (record_failure k now true secs) c tt
run-Inactive (fails now false secs ∷ cs) k c h =
    run-Inactive cs (record_failure k now false secs) c h
run-Inactive (disables ∷ cs) k c h = run-Inactive cs (mark_disabled k) c tt
run-Inactive (retires ∷ cs) k c h = run-Inactive cs (mark_failed k) c tt
run-Inactive (resets ∷ cs) k c h = absurd c

-- After a rate-limit failure the key is out of use at every later time, however far past the end of
-- its cooldown, until a request on it succeeds or `reset_cooldown` is called.
pub rate_limited_unavailable :
    (k : ApiKeyState) (now later : Clock) (cooldown_secs : ℕ) (cs : List Call)
    → NoRecovery cs
    → is_available (run (record_failure k now true cooldown_secs) cs) later ≡ false
unfolding record_failure
rate_limited_unavailable k now later secs cs c =
    Inactive-unavailable (run (record_failure k now true secs) cs) later
      (run-Inactive cs (record_failure k now true secs) c tt)

after_success-Retired : (s : ApiKeyStatus) → Retired s → Retired (after_success s)
after_success-Retired s h = ground arith

after_reset-Retired : (s : ApiKeyStatus) → Retired s → Retired (after_reset s)
after_reset-Retired s h = ground arith

run-Retired :
    (cs : List Call) (k : ApiKeyState)
    → NoRateLimit cs
    → Retired k.status
    → Retired (run k cs).status
unfolding run step record_request_start record_request_end record_failure mark_disabled mark_failed
    reset_cooldown
run-Retired [] k c h = h
run-Retired (starts now ∷ cs) k c h = run-Retired cs (record_request_start k now) c h
run-Retired (ends now latency i o ∷ cs) k c h =
    run-Retired cs (record_request_end k now latency i o) c (after_success-Retired k.status h)
run-Retired (fails now true secs ∷ cs) k c h = absurd c
run-Retired (fails now false secs ∷ cs) k c h = run-Retired cs (record_failure k now false secs) c h
run-Retired (disables ∷ cs) k c h = run-Retired cs (mark_disabled k) c tt
run-Retired (retires ∷ cs) k c h = run-Retired cs (mark_failed k) c tt
run-Retired (resets ∷ cs) k c h =
    run-Retired cs (reset_cooldown k) c (after_reset-Retired k.status h)

-- While only the key's own methods are called, and no rate-limit failure is recorded on it, a failed or
-- disabled key stays unavailable. `KeyPool.enable_key` is not one of them: it makes the key active.
pub Retired-unavailable :
    (k : ApiKeyState) (later : Clock) (cs : List Call)
    → Retired k.status
    → NoRateLimit cs
    → is_available (run k cs) later ≡ false
Retired-unavailable k later cs h c =
    Inactive-unavailable (run k cs) later (weaken (run k cs).status (run-Retired cs k c h))
  where
    weaken : (s : ApiKeyStatus) → Retired s → Inactive s
    weaken s h = ground arith

-- A rate-limit failure overwrites that: whatever the status was, disabled or failed too, the key is
-- available after it and a `reset_cooldown`, as soon as it has room for a request.
pub rate_limit_revives :
    (k : ApiKeyState) (now later : Clock) (cooldown_secs : ℕ)
    → k.active_requests ≤ k.max_parallel_requests
    → 0 < k.max_parallel_requests
    → is_available (reset_cooldown (record_failure k now true cooldown_secs)) later ≡ true
unfolding is_available reset_cooldown record_failure
rate_limit_revives k now later secs h pos = ground arith
