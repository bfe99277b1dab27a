-- ===== src/Pool/Scheduler.antt =====
-- `RequestScheduler` of poolgate/pool/scheduler.py. A key is referred to by its place in the list,
-- and a method that mutates it rewrites that place. The lock makes `acquire_key` one step; the
-- asynchronous `async_acquire_key` runs the same method in a worker thread. Log lines are left out.
-- The limit of a model (`_max_rpm_for_model`) is an argument.

pub mod Gather
pub mod Acquire
pub mod Limits
pub mod Recovery
use pool_gate.Common.{
  ℕ, zero, suc, ◌+◌, ◌-◌, ◌<◌, ◌==◌, String, Bool, true, false, not, ◌&&◌, Option, none, some, List,
  [], ◌∷◌, map, if◌then◌else◌, keep_if, leb, length, get_elem?, set,
}
use pool_gate.Result.{Result, ok, err, no_available_api_key, index_error, ◌>>=◌}
use pool_gate.Float.{FloatOps}
use pool_gate.Pool.Key.{
  Clock, ApiKeyState, ApiKeyStatus, active, rate_limited, cooldown, failed, disabled, exhausted,
  is_rate_limited, is_available, is_cooling_down, record_request_start, record_request_end,
  record_failure, mark_disabled, mark_failed, reset_cooldown,
}
use pool_gate.Pool.Strategy.{Ref, PoolConfig, Strategy, select}

pub record RequestScheduler : Type 0 where
  pub keys : List ApiKeyState
  pub config : PoolConfig
  pub strategy : Strategy

-- `key.status not in (DISABLED, FAILED)`
abbrev pub in_service : ApiKeyStatus → Bool
in_service disabled = false
in_service failed = false
in_service _ = true

-- The references to the keys of a list, from a place on.
unfoldable pub refs : ℕ → List ApiKeyState → List Ref
refs i [] = []
refs i (k ∷ ks) = (i, k) ∷ refs (i + 1) ks

unfoldable pub usable : Clock → Ref → Bool
usable now (i, k) = is_available k now && in_service k.status

unfoldable pub candidates_of : List ApiKeyState → Clock → List Ref
unfolding usable
candidates_of keys now = keep_if (usable now) (refs 0 keys)

-- `if not k.is_cooling_down and k.status == RATE_LIMITED: k.reset_cooldown()`
unfoldable pub revive : Clock → ApiKeyState → ApiKeyState
revive now k =
    if not (is_cooling_down k now) && is_rate_limited k.status then reset_cooldown k else k

-- `_gather_candidates`: the candidates, and the keys, which may have been revived.
unfoldable pub gather_candidates : List ApiKeyState → Clock → List Ref × List ApiKeyState
gather_candidates keys now = elim (candidates_of keys now) [
  | c ∷ cs ↦ (c ∷ cs, keys)
  | [] ↦ let keys' = map (revive now) keys in (candidates_of keys' now, keys')
]

-- `dataclasses.replace(self._config, max_rpm_per_key=max_rpm_override)`, where there is one.
abbrev pub effective_config : PoolConfig → Option ℕ → PoolConfig
effective_config config none = config
effective_config config (some n) = record config { max_rpm_per_key = n }

module _ (f : FloatOps) where
  -- The choice among the candidates.
  unfoldable pub choose :
      RequestScheduler → Clock → Option ℕ → List Ref → List ApiKeyState → Result (Ref × Strategy)
  choose s now max_rpm [] keys = err no_available_api_key
  choose s now max_rpm (c ∷ cs) keys =
      select f now (effective_config s.config max_rpm) s.strategy (c ∷ cs) (refs 0 keys)

  -- What `acquire_key` leaves and returns: the scheduler, and the key's place or the exception. The
  -- revived keys stay revived where it raises.
  unfoldable pub settle :
      RequestScheduler
      → Clock
      → List ApiKeyState
      → Result (Ref × Strategy)
      → Result ℕ × RequestScheduler
  settle s now keys (err e) = (err e, record s { keys = keys })
  settle s now keys (ok ((i, k), strategy)) =
      (ok i, record s { keys = set keys i (record_request_start k now); strategy = strategy })

  unfoldable pub acquire_key : RequestScheduler → Clock → Option ℕ → Result ℕ × RequestScheduler
  acquire_key s now max_rpm =
      let (candidates, keys) = gather_candidates s.keys now in
      settle s now keys (choose s now max_rpm candidates keys)

-- A method of the key at a place.
unfoldable pub on_key : RequestScheduler → ℕ → (ApiKeyState → ApiKeyState) → RequestScheduler
on_key s i method = elim (get_elem? s.keys i) [
  | none ↦ s
  | some k ↦ record s { keys = set s.keys i (method k) }
]

unfoldable pub release_key : RequestScheduler → Clock → ℕ → ℕ → ℕ → ℕ → RequestScheduler
release_key s now i latency tokens_in tokens_out =
    on_key s i (λ k. record_request_end k now latency tokens_in tokens_out)

-- The key after `mark_key_failure`: failed, at the threshold of failures in a row.
unfoldable pub failed_key : PoolConfig → Clock → Bool → ApiKeyState → ApiKeyState
failed_key config now true k = record_failure k now true config.cooldown_seconds
failed_key config now false k =
    let k' = record_failure k now false config.cooldown_seconds in
    if leb config.failure_threshold k'.consecutive_failures then mark_failed k' else k'

unfoldable pub mark_key_failure : RequestScheduler → Clock → ℕ → Bool → RequestScheduler
mark_key_failure s now i is_rate_limit = on_key s i (failed_key s.config now is_rate_limit)

unfoldable pub mark_key_disabled : RequestScheduler → ℕ → RequestScheduler
mark_key_disabled s i = on_key s i mark_disabled

unfoldable pub set_strategy : RequestScheduler → Strategy → RequestScheduler
set_strategy s strategy = record s { strategy = strategy }
