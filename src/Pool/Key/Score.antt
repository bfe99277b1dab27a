-- ===== src/Pool/Key/Score.antt =====
-- `health_score`, `failure_rate` and `average_latency` of poolgate/pool/key_pool.py, over an
-- abstract type of floats. A duration is turned into seconds where the program computes with it.
use pool_gate.Common.{ℕ, ◌+◌, if◌then◌else◌, List, [], ◌∷◌, ltb, max, second, length, foldl}
use pool_gate.Float.{FloatOps, positive_part}
use pool_gate.Pool.Key.{Clock, ApiKeyState, is_available, is_cooling_down, requests_per_minute}

module _ (f : FloatOps) where
  open f use {F, of_ℕ, half, neg_inf, add, sub, mul, div, lt}

  -- A duration in seconds.
  unfoldable pub in_seconds : ℕ → F
  in_seconds t = div (of_ℕ t) (of_ℕ second)

  unfoldable pub failure_rate : ApiKeyState → F
  failure_rate k =
      let total = k.success_count + k.failure_count in
      if ltb 0 total then div (of_ℕ k.failure_count) (of_ℕ total) else of_ℕ 0

  -- `LatencyTracker.average`
  unfoldable pub average : List ℕ → F
  average [] = of_ℕ 0
  average (x ∷ xs) =
      div (foldl (λ total t. add total (in_seconds t)) (of_ℕ 0) (x ∷ xs)) (of_ℕ (length (x ∷ xs)))

  unfoldable pub average_latency : ApiKeyState → F
  average_latency k = average k.latency_tracker.samples

  -- `recent_failure_penalty`
  unfoldable pub recent_failure_penalty : ApiKeyState → Clock → F
  recent_failure_penalty k now =
      let secs_ago = sub (in_seconds now.wall) (in_seconds k.last_failure) in
      if ltb 0 k.last_failure
      then if lt secs_ago (of_ℕ 300)
        then mul (positive_part f (div (sub (of_ℕ 300) secs_ago) (of_ℕ 300))) (of_ℕ 2)
        else of_ℕ 0
      else of_ℕ 0

  unfoldable pub health_score : ApiKeyState → Clock → ℕ → F → F
  unfolding recent_failure_penalty average_latency average failure_rate in_seconds
  health_score k now max_rpm latency_threshold =
      let rpm_penalty =
        positive_part f
          (mul (div (of_ℕ (requests_per_minute k now)) (of_ℕ (max max_rpm 1))) (of_ℕ 4)) in
      let active_penalty =
        mul (div (of_ℕ k.active_requests) (of_ℕ (max k.max_parallel_requests 1))) (of_ℕ 3) in
      let latency_penalty =
        mul (positive_part f (sub (average_latency k) latency_threshold)) half in
      let failure_penalty = mul (failure_rate k) (of_ℕ 3) in
      let cooldown_penalty = if is_cooling_down k now then of_ℕ 1 else of_ℕ 0 in
      if is_available k now
      then sub
          (sub
            (sub (sub (sub (sub (of_ℕ 10) rpm_penalty) active_penalty) latency_penalty)
              failure_penalty)
            (recent_failure_penalty k now))
          cooldown_penalty
      else neg_inf
