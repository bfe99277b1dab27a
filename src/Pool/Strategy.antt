-- ===== src/Pool/Strategy.antt =====
-- The six strategies of poolgate/pool/strategies. The scheduler's list owns the keys; a reference
-- to a key is its place there, and a strategy sees the places with the keys that stand at them. A
-- strategy with state returns the state it leaves.

pub mod Weighted
pub mod Chosen
pub mod Best
pub mod RoundRobin
use pool_gate.Common.{
  ℕ, zero, suc, ◌+◌, ◌-◌, ◌%◌, ◌<◌, ◌==◌, String, str_eq, Bool, true, false, ◌&&◌, ◌||◌, Option,
  none, some, List, [], ◌∷◌, map, if◌then◌else◌, ltb, length, get_elem?,
}
use pool_gate.Result.{
  Result, ok, err, unknown_scheduling_strategy, value_error, index_error, key_error, ◌>>=◌,
}
use pool_gate.Int.{ℤ, pos, ltz, ◌+ℤ◌, ◌-ℤ◌}
use pool_gate.Float.{FloatOps}
use pool_gate.Pick.{pick}
use pool_gate.Dict.{Dict}
use pool_gate.Dict
use pool_gate.Pool.Key.{Clock, ApiKeyState, requests_per_minute}
use pool_gate.Pool.Key.Score.{health_score, in_seconds}

-- A key and its place in the scheduler's list.
abbrev pub Ref : Type 0
Ref = ℕ × ApiKeyState

-- The settings of `GroqConfig` that the strategies and the scheduler read.
pub record PoolConfig : Type 0 where
  pub max_rpm_per_key : ℕ
  pub cooldown_seconds : ℕ
  pub failure_threshold : ℕ
  -- In microseconds.
  pub latency_penalty_threshold : ℕ

-- The strategy objects, with the state of those that have one.
pub data Strategy : Type 0 where
  health_aware : Strategy
  round_robin : (next_index : ℕ) → Strategy
  least_used : Strategy
  weighted_round_robin : (current_weight : Dict ℤ) → Strategy
  least_remaining_capacity : Strategy
  priority_failover : Strategy

-- `create_strategy` of a name.
unfoldable pub create_strategy : String → Result Strategy
create_strategy name =
    if str_eq name "health_aware"
    then ok health_aware
    else if str_eq name "round_robin"
    then ok (round_robin 0)
    else if str_eq name "least_used"
    then ok least_used
    else if str_eq name "weighted_round_robin"
    then ok (weighted_round_robin [])
    else if str_eq name "least_remaining_capacity"
    then ok least_remaining_capacity
    else if str_eq name "priority_failover"
    then ok priority_failover
    else err (unknown_scheduling_strategy name)

-- `max(candidates, key=...)` and `min`: a `ValueError` on no candidates.
unfoldable pub best_of : (Ref → Ref → Bool) → List Ref → Result Ref
best_of better [] = err value_error
best_of better (c ∷ cs) = ok (pick better c cs)

-- `_limit_of`: an explicit `max_rpm` that is not 0, or the setting.
unfoldable pub limit_of : PoolConfig → ApiKeyState → ℕ
limit_of config k = elim k.max_rpm [
  | none ↦ config.max_rpm_per_key
  | some n ↦ if n == 0 then config.max_rpm_per_key else n
]

module _ (now : Clock) where
  -- `LeastUsedStrategy`: the smaller `(requests_per_minute, active_requests)`.
  unfoldable pub less_used : Ref → Ref → Bool
  less_used (_, a) (_, b) =
      let ra = requests_per_minute a now in
      let rb = requests_per_minute b now in
      ltb ra rb || (ra == rb && ltb a.active_requests b.active_requests)

  -- `LeastRemainingCapacityStrategy`: the larger `limit - requests_per_minute`, which may be
  -- negative: compared crosswise.
  unfoldable pub more_capacity : PoolConfig → Ref → Ref → Bool
  unfolding limit_of
  more_capacity config (_, a) (_, b) =
      ltb (limit_of config b + requests_per_minute a now)
        (limit_of config a + requests_per_minute b now)

-- `position = {k.key_id: i for i, k in enumerate(all_keys)}`: the last place of an id counts.
unfoldable pub positions : List Ref → Dict ℕ → Dict ℕ
positions [] d = d
positions ((i, k) ∷ refs) d = positions refs (Dict.put d k.key_id i)

-- `position[k.key_id]`
abbrev pub place_of : Option ℕ → String → Result ℕ
place_of none id = err (key_error id)
place_of (some i) id = ok i

-- `priority_of`
unfoldable pub priority_of : Dict ℕ → ApiKeyState → Result ℕ
priority_of position k = elim k.priority [
  | none ↦ place_of (Dict.get position k.key_id) k.key_id
  | some explicit ↦ ok explicit
]

-- `min` asks for the priority of each candidate, and stops where that raises.
unfoldable pub priorities : Dict ℕ → List Ref → Result (Unit {0})
priorities position [] = ok tt
priorities position ((i, k) ∷ cs) = priority_of position k >>= λ _. priorities position cs

abbrev pub earlier : Result ℕ → Result ℕ → Bool
earlier (ok m) (ok n) = ltb m n
earlier (ok m) (err e) = false
earlier (err e) n = false

unfoldable pub prior : Dict ℕ → Ref → Ref → Bool
prior position (_, a) (_, b) = earlier (priority_of position a) (priority_of position b)

-- `min(candidates, key=priority_of)`
unfoldable pub first_by_priority : Dict ℕ → List Ref → Result Ref
first_by_priority position candidates =
    priorities position candidates >>= λ _. best_of (prior position) candidates

-- `key.key_id in candidate_ids`
unfoldable pub is_candidate : List Ref → String → Bool
is_candidate [] id = false
is_candidate ((_, c) ∷ cs) id = if str_eq c.key_id id then true else is_candidate cs id

-- The loop of `RoundRobinStrategy.select`, with the rounds that are left and the offset: the key
-- found and the next index.
unfoldable pub rotate : List Ref → List Ref → ℕ → ℕ → ℕ → Option (Ref × ℕ)
rotate candidates all_keys next_index zero offset = none
rotate candidates all_keys next_index (suc left) offset =
    let n = length all_keys in
    let idx = (next_index + offset) % n in
    let rest = rotate candidates all_keys next_index left (offset + 1) in
    elim (get_elem? all_keys idx) [
      | none ↦ rest
      | some (i, k) ↦
          if is_candidate candidates k.key_id then some ((i, k), (idx + 1) % n) else rest
    ]

abbrev pub first : List Ref → Result Ref
first [] = err index_error
first (c ∷ cs) = ok c

unfoldable pub round_robin_select : ℕ → List Ref → List Ref → Result (Ref × Strategy)
round_robin_select next_index candidates all_keys =
    elim (rotate candidates all_keys next_index (length all_keys) 0) [
      | none ↦ elim (first candidates) [ err e ↦ err e | ok c ↦ ok (c, round_robin next_index) ]
      | some (key, next) ↦ ok (key, round_robin next)
    ]

-- `_weight_of`, for weights that are whole numbers, none negative. No class or caller sets a `weight` or
-- a `max_rpm` on a key, so in this repository the weight is `float(config.max_rpm_per_key or 1)`, of an
-- `int`, and the sums of such floats are exact below 2 ^ 53.
unfoldable pub weight_of : PoolConfig → ApiKeyState → ℕ
weight_of config k = elim k.weight [
  | some explicit ↦ explicit
  | none ↦ elim k.max_rpm [
    | some per_key_limit ↦ per_key_limit
    | none ↦ if config.max_rpm_per_key == 0 then 1 else config.max_rpm_per_key
  ]
]

-- `sum(self._weight_of(k, config) for k in candidates)`
unfoldable pub total_weight : PoolConfig → List Ref → ℕ
total_weight config [] = 0
total_weight config ((i, k) ∷ cs) = weight_of config k + total_weight config cs

-- `updated > best_weight`, where the best weight is `-inf` at first.
abbrev pub beats : ℤ → Option (Ref × ℤ) → Bool
beats updated none = true
beats updated (some (best, weight)) = ltz weight updated

-- The loop of `WeightedRoundRobinStrategy.select`: the weights and the best so far.
unfoldable pub raise_weights :
    PoolConfig → Dict ℤ → Option (Ref × ℤ) → List Ref → Dict ℤ × Option (Ref × ℤ)
unfolding weight_of
raise_weights config current best [] = (current, best)
raise_weights config current best ((i, k) ∷ cs) =
    let updated = Dict.get_or current k.key_id (pos 0) +ℤ pos (weight_of config k) in
    raise_weights config (Dict.put current k.key_id updated)
      (if beats updated best then some ((i, k), updated) else best) cs

-- The end of the method: the best key pays the total.
unfoldable pub pay : ℕ → Dict ℤ × Option (Ref × ℤ) → Result (Ref × Strategy)
pay total (current, none) = err value_error
pay total (current, some ((i, k), weight)) = ok (
  (i, k),
  weighted_round_robin
      (Dict.put current k.key_id (Dict.get_or current k.key_id (pos 0) -ℤ pos total)),
)

unfoldable pub weighted_select : PoolConfig → Dict ℤ → List Ref → Result (Ref × Strategy)
weighted_select config current candidates =
    let total = total_weight config candidates in
    if total == 0
    then elim (first candidates) [ err e ↦ err e | ok c ↦ ok (c, weighted_round_robin current) ]
    else pay total (raise_weights config current none candidates)

abbrev pub with_strategy : Strategy → Result Ref → Result (Ref × Strategy)
with_strategy s (ok r) = ok (r, s)
with_strategy s (err e) = err e

module _ (f : FloatOps) (now : Clock) (config : PoolConfig) where
  -- `HealthAwareStrategy`: the higher `health_score`.
  unfoldable pub healthier : Ref → Ref → Bool
  healthier (_, a) (_, b) =
      let threshold = in_seconds f config.latency_penalty_threshold in
      f.lt (health_score f b now config.max_rpm_per_key threshold)
        (health_score f a now config.max_rpm_per_key threshold)

  -- `select` of the strategy at hand.
  unfoldable pub select : Strategy → List Ref → List Ref → Result (Ref × Strategy)
  select health_aware candidates all_keys =
      with_strategy health_aware (best_of healthier candidates)
  select (round_robin next_index) candidates all_keys =
      round_robin_select next_index candidates all_keys
  select least_used candidates all_keys =
      with_strategy least_used (best_of (less_used now) candidates)
  select (weighted_round_robin current) candidates all_keys =
      weighted_select config current candidates
  select least_remaining_capacity candidates all_keys =
      with_strategy least_remaining_capacity (best_of (more_capacity now config) candidates)
  select priority_failover candidates all_keys =
      with_strategy priority_failover (first_by_priority (positions all_keys []) candidates)
