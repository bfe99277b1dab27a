-- ===== src/Tests/Keys.antt =====
-- The theorems of the keys, the pool and the strategies at concrete inputs.
use pool_gate.Common.{
  here, ℕ, ◌+◌, ◌<◌, ◌≡◌, refl, true, false, none, some, List, [], ◌∷◌, arith, String, ltb, leb,
}
use pool_gate.Float.{FloatOps, FloatLaws}
use pool_gate.Dict
use pool_gate.Result.{ok}
use pool_gate.Pick.{pick}
use pool_gate.Window.Sliding
use pool_gate.Int.{pos, ◌+ℤ◌, ◌-ℤ◌}
use pool_gate.Pool.Key.{
  Clock, ApiKeyState, from_key, is_available, requests_per_minute, record_failure, reset_cooldown,
  mark_disabled,
}
use pool_gate.Pool.Key.Counts.{
  starts, ends, fails, disables, resets, started, finished, IsConsistent, run-IsConsistent,
  run_accounts,
}
use pool_gate.Pool.Key.Counts
use pool_gate.Pool.Key.Availability.{Retired-unavailable, rate_limit_revives}
use pool_gate.Pool.KeyPool.{KeyPool, empty, next_key_id}
use pool_gate.Pool.KeyPool.Names.{next_key_id_total}
use pool_gate.Pool.KeyPool.Keys.{IsKeyed, adds, removes, run-IsKeyed}
use pool_gate.Pool.KeyPool.Keys
use pool_gate.Pool.Strategy.{
  Ref, PoolConfig, Strategy, least_used, select, is_candidate, weighted_select, best_of, less_used,
  total_weight, weight_of, pay, raise_weights,
}
use pool_gate.Pool.Strategy.Chosen.{select_candidate, is_candidate-Elem}
use pool_gate.Pool.Strategy.Best.{Unbeaten, select-Unbeaten}
use pool_gate.Pool.Strategy.Weighted.{sum_weights, weighted_select_conserves}

abbrev pub early : Clock
early = record { mono = 5; wall = 5 }

abbrev pub late : Clock
late = record { mono = 900000000; wall = 900000000 }

abbrev pub key_a : ApiKeyState
key_a = from_key early "a" [] 2

abbrev pub key_b : ApiKeyState
key_b = from_key early "b" [] 1

abbrev pub settings : PoolConfig
settings = record {
  max_rpm_per_key = 30;
  cooldown_seconds = 60;
  failure_threshold = 5;
  latency_penalty_threshold = 3000000;
}

-- Whole numbers in place of the floats.
abbrev pub whole : FloatOps
whole = record {
  F = ℕ;
  of_ℕ = λ n. n;
  half = 0;
  neg_inf = 0;
  add = λ x y. x + y;
  sub = λ x y. x;
  mul = λ x y. x;
  div = λ x y. x;
  lt = ltb;
  le = leb;
}

whole_laws : FloatLaws whole
whole_laws = record { lt_irrefl = λ a. ground arith; lt_trans = λ a b c g h. ground arith }

abbrev life : List Counts.Call
life = starts early ∷ starts early ∷ ends late 7 1 2 ∷ fails late false 60 ∷ []

run_accounts_example :
    ((Counts.run key_a life).active_requests + finished life ≡ key_a.active_requests + started life)
    × ((Counts.run key_a life).success_count + (Counts.run key_a life).failure_count
        ≡ key_a.success_count + key_a.failure_count + finished life)
unfolding from_key
run_accounts_example = run_accounts life key_a (omega arith, (omega arith, tt))

Retired-unavailable_example :
    is_available (Counts.run (mark_disabled key_a) (ends late 7 1 2 ∷ resets ∷ [])) late ≡ false
unfolding mark_disabled
Retired-unavailable_example =
    Retired-unavailable (mark_disabled key_a) late (ends late 7 1 2 ∷ resets ∷ []) tt tt

rate_limit_revives_example :
    is_available (reset_cooldown (record_failure (mark_disabled key_a) early true 60)) late ≡ true
unfolding mark_disabled from_key
rate_limit_revives_example =
    rate_limit_revives (mark_disabled key_a) early late 60 (omega arith) (omega arith)

next_key_id_total_example :
    (r : String × ℕ) × (next_key_id (empty 4) ≡ some r)
    × (Dict.has (empty 4).keys r.0 ≡ false)
    × ((empty 4).counter < r.1)
next_key_id_total_example = next_key_id_total (empty 4)

abbrev one_key : KeyPool
one_key = record { keys = ("a", key_a) ∷ []; counter = 0; max_parallel = 4 }

run-IsKeyed_example : IsKeyed (Keys.run (empty 4) (adds early [] none none ∷ removes "key_0" ∷ []))
run-IsKeyed_example =
    run-IsKeyed (adds early [] none none ∷ removes "key_0" ∷ []) (empty 4)
      (record { once = tt; own_id = tt })

select_candidate_example :
    (r : Ref) × (s' : Strategy) × (select whole late settings least_used
        ((0, key_a) ∷ [])
        ((0, key_a) ∷ (1, key_b) ∷ [])
      ≡ ok (r, s'))
    × (is_candidate ((0, key_a) ∷ []) r.1.key_id ≡ true)
select_candidate_example =
    select_candidate whole late settings least_used (0, key_a) [] ((0, key_a) ∷ (1, key_b) ∷ [])
      (
        is_candidate-Elem ((0, key_a) ∷ (1, key_b) ∷ []) {r = (0, key_a)} (here ((1, key_b) ∷ [])),
        tt,
      )

abbrev two_refs : List Ref
two_refs = (0, key_a) ∷ (1, key_b) ∷ []

abbrev only_b : List Ref
only_b = (1, key_b) ∷ []

select-Unbeaten_example : Unbeaten whole late settings two_refs least_used two_refs (0, key_a)
unfolding select best_of pick less_used requests_per_minute Sliding.count Sliding.evict from_key
    Sliding.new
select-Unbeaten_example =
    select-Unbeaten whole whole_laws late settings least_used least_used two_refs two_refs
      (0, key_a) refl

weighted_select_conserves_example : sum_weights (("a", pos 0) ∷ []) ≡ sum_weights []
unfolding weighted_select total_weight weight_of from_key pay raise_weights Dict.put ◌-ℤ◌
    Dict.get_or ◌+ℤ◌
weighted_select_conserves_example =
    weighted_select_conserves settings [] ((0, key_a) ∷ []) (0, key_a) (("a", pos 0) ∷ []) refl
