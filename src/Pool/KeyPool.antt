-- ===== src/Pool/KeyPool.antt =====
-- `KeyPool` of poolgate/pool/key_pool.py. A method that mutates a key rewrites it in the dict.

pub mod Names
pub mod Keys
use pool_gate.Common.{
  ℕ, zero, suc, ◌+◌, ◌==◌, String, str_eq, Bool, true, false, Option, none, some, List, [], ◌∷◌,
  ◌++◌, if◌then◌else◌, keep_if, length, map,
}
use pool_gate.Result.{Result, ok, err, api_key_error, ◌>>=◌}
use pool_gate.Decimal.{decimal}
use pool_gate.Float.{FloatOps}
use pool_gate.Pick.{pick}
use pool_gate.Dict.{Dict}
use pool_gate.Dict
use pool_gate.Pool.Key.{
  Clock, ApiKeyState, active, from_key, is_available, mark_disabled, mark_failed, record_failure,
}
use pool_gate.Pool.Key.Score.{health_score}
use Prim.Native.String

pub record KeyPool : Type 0 where
  pub keys : Dict ApiKeyState
  pub counter : ℕ
  pub max_parallel : ℕ

abbrev pub empty : ℕ → KeyPool
empty max_parallel = record { keys = []; counter = 0; max_parallel = max_parallel }

-- `f"key_{n}"`
unfoldable pub key_name : ℕ → String
key_name n = String.◌∷◌ "k" (String.◌∷◌ "e" (String.◌∷◌ "y" (String.◌∷◌ "_" (decimal n))))

-- The loop of `_next_key_id`: the first free name from a counter on, and the counter behind it.
-- `none` is a loop that goes on past the fuel.
unfoldable pub next_free : ℕ → Dict ApiKeyState → ℕ → Option (String × ℕ)
next_free zero keys counter = none
next_free (suc fuel) keys counter =
    let rest = next_free fuel keys (counter + 1) in
    if Dict.has keys (key_name counter) then rest else some (key_name counter, counter + 1)

-- `_next_key_id`, with one round for each key of the pool and one more.
unfoldable pub next_key_id : KeyPool → Option (String × ℕ)
next_key_id p = next_free (suc (length p.keys)) p.keys p.counter

-- `key_id or self._next_key_id()`
unfoldable pub resolved_id : KeyPool → Option String → Option (String × ℕ)
resolved_id p none = next_key_id p
resolved_id p (some key_id) = if str_eq key_id "" then next_key_id p else some (key_id, p.counter)

-- `max_parallel or self._max_parallel`
abbrev pub or_default : Option ℕ → ℕ → ℕ
or_default none default = default
or_default (some n) default = if n == 0 then default else n

unfoldable pub add_key :
    KeyPool → Clock → List ℕ → Option String → Option ℕ → Option (ApiKeyState × KeyPool)
add_key p now raw_key key_id max_parallel = elim (resolved_id p key_id) [
  | none ↦ none
  | some (id, counter) ↦
      let state = from_key now id raw_key (or_default max_parallel p.max_parallel) in
      some (state, record p { keys = Dict.put p.keys id state; counter = counter })
]

unfoldable pub add_key_state : KeyPool → ApiKeyState → KeyPool
add_key_state p key = record p { keys = Dict.put p.keys key.key_id key }

unfoldable pub remove_key : KeyPool → String → Option ApiKeyState × KeyPool
remove_key p key_id = (Dict.get p.keys key_id, record p { keys = Dict.remove p.keys key_id })

unfoldable pub require_key : KeyPool → String → Result ApiKeyState
require_key p key_id = elim (Dict.get p.keys key_id) [
  | none ↦ err (api_key_error key_id)
  | some key ↦ ok key
]

-- A key of the pool mutated in place.
abbrev pub write : KeyPool → String → ApiKeyState → KeyPool
write p key_id key = record p { keys = Dict.put p.keys key_id key }

unfoldable pub enable_key : KeyPool → String → Result KeyPool
unfolding require_key
enable_key p key_id = do
  key ← require_key p key_id
  ok (write p key_id (record key { status = active; cooldown_until = 0 }))

unfoldable pub disable_key : KeyPool → String → Result KeyPool
unfolding require_key
disable_key p key_id = do key ← require_key p key_id; ok (write p key_id (mark_disabled key))

unfoldable pub mark_unhealthy : KeyPool → Clock → String → Bool → ℕ → Result KeyPool
unfolding require_key
mark_unhealthy p now key_id failed cooldown_secs = do
  key ← require_key p key_id
  ok (
      write p key_id
        (if failed then mark_failed key else record_failure key now true cooldown_secs))

unfoldable pub get_eligible_keys : KeyPool → Clock → List ApiKeyState
get_eligible_keys p now = keep_if (λ key. is_available key now) (Dict.values p.keys)

-- `list_keys`
unfoldable pub list_keys : KeyPool → List ApiKeyState
list_keys p = Dict.values p.keys

module _ (f : FloatOps) where
  -- `max(eligible, key=lambda key: key.health_score())`, with the method's default arguments.
  abbrev pub healthier : Clock → ApiKeyState → ApiKeyState → Bool
  healthier now a b = f.lt (health_score f b now 30 (f.of_ℕ 3)) (health_score f a now 30 (f.of_ℕ 3))

  abbrev pub healthiest : Clock → List ApiKeyState → Option ApiKeyState
  healthiest now [] = none
  healthiest now (k ∷ ks) = some (pick (healthier now) k ks)

  unfoldable pub get_key : KeyPool → Clock → Option String → Option ApiKeyState
  get_key p now (some key_id) = Dict.get p.keys key_id
  get_key p now none = healthiest now (get_eligible_keys p now)
