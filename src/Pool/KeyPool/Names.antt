-- ===== src/Pool/KeyPool/Names.antt =====
-- The names that the pool makes up for keys.
use text.Mathlib.TextPositions.{eq_refl}
use pool_gate.Common.{
  ℕ, zero, suc, ◌+◌, ◌<◌, ◌≡◌, ◌≢◌, refl, sym, ◌∙◌, String, true, false, Option, none, some, List,
  length, arith, eq_iff, Bool-cases, inl, inr,
}
use pool_gate.Decimal.{decimal-injective}
use pool_gate.Dict.{Dict}
use pool_gate.Dict
use pool_gate.Dict.Laws.{get-put, length-remove, has-remove_ne}
use pool_gate.Pool.Key.{Clock, ApiKeyState, from_key}
use pool_gate.Pool.KeyPool.{
  KeyPool, key_name, next_free, next_key_id, resolved_id, add_key, or_default,
}

key_name-injective : (m n : ℕ) → key_name m ≡ key_name n → m ≡ n
unfolding key_name
key_name-injective m n e = decimal-injective m n (cc)

-- A name with a smaller counter does not matter to the loop.
next_free-remove :
    (fuel : ℕ) (keys : Dict ApiKeyState) (j c : ℕ)
    → j < c
    → next_free fuel (Dict.remove keys (key_name j)) c ≡ next_free fuel keys c
unfolding next_free
next_free-remove zero keys j c h = refl
next_free-remove (suc fuel) keys j c h =
    let other : key_name j ≢ key_name c = λ e. omega (arith, key_name-injective j c e) in
    rw
      (
        has-remove_ne keys (key_name j) (key_name c) other,
        next_free-remove fuel keys j (c + 1) (omega arith),
      )
      refl

next_free_taken :
    (fuel : ℕ) (keys : Dict ApiKeyState) (c : ℕ)
    → Dict.has keys (key_name c) ≡ true
    → next_free (suc fuel) keys c ≡ next_free fuel keys (c + 1)
unfolding next_free
next_free_taken fuel keys c h = rw h

-- More rounds than the pool has keys find a name.
next_free_total :
    (fuel : ℕ) (keys : Dict ApiKeyState) (c : ℕ)
    → length keys < fuel
    → (r : String × ℕ) × (next_free fuel keys c ≡ some r)
next_free_total zero keys c h = absurd (omega arith)
next_free_total (suc fuel) keys c h = elim (Bool-cases (Dict.has keys (key_name c))) [
  | inl taken ↦
      let (r, found) =
        next_free_total fuel (Dict.remove keys (key_name c)) (c + 1)
          (omega (arith, length-remove keys (key_name c) taken)) in
      (
        r,
        next_free_taken fuel keys c taken
            ∙ sym (next_free-remove fuel keys c (c + 1) (omega arith))
            ∙ found,
      )
  | inr free ↦ ((key_name c, c + 1), unfold next_free in rw free)
]

-- What the loop finds is free.
next_free_fresh :
    (fuel : ℕ) (keys : Dict ApiKeyState) (c : ℕ) {r : String × ℕ}
    → next_free fuel keys c ≡ some r
    → (Dict.has keys r.0 ≡ false) × (c < r.1)
unfolding next_free
next_free_fresh zero keys c h = cc
next_free_fresh (suc fuel) keys c {r} h = elim (Bool-cases (Dict.has keys (key_name c))) [
  | inl taken ↦
      let later = next_free_fresh fuel keys (c + 1) {r = r} (rw (taken) at h) in
      (later.0, omega (arith, later.1))
  | inr free ↦ (ground arith, ground arith)
]

-- The loop of `_next_key_id` ends, whatever keys the pool has: its result is a name that no key has,
-- and the counter has grown.
pub next_key_id_total :
    (p : KeyPool)
    → (r : String × ℕ) × (next_key_id p ≡ some r)
      × (Dict.has p.keys r.0 ≡ false)
      × (p.counter < r.1)
unfolding next_key_id
next_key_id_total p =
    let (r, found) = next_free_total (suc (length p.keys)) p.keys p.counter (omega arith) in
    let fresh = next_free_fresh (suc (length p.keys)) p.keys p.counter {r = r} found in
    (r, found, fresh.0, fresh.1)

add_key_lem :
    (p : KeyPool) (now : Clock) (raw_key : List ℕ) (max_parallel : Option ℕ) (r : String × ℕ)
    → next_key_id p ≡ some r
    → let k = from_key now r.0 raw_key (or_default max_parallel p.max_parallel) in
      add_key p now raw_key none max_parallel
      ≡ some (k, record p { keys = Dict.put p.keys r.0 k; counter = r.1 })
unfolding add_key resolved_id
add_key_lem p now raw_key max_parallel r found = rw (found, add_key)

get-put_other :
    (d : Dict ApiKeyState) (k j : String) (v : ApiKeyState)
    → Dict.has d k ≡ false
    → Dict.has d j ≡ true
    → Dict.get (Dict.put d k v) j ≡ Dict.get d j
get-put_other d k j v free there = get-put d k j v ∙ ground (arith, eq_iff k j)

-- A key that is added without an id is in the pool afterwards, under a name that was free, and every
-- key that was there is still there, unchanged.
pub add_key_keeps :
    (p : KeyPool) (now : Clock) (raw_key : List ℕ) (max_parallel : Option ℕ)
    → (k : ApiKeyState) × (p' : KeyPool) × (add_key p now raw_key none max_parallel ≡ some (k, p'))
      × (Dict.has p.keys k.key_id ≡ false)
      × (Dict.get p'.keys k.key_id ≡ some k)
      × ((j : String) → Dict.has p.keys j ≡ true → Dict.get p'.keys j ≡ Dict.get p.keys j)
unfolding from_key
add_key_keeps p now raw_key max_parallel =
    let (r, found, free, grown) = next_key_id_total p in
    let k = from_key now r.0 raw_key (or_default max_parallel p.max_parallel) in
    (
      k,
      record p { keys = Dict.put p.keys r.0 k; counter = r.1 },
      add_key_lem p now raw_key max_parallel r found,
      free,
      get-put p.keys r.0 r.0 k ∙ rw eq_refl,
      λ j there. get-put_other p.keys r.0 j k free there,
    )
