-- ===== src/Pool/KeyPool/Keys.antt =====
-- The dict of the pool, over any sequence of its methods.
use pool_gate.Common.{
  ℕ, ◌≡◌, refl, String, Bool, true, false, Option, none, some, List, [], ◌∷◌, arith, eq_iff, All,
  Option-cases, inl, inr,
}
use pool_gate.Result.{Result, ok, err}
use pool_gate.Dict.{Dict}
use pool_gate.Dict
use pool_gate.Dict.Laws.{IsDict, put-IsDict, remove-IsDict}
use pool_gate.Pool.Key.{Clock, ApiKeyState, from_key, mark_disabled, mark_failed, record_failure}
use pool_gate.Pool.KeyPool.{
  KeyPool, add_key, add_key_state, remove_key, enable_key, disable_key, mark_unhealthy, resolved_id,
  require_key, write,
}

-- Each key stands once, under its own id.
pub record IsKeyed (p : KeyPool) : Type 0 where
  pub once : IsDict p.keys
  pub own_id : All (λ e. e.0 ≡ e.1.key_id) p.keys

pub data Call : Type 0 where
  adds : Clock → List ℕ → Option String → Option ℕ → Call
  adds_state : ApiKeyState → Call
  removes : String → Call
  enables : String → Call
  disables : String → Call
  marks : Clock → String → Bool → ℕ → Call

-- A call that raises leaves the pool as it was.
abbrev pub after_result : KeyPool → Result KeyPool → KeyPool
after_result p (ok q) = q
after_result p (err e) = p

abbrev pub after_add : KeyPool → Option (ApiKeyState × KeyPool) → KeyPool
after_add p none = p
after_add p (some (k, q)) = q

unfoldable pub step : KeyPool → Call → KeyPool
step p (adds now raw_key key_id max_parallel) =
    after_add p (add_key p now raw_key key_id max_parallel)
step p (adds_state key) = add_key_state p key
step p (removes key_id) = (remove_key p key_id).1
step p (enables key_id) = after_result p (enable_key p key_id)
step p (disables key_id) = after_result p (disable_key p key_id)
step p (marks now key_id failed secs) = after_result p (mark_unhealthy p now key_id failed secs)

unfoldable pub run : KeyPool → List Call → KeyPool
run p [] = p
run p (c ∷ cs) = run (step p c) cs

own_id-put :
    (d : Dict ApiKeyState) (k : String) (v : ApiKeyState)
    → k ≡ v.key_id
    → All (λ e. e.0 ≡ e.1.key_id) d
    → All (λ e. e.0 ≡ e.1.key_id) (Dict.put d k v)
unfolding Dict.put
own_id-put [] k v e h = (e, tt)
own_id-put ((j, w) ∷ d) k v e h = ground (arith, h.0, h.1, eq_iff j k, own_id-put d k v e h.1)

own_id-remove :
    (d : Dict ApiKeyState) (k : String)
    → All (λ e. e.0 ≡ e.1.key_id) d
    → All (λ e. e.0 ≡ e.1.key_id) (Dict.remove d k)
unfolding Dict.remove
own_id-remove [] k h = tt
own_id-remove ((j, w) ∷ d) k h = ground (arith, h.0, h.1, own_id-remove d k h.1)

own_id-get :
    (d : Dict ApiKeyState) (k : String) (v : ApiKeyState)
    → All (λ e. e.0 ≡ e.1.key_id) d
    → Dict.get d k ≡ some v
    → k ≡ v.key_id
unfolding Dict.get
own_id-get [] k v h e = cc
own_id-get ((j, w) ∷ d) k v h e = ground (arith, h.0, eq_iff j k, own_id-get d k v h.1)

put-IsKeyed :
    (p : KeyPool) (k : String) (v : ApiKeyState) → k ≡ v.key_id → IsKeyed p → IsKeyed (write p k v)
put-IsKeyed p k v e h = record {
  once = put-IsDict p.keys k v h.once;
  own_id = own_id-put p.keys k v e h.own_id;
}

module _ (p : KeyPool) (h : IsKeyed p) (id : String) where
  found_id : (k : ApiKeyState) → Dict.get p.keys id ≡ some k → id ≡ k.key_id
  found_id k e = own_id-get p.keys id k h.own_id e

  enable_key-IsKeyed : IsKeyed (after_result p (enable_key p id))
  unfolding enable_key require_key
  enable_key-IsKeyed = elim (Option-cases (Dict.get p.keys id)) [
    | inl e ↦ rw (e, after_result, enable_key) h
    | inr (k, e) ↦ rw (e, after_result, enable_key) (put-IsKeyed p id _ (found_id k e) h)
  ]

  disable_key-IsKeyed : IsKeyed (after_result p (disable_key p id))
  unfolding disable_key require_key mark_disabled
  disable_key-IsKeyed = elim (Option-cases (Dict.get p.keys id)) [
    | inl e ↦ rw (e, after_result, disable_key) h
    | inr (k, e) ↦ rw (e, after_result, disable_key) (put-IsKeyed p id _ (found_id k e) h)
  ]

  mark_unhealthy-IsKeyed :
      (now : Clock) (failed : Bool) (secs : ℕ)
      → IsKeyed (after_result p (mark_unhealthy p now id failed secs))
  unfolding mark_unhealthy require_key mark_failed record_failure
  mark_unhealthy-IsKeyed now true secs = elim (Option-cases (Dict.get p.keys id)) [
    | inl e ↦ rw (e, after_result, mark_unhealthy) h
    | inr (k, e) ↦ rw (e, after_result, mark_unhealthy) (put-IsKeyed p id _ (found_id k e) h)
  ]
  mark_unhealthy-IsKeyed now false secs = elim (Option-cases (Dict.get p.keys id)) [
    | inl e ↦ rw (e, after_result, mark_unhealthy) h
    | inr (k, e) ↦ rw (e, after_result, mark_unhealthy) (put-IsKeyed p id _ (found_id k e) h)
  ]

add_key-IsKeyed :
    (p : KeyPool) (now : Clock) (raw : List ℕ) (key_id : Option String) (n : Option ℕ)
    → IsKeyed p
    → IsKeyed (after_add p (add_key p now raw key_id n))
unfolding add_key from_key
add_key-IsKeyed p now raw key_id n h = elim (Option-cases (resolved_id p key_id)) [
  | inl e ↦ rw (e, add_key) h
  | inr (r, e) ↦ rw (e, add_key) (keyed (put-IsKeyed p r.0 _ refl h))
]
  where
    keyed : {q : KeyPool} {c : ℕ} → IsKeyed q → IsKeyed (record q { counter = c })
    keyed v = record { once = v.once; own_id = v.own_id }

step-IsKeyed : (p : KeyPool) (c : Call) → IsKeyed p → IsKeyed (step p c)
unfolding step
step-IsKeyed p (adds now raw key_id n) h = add_key-IsKeyed p now raw key_id n h
step-IsKeyed p (adds_state key) h = unfold add_key_state in put-IsKeyed p key.key_id key refl h
step-IsKeyed p (removes key_id) h =
    unfold remove_key in
    record {
      once = remove-IsDict p.keys key_id h.once;
      own_id = own_id-remove p.keys key_id h.own_id;
    }
step-IsKeyed p (enables key_id) h = enable_key-IsKeyed p h key_id
step-IsKeyed p (disables key_id) h = disable_key-IsKeyed p h key_id
step-IsKeyed p (marks now key_id failed secs) h = mark_unhealthy-IsKeyed p h key_id now failed secs

-- Over any calls of the pool's methods, those that raise included, every key stands in the dict
-- once and under its own id.
pub run-IsKeyed : (cs : List Call) (p : KeyPool) → IsKeyed p → IsKeyed (run p cs)
unfolding run
run-IsKeyed [] p h = h
run-IsKeyed (c ∷ cs) p h = run-IsKeyed cs (step p c) (step-IsKeyed p c h)
