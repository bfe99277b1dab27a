-- ===== src/Pool/Scheduler/Recovery.antt =====
-- When a key can be had.
use pool_gate.Common.{
  ℕ, zero, suc, ◌+◌, ◌≤◌, ◌<◌, ◌≡◌, ◌≢◌, subst, ap, true, Option, some, List, [], ◌∷◌, arith,
  get_elem?, inl, inr, ◌⊎◌, keep_if, map,
}
use pool_gate.Float.{FloatOps}
use pool_gate.Result.{Result, ok}
use pool_gate.Pool.Key.{Clock, ApiKeyState, active, rate_limited, is_available, reset_cooldown}
use pool_gate.Pool.Scheduler.{RequestScheduler, refs, usable, candidates_of, revive, acquire_key}
use pool_gate.Pool.Scheduler.Gather.{Distinct, revived}
use pool_gate.Pool.Scheduler.Acquire.{Gathered, acquire_key_outcome}

-- Active or rate-limited, past its cooldown, with room for a request.
pub record Ready (now : Clock) (k : ApiKeyState) : Type 0 where
  pub status : (k.status ≡ active) ⊎ (k.status ≡ rate_limited)
  pub cooled : k.cooldown_until ≤ now.mono
  pub room : k.active_requests < k.max_parallel_requests

-- A usable key stops the list of candidates from being empty.
kept_usable :
    (now : Clock) (n i : ℕ) (ks : List ApiKeyState) (k : ApiKeyState)
    → get_elem? ks i ≡ some k
    → is_available k now ≡ true
    → keep_if (usable now) (refs n ks) ≢ []
unfolding refs usable is_available
kept_usable now n i [] k e h = cc
kept_usable now n zero (x ∷ ks) k e h = λ none_left. ground arith
kept_usable now n (suc i) (x ∷ ks) k e h =
    λ none_left. ground (arith, kept_usable now (n + 1) i ks k e h)

candidates_of_usable :
    (keys : List ApiKeyState) (now : Clock) (i : ℕ) (k : ApiKeyState)
    → get_elem? keys i ≡ some k
    → is_available k now ≡ true
    → candidates_of keys now ≢ []
unfolding candidates_of
candidates_of_usable keys now i k e h = kept_usable now 0 i keys k e h

Ready-revived :
    (now : Clock) (k : ApiKeyState) → Ready now k → is_available (revive now k) now ≡ true
unfolding is_available revive reset_cooldown
Ready-revived now k r = ground arith

get_elem?-map :
    (g : ApiKeyState → ApiKeyState) (ks : List ApiKeyState) (i : ℕ) (k : ApiKeyState)
    → get_elem? ks i ≡ some k
    → get_elem? (map g ks) i ≡ some (g k)
get_elem?-map g [] i k e = cc
get_elem?-map g (x ∷ ks) zero k e = ground arith
get_elem?-map g (x ∷ ks) (suc i) k e = get_elem?-map g ks i k e

-- As long as one key is active or rate-limited, past its cooldown and with room for a request,
-- `acquire_key` returns a key: a rate-limited key comes back by itself where no other is left.
pub acquire_key-Ready :
    (f : FloatOps) (s : RequestScheduler) (now : Clock) (max_rpm : Option ℕ) (i : ℕ)
    (k : ApiKeyState)
    → Distinct s.keys
    → get_elem? s.keys i ≡ some k
    → Ready now k
    → (j : ℕ) × ((acquire_key f s now max_rpm).0 ≡ ok j)
acquire_key-Ready f s now max_rpm i k d at r =
    let (keys, how, outcome) = acquire_key_outcome f s now max_rpm d in
    elim outcome [
      | inr (q, strategy, e, _) ↦ (q.0, ap (λ (x : Result ℕ × RequestScheduler). x.0) e)
      | inl (empty, _) ↦ absurd (refute keys how empty)
    ]
  where
    refute : (keys : List ApiKeyState) → Gathered keys s.keys now → candidates_of keys now ≡ [] → ⊥
    refute keys (inr (same, _)) empty =
        candidates_of_usable (revived now s.keys) now i (revive now k)
          (get_elem?-map (revive now) s.keys i k at) (Ready-revived now k r)
          (subst (λ ks. candidates_of ks now ≡ []) same empty)
    refute keys (inl (same, some_left)) empty =
        some_left (subst (λ ks. candidates_of ks now ≡ []) same empty)
