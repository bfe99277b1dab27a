-- ===== src/Pool/Scheduler/Acquire.antt =====
-- What `acquire_key` returns and leaves, on every branch.
use pool_gate.Common.{
  ℕ, ◌≡◌, ◌≢◌, refl, sym, subst, Option, some, List, [], ◌∷◌, All, All_at, get_elem?, set, inl, inr,
  ◌⊎◌,
}
use pool_gate.Float.{FloatOps}
use pool_gate.Result.{Result, ok, err, no_available_api_key}
use pool_gate.Pool.Key.{Clock, ApiKeyState, record_request_start}
use pool_gate.Pool.Strategy.{Ref, Strategy}
use pool_gate.Pool.Strategy.Chosen.{select-Chooses, Candidates}
use pool_gate.Pool.Scheduler.{
  RequestScheduler, refs, candidates_of, effective_config, choose, settle, acquire_key,
}
use pool_gate.Pool.Scheduler.Gather.{
  candidates_of-listed, Usable, Distinct, candidates_of-Usable, gather_cases, revived, Usable-by_id,
  refs-All, Distinct-revived,
}

-- The keys that `acquire_key` works on.
abbrev pub Gathered : List ApiKeyState → List ApiKeyState → Clock → Type 0
Gathered keys' keys now =
    ((keys' ≡ keys) × (candidates_of keys now ≢ []))
    ⊎ ((keys' ≡ revived now keys) × (candidates_of keys now ≡ []))

-- A key was chosen that could be used; its request has started, and no other key has changed.
abbrev pub Acquired :
    RequestScheduler → List ApiKeyState → Clock → Result ℕ × RequestScheduler → Type 0
Acquired s keys now result =
    (r : Ref) × (strategy : Strategy) × (result ≡ (
      ok r.0,
      record s { keys = set keys r.0 (record_request_start r.1 now); strategy = strategy },
    ))
    × Usable keys now r

abbrev pub Refused :
    RequestScheduler → List ApiKeyState → Clock → Result ℕ × RequestScheduler → Type 0
Refused s keys now result =
    (candidates_of keys now ≡ []) × (result ≡ (err no_available_api_key, record s { keys = keys }))

module _ (f : FloatOps) (s : RequestScheduler) (now : Clock) (max_rpm : Option ℕ) where
  attempt : List ApiKeyState → List Ref → Result ℕ × RequestScheduler
  attempt keys cs = settle f s now keys (choose f s now max_rpm cs keys)

  attempt_cases :
      (keys : List ApiKeyState) (cs : List Ref)
      → Distinct keys
      → candidates_of keys now ≡ cs
      → Refused s keys now (attempt keys cs) ⊎ Acquired s keys now (attempt keys cs)
  unfolding attempt settle choose
  attempt_cases keys [] d e = inl (e, refl)
  attempt_cases keys (c ∷ cs) d e =
      let usables : All (Usable keys now) (c ∷ cs) =
        subst (All (Usable keys now)) e (candidates_of-Usable keys now) in
      let (r, strategy, chosen, ok_r) =
        select-Chooses (Usable keys now) c cs (refs 0 keys) usables
          (subst (Candidates (refs 0 keys)) e (candidates_of-listed keys now))
          (λ q i at id.
            let stands =
              All_at (λ (q : Ref). get_elem? keys q.0 ≡ some q.1) (refs 0 keys) i (refs-All keys)
                at in
            (stands, Usable-by_id keys now (c ∷ cs) q d usables stands id))
          f now (effective_config s.config max_rpm) s.strategy in
      inr (r, strategy, rw (chosen, settle), ok_r)

  -- Where the ids are distinct, `acquire_key` starts a request on one key that is available, revived
  -- keys counted only if no other could be used, and changes no other key; or no key can be used, and
  -- then it raises and starts nothing.
  pub acquire_key_outcome :
      Distinct s.keys
      → (keys : List ApiKeyState) × Gathered keys s.keys now
        × (Refused s keys now (acquire_key f s now max_rpm)
            ⊎ Acquired s keys now (acquire_key f s now max_rpm))
  unfolding acquire_key
  acquire_key_outcome d =
      let (keys, e, how) = gather_cases s.keys now in
      let d' : Distinct keys = elim how [
        | inl (same, _) ↦ subst Distinct (sym same) d
        | inr (same, _) ↦ subst Distinct (sym same) (Distinct-revived now s.keys d)
      ] in
      (
        keys,
        how,
        rw (e, acquire_key) (unfold attempt in attempt_cases keys (candidates_of keys now) d' refl),
      )
