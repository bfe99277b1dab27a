-- ===== src/Pool/Strategy/Chosen.antt =====
-- Every strategy makes a choice where there is a candidate, and what it chooses comes from the
-- candidates; only the rotation finds it in the list of all keys, by its id.
use text.Mathlib.TextPositions.{eq_refl}
use pool_gate.Common.{
  ℕ, ◌≡◌, refl, Bool, true, Option, none, some, List, [], ◌∷◌, arith, All, Bool-cases, inl, inr,
  ◌==◌, Elem, here, there, length, Option-cases, get_elem?, String, str_eq, ◌∙◌,
}
use pool_gate.Int.{ℤ, pos, ◌+ℤ◌, ◌-ℤ◌}
use pool_gate.Result.{Result, ok}
use pool_gate.Float.{FloatOps}
use pool_gate.Pick.{pick, pick-Elem}
use pool_gate.Dict.{Dict}
use pool_gate.Dict.Laws.{get-put}
use pool_gate.Dict
use pool_gate.Pool.Key.{Clock, ApiKeyState}
use pool_gate.Pool.Strategy.RoundRobin.{place, rotate_first}
use pool_gate.Pool.Strategy.{
  Ref, PoolConfig, Strategy, health_aware, round_robin, least_used, weighted_round_robin,
  least_remaining_capacity, priority_failover, weight_of, total_weight, beats, raise_weights, pay,
  weighted_select, best_of, is_candidate, rotate, round_robin_select, select, with_strategy,
  healthier, less_used, more_capacity, prior, positions, priority_of, priorities, first_by_priority,
}

All-Elem : (P : Ref → Type 0) (cs : List Ref) {r : Ref} → All P cs → Elem r cs → P r
All-Elem P [] h e = elim e [ ]
All-Elem P (c ∷ cs) h (here _) = h.0
All-Elem P (c ∷ cs) h (there _ e) = All-Elem P cs h.1 e

rotate-place :
    (candidates all_keys : List Ref) (next left offset : ℕ) {r : Ref} {n : ℕ}
    → rotate candidates all_keys next left offset ≡ some (r, n)
    → (i : ℕ) × (get_elem? all_keys i ≡ some r) × (is_candidate candidates r.1.key_id ≡ true)
rotate-place cs all next left offset {r} {n} h =
    let found = rotate_first cs all next left offset r n h in
    (place cs all next found.0, found.3, found.4)

pay-some :
    (total : ℕ) (current : Dict ℤ) (best : Option (Ref × ℤ)) (i : ℕ) (k : ApiKeyState) (w : ℤ)
    → best ≡ some ((i, k), w)
    → pay total (current, best)
      ≡ ok (
        (i, k),
        weighted_round_robin
            (Dict.put current k.key_id (Dict.get_or current k.key_id (pos 0) -ℤ pos total)),
      )
unfolding pay
pay-some total current best i k w e = rw (e, pay)

-- The keys of the second list have ids of the first.
abbrev pub Candidates : List Ref → List Ref → Type 0
Candidates seen cs = All (λ c. is_candidate seen c.1.key_id ≡ true) cs

-- The table of positions has the ids of the keys.
positions-kept :
    (refs : List Ref) (d : Dict ℕ) (id : String) (i : ℕ)
    → Dict.get d id ≡ some i
    → (j : ℕ) × (Dict.get (positions refs d) id ≡ some j)
unfolding positions
positions-kept [] d id i e = (i, e)
positions-kept ((n, k) ∷ refs) d id i e = elim (Bool-cases (str_eq k.key_id id)) [
  | inl same ↦
      positions-kept refs (Dict.put d k.key_id n) id n (get-put d k.key_id id n ∙ rw same refl)
  | inr other ↦
      positions-kept refs (Dict.put d k.key_id n) id i (get-put d k.key_id id n ∙ rw other e)
]

positions-listed :
    (refs : List Ref) (d : Dict ℕ) (id : String)
    → is_candidate refs id ≡ true
    → (j : ℕ) × (Dict.get (positions refs d) id ≡ some j)
unfolding positions is_candidate
positions-listed [] d id h = cc
positions-listed ((n, k) ∷ refs) d id h = elim (Bool-cases (str_eq k.key_id id)) [
  | inl same ↦
      positions-kept refs (Dict.put d k.key_id n) id n (get-put d k.key_id id n ∙ rw same refl)
  | inr other ↦ positions-listed refs (Dict.put d k.key_id n) id (rw other at h)
]

priority_of-listed :
    (position : Dict ℕ) (k : ApiKeyState) (j : ℕ)
    → Dict.get position k.key_id ≡ some j
    → (p : ℕ) × (priority_of position k ≡ ok p)
unfolding priority_of
priority_of-listed position k j e = elim (Option-cases k.priority) [
  | inl free ↦ (j, rw (free, priority_of) (rw e refl))
  | inr (p, explicit) ↦ (p, rw (explicit, priority_of) refl)
]

priorities-listed :
    (all_keys cs : List Ref)
    → Candidates all_keys cs
    → priorities (positions all_keys []) cs ≡ ok tt
unfolding priorities
priorities-listed all_keys [] h = refl
priorities-listed all_keys ((i, k) ∷ cs) h =
    let (j, e) = positions-listed all_keys [] k.key_id h.0 in
    let (p, q) = priority_of-listed (positions all_keys []) k j e in
    rw q (priorities-listed all_keys cs h.1)

-- A predicate that holds of the candidates, and of a key of the list that has the id of one.
module _ (P : Ref → Type 0) where
  -- The choice is made, and has the property.
  abbrev pub Chooses : Result (Ref × Strategy) → Type 0
  Chooses result = (r : Ref) × (s : Strategy) × (result ≡ ok (r, s)) × P r

  best_of-Chooses :
      (better : Ref → Ref → Bool) (s : Strategy) (c : Ref) (cs : List Ref)
      → All P (c ∷ cs)
      → Chooses (with_strategy s (best_of better (c ∷ cs)))
  unfolding best_of
  best_of-Chooses better s c cs h =
      (pick better c cs, s, refl, All-Elem P (c ∷ cs) h (pick-Elem better c cs))

  -- The best key of the weighted loop is the one at first or one of those that it passed.
  raise_weights-best :
      (config : PoolConfig) (current : Dict ℤ) (best : Ref) (weight : ℤ) (cs : List Ref)
      → P best
      → All P cs
      → (r : Ref) × (w : ℤ) × ((raise_weights config current (some (best, weight)) cs).1
          ≡ some (r, w))
        × P r
  unfolding raise_weights
  raise_weights-best config current best weight [] hb hc = (best, weight, refl, hb)
  raise_weights-best config current best weight ((i, k) ∷ cs) hb hc =
      let updated = Dict.get_or current k.key_id (pos 0) +ℤ pos (weight_of config k) in
      let raised = Dict.put current k.key_id updated in
      elim (Bool-cases (beats updated (some (best, weight)))) [
        | inl e ↦
            rw (e, raise_weights) (raise_weights-best config raised (i, k) updated cs hc.0 hc.1)
        | inr e ↦ rw (e, raise_weights) (raise_weights-best config raised best weight cs hb hc.1)
      ]

  weighted-Chooses :
      (config : PoolConfig) (current : Dict ℤ) (c : Ref) (cs : List Ref)
      → All P (c ∷ cs)
      → Chooses (weighted_select config current (c ∷ cs))
  unfolding weighted_select
  weighted-Chooses config current c cs h = elim (Bool-cases (total_weight config (c ∷ cs) == 0)) [
    | inl idle ↦ (c, weighted_round_robin current, rw (idle, weighted_select), h.0)
    | inr busy ↦
        let id = c.1.key_id in
        let updated = Dict.get_or current id (pos 0) +ℤ pos (weight_of config c.1) in
        let raised = raise_weights config current none (c ∷ cs) in
        let (r, w, e, p) =
          raise_weights-best config (Dict.put current id updated) c updated cs h.0 h.1 in
        (
          r,
          weighted_round_robin (
              Dict.put raised.0 r.1.key_id
                (Dict.get_or raised.0 r.1.key_id (pos 0) -ℤ pos (total_weight config (c ∷ cs)))),
          rw (busy, weighted_select)
              (pay-some (total_weight config (c ∷ cs)) raised.0 raised.1 r.0 r.1 w
                (unfold raise_weights in e)),
          p,
        )
  ]

  first_by_priority-Chooses :
      (position : Dict ℕ) (s : Strategy) (c : Ref) (cs : List Ref)
      → All P (c ∷ cs)
      → priorities position (c ∷ cs) ≡ ok tt
      → Chooses (with_strategy s (first_by_priority position (c ∷ cs)))
  unfolding first_by_priority
  first_by_priority-Chooses position s c cs h e =
      rw (e, first_by_priority) (best_of-Chooses (prior position) s c cs h)

  module _ (c : Ref) (cs all_keys : List Ref) (h : All P (c ∷ cs))
      (listed : Candidates all_keys (c ∷ cs))
      (by_id : (r : Ref) (i : ℕ)
        → get_elem? all_keys i ≡ some r
        → is_candidate (c ∷ cs) r.1.key_id ≡ true
        → P r) where
    round_robin-Chooses : (next : ℕ) → Chooses (round_robin_select next (c ∷ cs) all_keys)
    unfolding round_robin_select
    round_robin-Chooses next =
        elim (Option-cases (rotate (c ∷ cs) all_keys next (length all_keys) 0)) [
          | inl e ↦ (c, round_robin next, rw (e, round_robin_select), h.0)
          | inr ((r, n), e) ↦
              let (i, at, id) =
                rotate-place (c ∷ cs) all_keys next (length all_keys) 0 {r = r} {n = n} e in
              (r, round_robin n, rw (e, round_robin_select), by_id r i at id)
        ]

    pub select-Chooses :
        (f : FloatOps) (now : Clock) (config : PoolConfig) (s : Strategy)
        → Chooses (select f now config s (c ∷ cs) all_keys)
    unfolding select
    select-Chooses f now config health_aware =
        best_of-Chooses (healthier f now config) health_aware c cs h
    select-Chooses f now config (round_robin next) = round_robin-Chooses next
    select-Chooses f now config least_used = best_of-Chooses (less_used now) least_used c cs h
    select-Chooses f now config (weighted_round_robin current) =
        weighted-Chooses config current c cs h
    select-Chooses f now config least_remaining_capacity =
        best_of-Chooses (more_capacity now config) least_remaining_capacity c cs h
    select-Chooses f now config priority_failover =
        first_by_priority-Chooses (positions all_keys []) priority_failover c cs h
          (priorities-listed all_keys (c ∷ cs) listed)

pub is_candidate-Elem : (cs : List Ref) {r : Ref} → Elem r cs → is_candidate cs r.1.key_id ≡ true
unfolding is_candidate
is_candidate-Elem [] e = elim e [ ]
is_candidate-Elem (c ∷ cs) (here _) = rw eq_refl
is_candidate-Elem (c ∷ cs) {r} (there _ e) = ground (arith, is_candidate-Elem cs {r = r} e)

Candidates-cons : (c : Ref) (seen cs : List Ref) → Candidates seen cs → Candidates (c ∷ seen) cs
unfolding is_candidate
Candidates-cons c seen [] h = tt
Candidates-cons c seen (d ∷ cs) h = (ground (arith, h.0), Candidates-cons c seen cs h.1)

pub Candidates-self : (cs : List Ref) → Candidates cs cs
Candidates-self [] = tt
Candidates-self (c ∷ cs) =
    (is_candidate-Elem (c ∷ cs) {r = c} (here cs), Candidates-cons c cs cs (Candidates-self cs))

-- Where there is a candidate, and all candidates have ids of the list of all keys, every strategy makes
-- a choice, and chooses a key with the id of a candidate.
pub select_candidate :
    (f : FloatOps) (now : Clock) (config : PoolConfig) (s : Strategy) (c : Ref)
    (cs all_keys : List Ref)
    → Candidates all_keys (c ∷ cs)
    → (r : Ref) × (s' : Strategy) × (select f now config s (c ∷ cs) all_keys ≡ ok (r, s'))
      × (is_candidate (c ∷ cs) r.1.key_id ≡ true)
select_candidate f now config s c cs all_keys listed =
    select-Chooses (λ r. is_candidate (c ∷ cs) r.1.key_id ≡ true) c cs all_keys
      (Candidates-self (c ∷ cs)) listed (λ r i at id. id) f now config s
