-- ===== src/Pool/Strategy/Weighted.antt =====
-- The smooth weighted round robin moves weight about and makes none.
use pool_gate.Common.{
  ℕ, ◌+◌, ◌≡◌, refl, ap, String, str_eq, Option, none, some, List, [], ◌∷◌, if◌then◌else◌, arith,
  Bool-cases, inl, inr, ◌==◌,
}
use pool_gate.Int.{ℤ, pos, pos_part, neg_part, ◌+ℤ◌, ◌-ℤ◌, eq_of_parts, int_laws}
use pool_gate.Result.{ok}
use pool_gate.Dict.{Dict}
use pool_gate.Dict
use pool_gate.Pool.Strategy.{
  Ref, PoolConfig, weighted_round_robin, weight_of, total_weight, beats, raise_weights, pay,
  weighted_select,
}

-- The sum of all current weights.
abbrev pub sum_weights : Dict ℤ → ℤ
sum_weights [] = pos 0
sum_weights ((k, w) ∷ d) = w +ℤ sum_weights d

-- Two integers are equal, in terms of their parts.
abbrev Same : ℤ → ℤ → Type 0
Same a b = pos_part a + neg_part b ≡ pos_part b + neg_part a

sum_weights-put :
    (d : Dict ℤ) (k : String) (w : ℤ)
    → Same (sum_weights (Dict.put d k w) +ℤ Dict.get_or d k (pos 0)) (sum_weights d +ℤ w)
unfolding Dict.put Dict.get_or
sum_weights-put [] k w = omega int_laws
sum_weights-put ((j, v) ∷ d) k w = elim (Bool-cases (str_eq j k)) [
  | inl e ↦ rw e (omega int_laws)
  | inr e ↦ rw e (omega (int_laws, sum_weights-put d k w))
]

sum_weights-raise_weights :
    (config : PoolConfig) (current : Dict ℤ) (best : Option (Ref × ℤ)) (cs : List Ref)
    → Same
        (sum_weights (raise_weights config current best cs).0)
        (sum_weights current +ℤ pos (total_weight config cs))
unfolding raise_weights total_weight
sum_weights-raise_weights config current best [] = omega int_laws
sum_weights-raise_weights config current best ((i, k) ∷ cs) =
    let old = Dict.get_or current k.key_id (pos 0) in
    let updated = old +ℤ pos (weight_of config k) in
    omega (
      int_laws,
      sum_weights-put current k.key_id updated,
      sum_weights-raise_weights config (Dict.put current k.key_id updated)
          (if beats updated best then some ((i, k), updated) else best) cs,
    )

pay_lem :
    (total : ℕ) (current : Dict ℤ) (best : Option (Ref × ℤ)) {r : Ref} {after : Dict ℤ}
    → pay total (current, best) ≡ ok (r, weighted_round_robin after)
    → Same (sum_weights after +ℤ pos total) (sum_weights current)
unfolding pay
pay_lem total current none h = cc
pay_lem total current (some ((i, k), w)) {r} {after} h =
    let old = Dict.get_or current k.key_id (pos 0) in
    let e : after ≡ Dict.put current k.key_id (old -ℤ pos total) = cc in
    rw e (omega (int_laws, sum_weights-put current k.key_id (old -ℤ pos total)))

total_weight-nil : (config : PoolConfig) → total_weight config [] ≡ 0
unfolding total_weight
total_weight-nil config = refl

-- Where the weights of the keys are whole numbers, a selection leaves the sum of all current weights as
-- it was: what the candidates gain, the chosen key pays.
pub weighted_select_conserves :
    (config : PoolConfig) (current : Dict ℤ) (candidates : List Ref) (r : Ref) (after : Dict ℤ)
    → weighted_select config current candidates ≡ ok (r, weighted_round_robin after)
    → sum_weights after ≡ sum_weights current
unfolding weighted_select
weighted_select_conserves config current [] r after h = ground (arith, total_weight-nil config)
weighted_select_conserves config current (c ∷ cs) r after h =
    elim (Bool-cases (total_weight config (c ∷ cs) == 0)) [
      | inl idle ↦ ap sum_weights (ground arith)
      | inr busy ↦
          let total = total_weight config (c ∷ cs) in
          let raised = raise_weights config current none (c ∷ cs) in
          let paid : pay total (raised.0, raised.1) ≡ ok (r, weighted_round_robin after) =
            ground arith in
          eq_of_parts (sum_weights after) (sum_weights current) (
            omega (
              int_laws,
              pay_lem total raised.0 raised.1 {r = r} {after = after} paid,
              sum_weights-raise_weights config current none (c ∷ cs),
            ))
    ]
