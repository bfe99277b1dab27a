-- ===== src/Pool/Strategy/Best.antt =====
-- A strategy that compares keys chooses one that no candidate beats.
use pool_gate.Common.{ℕ, refl, ◌≡◌, subst, Bool, true, false, List, [], ◌∷◌, arith, All}
use pool_gate.Result.{Result, ok, err, ◌>>=◌}
use pool_gate.Dict.{Dict}
use pool_gate.Float.{FloatOps, FloatLaws}
use pool_gate.Pick.{pick, pick-best}
use pool_gate.Pool.Key.{Clock}
use pool_gate.Pool.Strategy.{
  Ref, PoolConfig, Strategy, health_aware, round_robin, least_used, weighted_round_robin,
  least_remaining_capacity, priority_failover, best_of, select, with_strategy, healthier, less_used,
  more_capacity, prior, positions, earlier, priority_of, priorities, first_by_priority,
}

best_of_unbeaten :
    (better : Ref → Ref → Bool)
    → ((x : Ref) → better x x ≡ false)
    → ((x y z : Ref) → better x y ≡ true → better y z ≡ true → better x z ≡ true)
    → (s s' : Strategy) (cs : List Ref) (r : Ref) → with_strategy s (best_of better cs) ≡ ok (r, s')
    → All (λ y. better y r ≡ false) cs
unfolding best_of
best_of_unbeaten better irrefl trans s s' [] r h = cc
best_of_unbeaten better irrefl trans s s' (c ∷ cs) r h =
    let e : pick better c cs ≡ r = cc in
    subst (λ p. All (λ y. better y p ≡ false) (c ∷ cs)) e (pick-best better irrefl trans c cs)

module _ (f : FloatOps) (laws : FloatLaws f) (now : Clock) (config : PoolConfig) where
  healthier_irrefl : (x : Ref) → healthier f now config x x ≡ false
  unfolding healthier
  healthier_irrefl x = laws.lt_irrefl _

  healthier_trans :
      (x y z : Ref)
      → healthier f now config x y ≡ true
      → healthier f now config y z ≡ true
      → healthier f now config x z ≡ true
  unfolding healthier
  healthier_trans x y z h k = laws.lt_trans _ _ _ k h

less_used_trans :
    (now : Clock) (x y z : Ref)
    → less_used now x y ≡ true
    → less_used now y z ≡ true
    → less_used now x z ≡ true
unfolding less_used
less_used_trans now x y z h k = ground arith

more_capacity_trans :
    (now : Clock) (config : PoolConfig) (x y z : Ref)
    → more_capacity now config x y ≡ true
    → more_capacity now config y z ≡ true
    → more_capacity now config x z ≡ true
unfolding more_capacity
more_capacity_trans now config x y z h k = ground arith

earlier_irrefl : (p : Result ℕ) → earlier p p ≡ false
earlier_irrefl (ok m) = ground arith
earlier_irrefl (err e) = refl

earlier_trans : (p q r : Result ℕ) → earlier p q ≡ true → earlier q r ≡ true → earlier p r ≡ true
earlier_trans (ok l) (ok m) (ok n) h k = ground arith
earlier_trans (ok l) (ok m) (err e) h k = cc
earlier_trans (ok l) (err e) r h k = cc
earlier_trans (err e) q r h k = cc

first_by_priority_unbeaten :
    (position : Dict ℕ) (s s' : Strategy) (cs : List Ref) (r : Ref)
    → with_strategy s (first_by_priority position cs) ≡ ok (r, s')
    → All (λ y. prior position y r ≡ false) cs
unfolding first_by_priority prior
first_by_priority_unbeaten position s s' cs r h =
    best_of_unbeaten (prior position) (λ x. earlier_irrefl (priority_of position x.1))
      (λ x y z.
        earlier_trans (priority_of position x.1) (priority_of position y.1)
          (priority_of position z.1))
      s s' cs r (best (priorities position cs) h)
  where
    best :
        (known : Result (Unit {0}))
        → with_strategy s (known >>= λ _. best_of (prior position) cs) ≡ ok (r, s')
        → with_strategy s (best_of (prior position) cs) ≡ ok (r, s')
    best (ok _) e = e
    best (err _) e = cc

-- What the choice means, by the strategy: no candidate has a higher health score; no candidate has
-- fewer requests in the last minute, or as many and fewer open ones; none has more requests left in
-- the minute; none stands before it by priority or place.
abbrev pub Unbeaten :
    (f : FloatOps) → Clock → PoolConfig → List Ref → Strategy → List Ref → Ref → Type 0
Unbeaten f now config all health_aware cs r = All (λ y. healthier f now config y r ≡ false) cs
Unbeaten f now config all (round_robin next) cs r = Unit
Unbeaten f now config all least_used cs r = All (λ y. less_used now y r ≡ false) cs
Unbeaten f now config all (weighted_round_robin current) cs r = Unit
Unbeaten f now config all least_remaining_capacity cs r =
    All (λ y. more_capacity now config y r ≡ false) cs
Unbeaten f now config all priority_failover cs r =
    All (λ y. prior (positions all []) y r ≡ false) cs

-- A strategy that compares keys chooses one that no candidate beats in its order.
pub select-Unbeaten :
    (f : FloatOps)
    → FloatLaws f
    → (now : Clock) (config : PoolConfig) (s s' : Strategy) (cs all : List Ref) (r : Ref)
    → select f now config s cs all ≡ ok (r, s')
    → Unbeaten f now config all s cs r
unfolding select
select-Unbeaten f laws now config health_aware s' cs all r h =
    best_of_unbeaten (healthier f now config) (healthier_irrefl f laws now config)
      (healthier_trans f laws now config) health_aware s' cs r h
select-Unbeaten f laws now config (round_robin next) s' cs all r h = tt
select-Unbeaten f laws now config least_used s' cs all r h =
    best_of_unbeaten (less_used now) (λ x. unfold less_used in ground arith) (less_used_trans now)
      least_used s' cs r h
select-Unbeaten f laws now config (weighted_round_robin current) s' cs all r h = tt
select-Unbeaten f laws now config least_remaining_capacity s' cs all r h =
    best_of_unbeaten (more_capacity now config) (λ x. unfold more_capacity in ground arith)
      (more_capacity_trans now config) least_remaining_capacity s' cs r h
select-Unbeaten f laws now config priority_failover s' cs all r h =
    first_by_priority_unbeaten (positions all []) priority_failover s' cs r h
