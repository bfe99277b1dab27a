-- ===== src/Pick.antt =====
-- Python's `max(xs, key=f)` and `min(xs, key=f)` of a list that is not empty: one pass that keeps
-- the first of the best.
use pool_gate.Common.{
  Bool, true, false, if◌then◌else◌, List, [], ◌∷◌, All, ◌≡◌, sym, subst, arith, Bool-cases, inl,
  inr, Elem, here, there,
}

module _ {ℓ} {A : Type ℓ} (better : A → A → Bool) where
  -- The pass over what is left, with the best so far.
  unfoldable pub pick : A → List A → A
  pick best [] = best
  pick best (x ∷ xs) = pick (if better x best then x else best) xs

  pub pick-Elem : (best : A) (xs : List A) → Elem (pick best xs) (best ∷ xs)
  unfolding pick
  pick-Elem best [] = here []
  pick-Elem best (x ∷ xs) = elim (Bool-cases (better x best)) [
    | inl e ↦ rw (e, pick) (there best (pick-Elem x xs))
    | inr e ↦ rw (e, pick) (skip (pick-Elem best xs))
  ]
    where
      skip : {p : A} → Elem p (best ∷ xs) → Elem p (best ∷ x ∷ xs)
      skip (here _) = here (x ∷ xs)
      skip (there _ h) = there best (there x h)

  -- What nothing better than `best` was found for, nothing better than the pick is found for.
  pick_unbeaten :
      ((x y z : A) → better x y ≡ true → better y z ≡ true → better x z ≡ true)
      → (y best : A) (xs : List A) → better y best ≡ false
      → better y (pick best xs) ≡ false
  unfolding pick
  pick_unbeaten trans y best [] h = h
  pick_unbeaten trans y best (x ∷ xs) h = elim (Bool-cases (better x best)) [
    | inl e ↦ rw (e, pick) (pick_unbeaten trans y x xs (ground (arith, trans y x best)))
    | inr e ↦ rw (e, pick) (pick_unbeaten trans y best xs h)
  ]

  pick_switch : (best x : A) (xs : List A) → better x best ≡ true → pick best (x ∷ xs) ≡ pick x xs
  unfolding pick
  pick_switch best x xs e = rw e

  pick_stay : (best x : A) (xs : List A) → better x best ≡ false → pick best (x ∷ xs) ≡ pick best xs
  unfolding pick
  pick_stay best x xs e = rw e

  -- No element is better than the one picked.
  pub pick-best :
      ((x : A) → better x x ≡ false)
      → ((x y z : A) → better x y ≡ true → better y z ≡ true → better x z ≡ true)
      → (best : A) (xs : List A) → All (λ y. better y (pick best xs) ≡ false) (best ∷ xs)
  unfolding pick
  pick-best irrefl trans best [] = (irrefl best, tt)
  pick-best irrefl trans best (x ∷ xs) = elim (Bool-cases (better x best)) [
    | inl e ↦
        subst (λ p. All (λ y. better y p ≡ false) (best ∷ x ∷ xs)) (sym (pick_switch best x xs e))
          (
            pick_unbeaten trans best x xs
                (ground (arith, trans best x best, trans x best x, irrefl best, irrefl x)),
            pick-best irrefl trans x xs,
          )
    | inr e ↦
        let rest = pick-best irrefl trans best xs in
        subst (λ p. All (λ y. better y p ≡ false) (best ∷ x ∷ xs)) (sym (pick_stay best x xs e))
          (rest.0, (pick_unbeaten trans x best xs e, rest.1))
  ]
