-- ===== src/Pool/Strategy/RoundRobin.antt =====
-- The rotation passes over no candidate.
use native.Mathlib.Decide.{dec_lt}
use pool_gate.Common.{
  ℕ, zero, suc, ◌+◌, ◌%◌, ◌≤◌, ◌<◌, ◌≡◌, refl, sym, subst, ap, ◌∙◌, ◌⊎◌, true, false, Option, none,
  some, List, arith, length, get_elem?, Bool-cases, inl, inr,
}
use pool_gate.Pool.Strategy.{Ref, is_candidate, rotate}

-- No candidate stands at this place of the list.
abbrev pub Passed : List Ref → Option Ref → Type 0
Passed candidates none = Unit
Passed candidates (some (i, k)) = is_candidate candidates k.key_id ≡ false

some_pair :
    (r s : Ref) (m n : ℕ)
    → ◌≡◌ {A = Option (Ref × ℕ)} (some (r, m)) (some (s, n))
    → (r ≡ s) × (m ≡ n)
some_pair r s m n e = (cc, cc)

found_or_Passed :
    (candidates : List Ref) (o : Option Ref)
    → ((r : Ref) × (o ≡ some r) × (is_candidate candidates r.1.key_id ≡ true)) ⊎ Passed candidates o
found_or_Passed candidates none = inr tt
found_or_Passed candidates (some (i, k)) = elim (Bool-cases (is_candidate candidates k.key_id)) [
  | inl e ↦ inl ((i, k), refl, e)
  | inr e ↦ inr e
]

module _ (candidates all_keys : List Ref) (next_index : ℕ) where
  -- The place that the loop looks at in the round with this offset.
  abbrev pub place : ℕ → ℕ
  place offset = (next_index + offset) % length all_keys

  rotate_hit :
      (left offset : ℕ) (r : Ref)
      → get_elem? all_keys (place offset) ≡ some r
      → is_candidate candidates r.1.key_id ≡ true
      → rotate candidates all_keys next_index (suc left) offset
        ≡ some (r, (place offset + 1) % length all_keys)
  unfolding rotate
  rotate_hit left offset r e c = rw (e, rotate) (rw c)

  rotate_pass :
      (left offset : ℕ)
      → Passed candidates (get_elem? all_keys (place offset))
      → rotate candidates all_keys next_index (suc left) offset
        ≡ rotate candidates all_keys next_index left (offset + 1)
  unfolding rotate
  rotate_pass left offset p = ground arith

  -- The key that the loop finds stands at the first place, counted on from the pointer and round the
  -- list, that holds a candidate: no candidate before it is passed over. The pointer then stands
  -- right behind that key.
  pub rotate_first :
      (left offset : ℕ) (r : Ref) (next : ℕ)
      → rotate candidates all_keys next_index left offset ≡ some (r, next)
      → (j : ℕ) × (offset ≤ j)
        × (j < offset + left)
        × (get_elem? all_keys (place j) ≡ some r)
        × (is_candidate candidates r.1.key_id ≡ true)
        × (next ≡ (place j + 1) % length all_keys)
        × ((i : ℕ) → offset ≤ i → i < j → Passed candidates (get_elem? all_keys (place i)))
  rotate_first zero offset r next h = unfold rotate in cc
  rotate_first (suc left) offset r next h =
      elim (found_or_Passed candidates (get_elem? all_keys (place offset))) [
        | inl (r', e, c) ↦
            let (same, after) = some_pair r' r _ next (sym (rotate_hit left offset r' e c) ∙ h) in
            (
              offset,
              omega arith,
              omega arith,
              e ∙ ap some same,
              subst (λ (q : Ref). is_candidate candidates q.1.key_id ≡ true) same c,
              sym after,
              λ i a b. absurd (omega arith),
            )
        | inr p ↦
            let (j, from, to, at, id, after, passed) =
              rotate_first left (offset + 1) r next (sym (rotate_pass left offset p) ∙ h) in
            (
              j,
              omega arith,
              omega arith,
              at,
              id,
              after,
              λ i a b. elim (dec_lt offset i) [
                | yes later ↦ passed i (omega arith) b
                | no here ↦
                    let e : offset ≡ i = omega arith in
                    subst (λ x. Passed candidates (get_elem? all_keys (place x))) e p
              ],
            )
      ]
