-- ===== src/Text/Strip.antt =====
-- What stripping keeps.
use pool_gate.Common.{
  ℕ, ◌≤◌, ◌<◌, ◌+◌, ◌≡◌, ap, false, [], ◌∷◌, ◌++◌, arith, length, All, Bool-cases, inl, inr,
}
use pool_gate.Text.{Text, is_space, lstrip, unless_last, rstrip, strip}

-- A text that ends in no space, and is not empty.
pub record IsTight (t : Text) : Type 0 where
  pub kept : rstrip t ≡ t
  pub some_char : 0 < length t

pub IsTight-cons : (c : ℕ) (t : Text) → IsTight t → IsTight (c ∷ t)
unfolding rstrip
IsTight-cons c [] h = absurd (omega (arith, h.some_char))
IsTight-cons c (d ∷ ds) h = record { kept = ap (unless_last c) h.kept; some_char = omega arith }

pub IsTight-append : (s t : Text) → IsTight t → IsTight (s ++ t)
IsTight-append [] t h = h
IsTight-append (c ∷ s) t h = IsTight-cons c (s ++ t) (IsTight-append s t h)

pub strip_tight : (c : ℕ) (t : Text) → is_space c ≡ false → IsTight (c ∷ t) → strip (c ∷ t) ≡ c ∷ t
unfolding strip lstrip
strip_tight c t h tight = rw h tight.kept

module _ {κ} (P : ℕ → Type κ) where
  All-lstrip : (t : Text) → All P t → All P (lstrip t)
  unfolding lstrip
  All-lstrip [] h = tt
  All-lstrip (c ∷ cs) h = elim (Bool-cases (is_space c)) [
    | inl e ↦ rw e (All-lstrip cs h.1)
    | inr e ↦ rw e h
  ]

  All-unless_last : (c : ℕ) (t : Text) → P c → All P t → All P (unless_last c t)
  All-unless_last c (d ∷ ds) p h = (p, h)
  All-unless_last c [] p h = elim (Bool-cases (is_space c)) [
    | inl e ↦ rw e tt
    | inr e ↦ rw e (p, tt)
  ]

  pub All-rstrip : (t : Text) → All P t → All P (rstrip t)
  unfolding rstrip
  All-rstrip [] h = tt
  All-rstrip (c ∷ cs) h = All-unless_last c (rstrip cs) h.0 (All-rstrip cs h.1)

  pub All-strip : (t : Text) → All P t → All P (strip t)
  unfolding strip
  All-strip t h = All-rstrip (lstrip t) (All-lstrip t h)

length-unless_last : (c : ℕ) (t : Text) → length (unless_last c t) ≤ length t + 1
length-unless_last c (d ∷ ds) = omega arith
length-unless_last c [] = elim (Bool-cases (is_space c)) [
  | inl e ↦ rw e (omega arith)
  | inr e ↦ rw e (omega arith)
]

pub length-rstrip : (t : Text) → length (rstrip t) ≤ length t
unfolding rstrip
length-rstrip [] = omega arith
length-rstrip (c ∷ cs) = omega (arith, length-unless_last c (rstrip cs), length-rstrip cs)
