-- ===== src/Provider/Messages/Errors.antt =====
-- What reaches the model of a parse error.
use pool_gate.Common.{
  ℕ, zero, suc, ◌+◌, ◌≤◌, ◌≢◌, ltb, [], ◌∷◌, ◌++◌, map, take, length, All, arith, Bool-cases, inl,
  inr, length-append,
}
use pool_gate.Text.{Text, rstrip, strip}
use pool_gate.Text.Strip.{All-strip, All-rstrip, length-rstrip}
use pool_gate.Provider.Messages.{unbroken, ellipsis, sanitize_parse_error}

abbrev pub IsUnbroken : ℕ → Type 0
IsUnbroken c = (c ≢ 10) × (c ≢ 13)

map-unbroken : (t : Text) → All IsUnbroken (map unbroken t)
map-unbroken [] = tt
map-unbroken (c ∷ t) = ((λ e. ground (arith, e), λ e. ground (arith, e)), map-unbroken t)

All-take : (n : ℕ) (t : Text) → All IsUnbroken t → All IsUnbroken (take n t)
All-take zero t h = tt
All-take (suc n) [] h = tt
All-take (suc n) (c ∷ t) h = (h.0, All-take n t h.1)

All-snoc : (t : Text) (c : ℕ) → All IsUnbroken t → IsUnbroken c → All IsUnbroken (t ++ c ∷ [])
All-snoc [] c h p = (p, tt)
All-snoc (d ∷ t) c h p = (h.0, All-snoc t c h.1 p)

length-take : (n : ℕ) (t : Text) → length (take n t) ≤ n
length-take zero t = omega arith
length-take (suc n) [] = omega arith
length-take (suc n) (c ∷ t) = omega (arith, length-take n t)

-- Whatever the text of the exception is, what is sent back to the model of a parse error has no line feed
-- and no carriage return, and is at most one character longer than `max_len`. Other characters that
-- `str.splitlines` breaks at may stay.
pub sanitize_parse_error_safe :
    (exc : Text) (max_len : ℕ)
    → All IsUnbroken (sanitize_parse_error exc max_len)
      × (length (sanitize_parse_error exc max_len) ≤ max_len + 1)
unfolding sanitize_parse_error
sanitize_parse_error_safe exc max_len =
    let message = strip (map unbroken exc) in
    let one_line : All IsUnbroken message =
      All-strip IsUnbroken (map unbroken exc) (map-unbroken exc) in
    let front = rstrip (take max_len message) in
    elim (Bool-cases (ltb max_len (length message))) [
      | inl e ↦ rw e (
        All-snoc front ellipsis
            (All-rstrip IsUnbroken (take max_len message) (All-take max_len message one_line))
            ((λ h. omega arith), (λ h. omega arith)),
        omega (
          arith,
          length-append {0} front (ellipsis ∷ []),
          length-rstrip (take max_len message),
          length-take max_len message,
        ),
      )
      | inr e ↦ rw e (one_line, ground (arith, e))
    ]
