-- ===== src/Mask.antt =====
-- `mask_key` of poolgate/core/logger.py, over the code points of a key.
use mathlib.Core.List.{append_assoc}
use pool_gate.Common.{
  ℕ, zero, suc, ◌-◌, ◌≤◌, ◌<◌, ◌≡◌, refl, ap, sym, ◌∙◌, Bool, true, false, ◌&&◌, ◌||◌, ◌==◌, ltb,
  leb, if◌then◌else◌, List, [], ◌∷◌, ◌++◌, Option, none, some, length, drop, take, All, arith,
  length-append,
}

-- `[A-Za-z0-9]`
unfoldable pub is_alnum : ℕ → Bool
is_alnum c = (leb b'0' c && leb c b'9') || (leb b'A' c && leb c b'Z') || (leb b'a' c && leb c b'z')

-- The longest front of alphanumeric characters, which the pattern's greedy `+` reaches.
unfoldable pub alnum_run : List ℕ → List ℕ
alnum_run [] = []
alnum_run (c ∷ cs) = let rest = alnum_run cs in if is_alnum c then c ∷ rest else []

abbrev pub stars : List ℕ
stars = b'*' ∷ b'*' ∷ b'*' ∷ b'*' ∷ []

abbrev pub gsk : List ℕ
gsk = b'g' ∷ b's' ∷ b'k' ∷ b'_' ∷ []

abbrev pub last_four : List ℕ → List ℕ
last_four cs = drop (length cs - 4) cs

-- What follows `gsk_` at the front of a key.
unfoldable pub after_gsk : List ℕ → Option (List ℕ)
after_gsk (a ∷ b ∷ c ∷ d ∷ cs) =
    if a == b'g' && b == b's' && c == b'k' && d == b'_' then some cs else none
after_gsk _ = none

-- `_KEY_PATTERN.match(key)`: after `gsk_`, four characters, one or more, and the last four.
unfoldable pub masked_match : List ℕ → Option (List ℕ)
unfolding after_gsk alnum_run is_alnum
masked_match key = elim (after_gsk key) [
  | none ↦ none
  | some cs ↦
      let run = alnum_run cs in
      if ltb (length run) 9 then none else some (gsk ++ (take 4 run ++ (stars ++ last_four run)))
]

unfoldable pub mask_key : List ℕ → List ℕ
mask_key key = elim (masked_match key) [
  | some masked ↦ masked
  | none ↦ if ltb 8 (length key) then take 4 key ++ (stars ++ last_four key) else stars
]

alnum_run-All : (cs : List ℕ) → All (λ c. is_alnum c ≡ true) cs → alnum_run cs ≡ cs
unfolding alnum_run
alnum_run-All [] h = refl
alnum_run-All (c ∷ cs) h = rw (h.0, alnum_run-All cs h.1)

take-append : (n : ℕ) (xs ys : List ℕ) → length xs ≡ n → take n (xs ++ ys) ≡ xs
take-append zero [] ys h = refl
take-append zero (x ∷ xs) ys h = absurd (omega arith)
take-append (suc n) [] ys h = absurd (omega arith)
take-append (suc n) (x ∷ xs) ys h = ap (◌∷◌ x) (take-append n xs ys (omega arith))

drop-append : (xs ys : List ℕ) → drop (length xs) (xs ++ ys) ≡ ys
drop-append [] ys = refl
drop-append (x ∷ xs) ys = drop-append xs ys

last_four-append : (xs ys : List ℕ) → length ys ≡ 4 → last_four (xs ++ ys) ≡ ys
last_four-append xs ys h =
    let e : length (xs ++ ys) - 4 ≡ length xs = omega (arith, length-append xs ys) in
    rw e (drop-append xs ys)

masked_match-gsk :
    (front middle back : List ℕ)
    → length front ≡ 4
    → 0 < length middle
    → length back ≡ 4
    → All (λ c. is_alnum c ≡ true) (front ++ (middle ++ back))
    → masked_match (gsk ++ (front ++ (middle ++ back))) ≡ some (gsk ++ (front ++ (stars ++ back)))
unfolding masked_match
masked_match-gsk front middle back f m b h =
    let cs = front ++ (middle ++ back) in
    let last : last_four cs ≡ back =
      ap last_four (sym (append_assoc front middle back))
      ∙ last_four-append (front ++ middle) back b in
    let long : ltb (length cs) 9 ≡ false =
      not-ltb (length cs) 9
        (omega (arith, length-append front (middle ++ back), length-append middle back)) in
    rw (alnum_run-All cs h, long, last, take-append 4 front (middle ++ back) f) refl
  where
    not-ltb : (a c : ℕ) → c ≤ a → ltb a c ≡ false
    not-ltb a c h = ground arith

-- Of a key in the provider's form the mask shows `gsk_`, the four characters behind it and the
-- last four, whatever stands between them, and nothing of that.
pub mask_key_hides :
    (front middle back : List ℕ)
    → length front ≡ 4
    → 0 < length middle
    → length back ≡ 4
    → All (λ c. is_alnum c ≡ true) (front ++ (middle ++ back))
    → mask_key (gsk ++ (front ++ (middle ++ back))) ≡ gsk ++ (front ++ (stars ++ back))
unfolding mask_key
mask_key_hides front middle back f m b h = rw (masked_match-gsk front middle back f m b h, mask_key)
