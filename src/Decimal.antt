-- ===== src/Decimal.antt =====
-- The decimal digits that an f-string writes for a natural number, and that different numbers have
-- different digits.
use Prim.Native.Char.{Char, code}
use native.Mathlib.Decide.{dec_lt}
use pool_gate.Common.{
  ℕ, zero, suc, ◌+◌, ◌-◌, ◌*◌, ◌/◌, ◌%◌, ◌<◌, ◌≡◌, refl, sym, ap, ◌∙◌, String, ◌==◌, ltb,
  if◌then◌else◌, arith, lt→ltb, false, ◌≤◌,
}

digit : ℕ → Char
digit d =
    if d == 0
    then "0"
    else if d == 1
    then "1"
    else if d == 2
    then "2"
    else if d == 3
    then "3"
    else if d == 4
    then "4"
    else if d == 5
    then "5"
    else if d == 6
    then "6"
    else if d == 7
    then "7"
    else if d == 8
    then "8"
    else "9"

-- The digits of `n` in front of `rest`; one unit of fuel for each digit.
digits : ℕ → ℕ → String → String
unfolding digit
digits zero n rest = rest
digits (suc fuel) n rest =
    let front = String.◌∷◌ (digit (n % 10)) rest in
    let more = digits fuel (n / 10) front in if ltb n 10 then front else more

unfoldable pub decimal : ℕ → String
unfolding digits
decimal n = digits (suc n) n ""

value : ℕ → String → ℕ
value acc String.[] = acc
value acc (String.◌∷◌ c s) = value (acc * 10 + (code c - 48)) s

code-digit : (d : ℕ) → d < 10 → code (digit d) - 48 ≡ d
unfolding digit
code-digit zero h = refl
code-digit (suc zero) h = refl
code-digit (suc (suc zero)) h = refl
code-digit (suc (suc (suc zero))) h = refl
code-digit (suc (suc (suc (suc zero)))) h = refl
code-digit (suc (suc (suc (suc (suc zero))))) h = refl
code-digit (suc (suc (suc (suc (suc (suc zero)))))) h = refl
code-digit (suc (suc (suc (suc (suc (suc (suc zero))))))) h = refl
code-digit (suc (suc (suc (suc (suc (suc (suc (suc zero)))))))) h = refl
code-digit (suc (suc (suc (suc (suc (suc (suc (suc (suc zero))))))))) h = refl
code-digit (suc (suc (suc (suc (suc (suc (suc (suc (suc (suc n)))))))))) h = absurd (omega arith)

-- More fuel than the number writes all its digits.
value-digits : (fuel n : ℕ) (rest : String) → n < fuel → value 0 (digits fuel n rest) ≡ value n rest
unfolding value digits
value-digits zero n rest h = absurd (omega arith)
value-digits (suc fuel) n rest h = elim (dec_lt n 10) [
  | yes small ↦
      rw (lt→ltb n 10 small)
        (ap (λ d. value d rest) (omega (arith, code-digit (n % 10) (omega arith))))
  | no large ↦ rw (ge→ltb n 10 (omega arith)) (
      value-digits fuel (n / 10) (String.◌∷◌ (digit (n % 10)) rest) (omega arith)
      ∙ ap (λ d. value d rest) (omega (arith, code-digit (n % 10) (omega arith))))
]
  where
    ge→ltb : (a b : ℕ) → b ≤ a → ltb a b ≡ false
    ge→ltb a b h = ground arith

pub decimal-injective : (m n : ℕ) → decimal m ≡ decimal n → m ≡ n
unfolding decimal value
decimal-injective m n e =
    sym (value-digits (suc m) m "" (omega arith))
    ∙ ap (value 0) e
    ∙ value-digits (suc n) n "" (omega arith)
