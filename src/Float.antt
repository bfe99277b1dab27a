-- ===== src/Float.antt =====
-- Python's floats, where the program computes with them (the health score, the averages): a
-- parameter of the model. `FloatLaws` names what is relied on of the comparison, which holds of
-- IEEE 754 numbers with their infinities and NaN too.
use pool_gate.Common.{ℕ, Bool, true, false, if◌then◌else◌, ◌≡◌}

pub record FloatOps : Type 1 where
  pub F : Type 0
  -- `float(n)`
  pub of_ℕ : ℕ → F
  pub half : F
  pub neg_inf : F
  pub add : F → F → F
  pub sub : F → F → F
  pub mul : F → F → F
  pub div : F → F → F
  -- `a < b`
  pub lt : F → F → Bool
  -- `a <= b`
  pub le : F → F → Bool

pub record FloatLaws (f : FloatOps) : Type 0 where
  pub lt_irrefl : (a : f.F) → f.lt a a ≡ false
  pub lt_trans : (a b c : f.F) → f.lt a b ≡ true → f.lt b c ≡ true → f.lt a c ≡ true

-- `max(0.0, x)`
abbrev pub positive_part : (f : FloatOps) → f.F → f.F
positive_part f x = if f.lt (f.of_ℕ 0) x then x else f.of_ℕ 0
