-- ===== src/Dict/Sums.antt =====
-- A sum over the values of a `dict`, after a write.
use pool_gate.Common.{ℕ, ◌+◌, ◌≡◌, String, [], ◌∷◌, arith, sum_of, str_eq, Bool-cases, inl, inr}
use pool_gate.Dict.{Dict, get_or, put}

-- What a write adds to the sum, it adds to the value, where a missing key counts for nothing.
pub sum_of-put :
    {V : Type 0} (f : V → ℕ) (d : Dict V) (k : String) (v default : V)
    → f default ≡ 0
    → sum_of (λ e. f e.1) (put d k v) + f (get_or d k default) ≡ sum_of (λ e. f e.1) d + f v
unfolding put get_or
sum_of-put f [] k v default h = omega arith
sum_of-put f ((j, w) ∷ d) k v default h = elim (Bool-cases (str_eq j k)) [
  | inl e ↦ rw (e, put, get_or) (omega arith)
  | inr e ↦ rw (e, put, get_or) (omega (arith, sum_of-put f d k v default h))
]
