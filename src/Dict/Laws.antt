-- ===== src/Dict/Laws.antt =====
-- The laws of `Dict`: reads after writes, and that a key stands in it once.
use pool_gate.Common.{
  String, none, some, [], ◌∷◌, true, false, if◌then◌else◌, str_eq, ◌≡◌, refl, ◌≢◌, arith, eq_iff,
  length, ◌+◌, All, Bool-cases, inl, inr, ap, sym, ◌∙◌,
}
use mathlib.Core.Option
use pool_gate.Dict.{Dict, get, get_or, has, put, remove, map_values}

-- No key stands twice.
abbrev pub IsDict {ℓ} : {V : Type ℓ} → Dict V → Type 0
IsDict [] = Unit {0}
IsDict ((k, v) ∷ d) = (has d k ≡ false) × IsDict d

module _ {ℓ} {V : Type ℓ} where
  pub get-put :
      (d : Dict V) (k j : String) (v : V)
      → get (put d k v) j ≡ (if str_eq k j then some v else get d j)
  unfolding get put
  get-put [] k j v = refl
  get-put ((i, w) ∷ d) k j v = ground (arith, eq_iff k j, eq_iff i k, eq_iff i j, get-put d k j v)

  pub get_or-get :
      (d : Dict V) (k : String) (v : V) → get_or d k v ≡ elim (get d k) [ none ↦ v | some w ↦ w ]
  unfolding get get_or
  get_or-get [] k v = refl
  get_or-get ((i, w) ∷ d) k v = ground (arith, get_or-get d k v)

  pub get_or-put :
      (d : Dict V) (k j : String) (v w : V)
      → get_or (put d k v) j w ≡ (if str_eq k j then v else get_or d j w)
  unfolding get_or put
  get_or-put [] k j v w = refl
  get_or-put ((i, u) ∷ d) k j v w =
      ground (arith, eq_iff k j, eq_iff i k, eq_iff i j, get_or-put d k j v w)

  pub has-put :
      (d : Dict V) (k j : String) (v : V)
      → has (put d k v) j ≡ (if str_eq k j then true else has d j)
  unfolding has put
  has-put [] k j v = refl
  has-put ((i, w) ∷ d) k j v = ground (arith, eq_iff k j, eq_iff i k, eq_iff i j, has-put d k j v)

  pub has-eq-false_iff_get : (d : Dict V) (k : String) → has d k ≡ false → get d k ≡ none
  unfolding has get
  has-eq-false_iff_get [] k h = refl
  has-eq-false_iff_get ((i, w) ∷ d) k h = ground (arith, has-eq-false_iff_get d k)

  pub has_of_get-none : (d : Dict V) (k : String) → get d k ≡ none → has d k ≡ false
  unfolding has get
  has_of_get-none [] k h = refl
  has_of_get-none ((i, w) ∷ d) k h = ground (arith, has_of_get-none d k)

  pub put-IsDict : (d : Dict V) (k : String) (v : V) → IsDict d → IsDict (put d k v)
  unfolding put has
  put-IsDict [] k v h = (refl, tt)
  put-IsDict ((i, w) ∷ d) k v h =
      ground (arith, has-put d k i v, eq_iff i k, eq_iff k i, put-IsDict d k v h.1)

  pub has-remove-false : (d : Dict V) (k j : String) → has d j ≡ false → has (remove d k) j ≡ false
  unfolding has remove
  has-remove-false [] k j h = refl
  has-remove-false ((i, w) ∷ d) k j h = ground (arith, has-remove-false d k j)

  pub remove-IsDict : (d : Dict V) (k : String) → IsDict d → IsDict (remove d k)
  unfolding remove
  remove-IsDict [] k h = tt
  remove-IsDict ((i, w) ∷ d) k h = ground (arith, has-remove-false d k i h.0, remove-IsDict d k h.1)

  pub get-remove :
      (d : Dict V) (k j : String)
      → IsDict d
      → get (remove d k) j ≡ (if str_eq k j then none else get d j)
  unfolding get remove
  get-remove [] k j h = ground arith
  get-remove ((i, w) ∷ d) k j h = ground (
    arith,
    eq_iff k j,
    eq_iff i k,
    eq_iff i j,
    get-remove d k j h.1,
    has-eq-false_iff_get d i h.0,
  )

  pub length-remove :
      (d : Dict V) (k : String) → has d k ≡ true → length (remove d k) + 1 ≡ length d
  unfolding has remove
  length-remove [] k h = cc
  length-remove ((i, w) ∷ d) k h = ground (arith, length-remove d k)

  pub has-remove_ne : (d : Dict V) (k j : String) → k ≢ j → has (remove d k) j ≡ has d j
  unfolding has remove
  has-remove_ne [] k j h = refl
  has-remove_ne ((i, w) ∷ d) k j h =
      ground (arith, eq_iff i k, eq_iff i j, eq_iff k j, has-remove_ne d k j h)

pub get_or_absent :
    {V : Type 0} (row : Dict V) (k j : String) (v : V)
    → has row k ≡ false
    → str_eq k j ≡ true
    → get_or row j v ≡ v
get_or_absent row k j v h e =
    let same : k ≡ j = ground (arith, eq_iff k j) in
    ap (λ (i : String). get_or row i v) (sym same)
    ∙ get_or-get row k v
    ∙ rw (has-eq-false_iff_get row k h) refl

pub All-put :
    {V : Type 0} (P : String × V → Type 0) (d : Dict V) (k : String) (v : V)
    → All P d
    → ((j : String) → P (j, v))
    → All P (put d k v)
unfolding put
All-put P [] k v h p = (p k, tt)
All-put P ((j, w) ∷ d) k v h p = elim (Bool-cases (str_eq j k)) [
  | inl e ↦ rw (e, put) (p j, h.1)
  | inr e ↦ rw (e, put) (h.0, All-put P d k v h.1 p)
]

pub All-get_or :
    {V : Type 0} (P : String × V → Type 0) (d : Dict V) (k : String) (v : V)
    → All P d
    → P (k, v)
    → ((i j : String) (w : V) → P (i, w) → P (j, w))
    → P (k, get_or d k v)
unfolding get_or
All-get_or P [] k v h p any = p
All-get_or P ((j, w) ∷ d) k v h p any = elim (Bool-cases (str_eq j k)) [
  | inl e ↦ rw (e, get_or) (any j k w h.0)
  | inr e ↦ rw (e, get_or) (All-get_or P d k v h.1 p any)
]

pub get-map_values :
    {V W : Type 0} (f : V → W) (d : Dict V) (k : String)
    → get (map_values f d) k ≡ Option.map f (get d k)
unfolding get map_values
get-map_values f [] k = refl
get-map_values f ((j, v) ∷ d) k = elim (Bool-cases (str_eq j k)) [
  | inl e ↦ rw e refl
  | inr e ↦ rw e (get-map_values f d k)
]

has-map_values :
    {V W : Type 0} (f : V → W) (d : Dict V) (k : String) → has (map_values f d) k ≡ has d k
unfolding has map_values
has-map_values f [] k = refl
has-map_values f ((j, v) ∷ d) k = ap (λ b. if str_eq j k then true else b) (has-map_values f d k)

pub map_values-IsDict : {V W : Type 0} (f : V → W) (d : Dict V) → IsDict d → IsDict (map_values f d)
unfolding map_values
map_values-IsDict f [] u = tt
map_values-IsDict f ((k, v) ∷ d) u = (has-map_values f d k ∙ u.0, map_values-IsDict f d u.1)
