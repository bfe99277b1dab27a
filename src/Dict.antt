-- ===== src/Dict.antt =====
-- Python's `dict` with string keys, in insertion order: a write to a key that is there keeps its
-- place, and a new key goes to the end.
pub mod Laws
pub mod Sums
use pool_gate.Common.{
  String, Option, none, some, List, [], ◌∷◌, map, Bool, true, false, if◌then◌else◌, str_eq,
}

abbrev pub Dict {ℓ} : Type ℓ → Type ℓ
Dict V = List (String × V)

module _ {ℓ} {V : Type ℓ} where
  -- `d.get(k)`
  unfoldable pub get : Dict V → String → Option V
  get [] k = none
  get ((j, v) ∷ d) k = if str_eq j k then some v else get d k

  -- `d.get(k, default)`
  unfoldable pub get_or : Dict V → String → V → V
  get_or [] k default = default
  get_or ((j, v) ∷ d) k default = if str_eq j k then v else get_or d k default

  -- `k in d`
  unfoldable pub has : Dict V → String → Bool
  has [] k = false
  has ((j, v) ∷ d) k = if str_eq j k then true else has d k

  -- `d[k] = v`
  unfoldable pub put : Dict V → String → V → Dict V
  put [] k v = (k, v) ∷ []
  put ((j, w) ∷ d) k v = if str_eq j k then (j, v) ∷ d else (j, w) ∷ put d k v

  -- `del d[k]`, `d.pop(k, None)`
  unfoldable pub remove : Dict V → String → Dict V
  remove [] k = []
  remove ((j, w) ∷ d) k = if str_eq j k then d else (j, w) ∷ remove d k

  abbrev pub keys : Dict V → List String
  keys = map (λ e. e.0)

  abbrev pub values : Dict V → List V
  values = map (λ e. e.1)

-- The same keys with other values.
unfoldable pub map_values {ℓ ℓ'} : {V : Type ℓ} {W : Type ℓ'} → (V → W) → Dict V → Dict W
map_values f [] = []
map_values f ((k, v) ∷ d) = (k, f v) ∷ map_values f d
