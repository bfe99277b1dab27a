-- ===== src/Models/Agree.antt =====
-- The table of limits against the table of capabilities.
use pool_gate.Common.{
  ◌≡◌, refl, sym, subst, String, Bool, true, false, [], ◌∷◌, inl, inr, All, Bool-cases, arith,
  str_eq, eq_iff,
}
use pool_gate.Dict.{Dict, has}
use pool_gate.Registry.{model_capabilities}
use pool_gate.Models.Table.{model_registry}

-- The keys of a table that stand in another are found there.
has_of_keys {ℓ κ} :
    {A : Type ℓ} {B : Type κ} (d : Dict A) (d' : Dict B) (k : String)
    → All (λ e. has d' e.0 ≡ true) d
    → has d k ≡ true
    → has d' k ≡ true
unfolding has
has_of_keys [] d' k h e = cc
has_of_keys ((j, v) ∷ d) d' k h e = elim (Bool-cases (str_eq j k)) [
  | inl same ↦ subst (λ (i : String). has d' i ≡ true) (ground (arith, eq_iff j k)) h.0
  | inr other ↦ has_of_keys d d' k h.1 (rw other at e)
]

same_truth : (a b : Bool) → (a ≡ true → b ≡ true) → (b ≡ true → a ≡ true) → a ≡ b
same_truth true b f g = sym (f refl)
same_truth false true f g = g refl
same_truth false false f g = refl

limits_have_capabilities : All (λ e. has model_capabilities e.0 ≡ true) model_registry
unfolding has model_registry model_capabilities
limits_have_capabilities = (
  refl,
  (
    refl,
    (
      refl,
      (
        refl,
        (
          refl,
          (
            refl,
            (
              refl,
              (refl, (refl, (refl, (refl, (refl, (refl, (refl, (refl, (refl, (refl, tt)))))))))),
            ),
          ),
        ),
      ),
    ),
  ),
)

capabilities_have_limits : All (λ e. has model_registry e.0 ≡ true) model_capabilities
unfolding has model_registry model_capabilities
capabilities_have_limits = (
  refl,
  (
    refl,
    (
      refl,
      (
        refl,
        (
          refl,
          (
            refl,
            (
              refl,
              (refl, (refl, (refl, (refl, (refl, (refl, (refl, (refl, (refl, (refl, tt)))))))))),
            ),
          ),
        ),
      ),
    ),
  ),
)

-- The table of limits and the table of capabilities know the same models.
pub has-model_registry : (model : String) → has model_registry model ≡ has model_capabilities model
has-model_registry model =
    same_truth (has model_registry model) (has model_capabilities model)
      (has_of_keys model_registry model_capabilities model limits_have_capabilities)
      (has_of_keys model_capabilities model_registry model capabilities_have_limits)
