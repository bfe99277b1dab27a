-- ===== src/Tests/Schedulers.antt =====
-- The theorems of the scheduler at concrete inputs.
use pool_gate.Common.{
  ℕ, zero, suc, ◌≡◌, refl, true, false, none, some, List, [], ◌∷◌, arith, inl, ◌⊎◌, ap, sym, ◌∙◌,
  Option, String, str_eq,
}
use pool_gate.Result.{ok}
use pool_gate.Pool.Key.{from_key, ApiKeyState}
use pool_gate.Pool.Strategy.{least_used, health_aware}
use pool_gate.Pool.Scheduler.{RequestScheduler, acquire_key}
use pool_gate.Pool.Scheduler.Gather.{Distinct}
use pool_gate.Pool.Scheduler.Acquire.{Gathered, Refused, Acquired, acquire_key_outcome}
use pool_gate.Pool.Scheduler.Recovery.{acquire_key-Ready}
use pool_gate.Pool.Scheduler.Limits.{
  acquires, releases, fails, disables, switches, IsBounded, run, run-IsBounded,
}
use pool_gate.Tests.Keys.{early, late, key_a, key_b, settings, whole}

abbrev pub two_keys : RequestScheduler
two_keys = record { keys = key_a ∷ key_b ∷ []; config = settings; strategy = least_used }

abbrev id_of : Option ApiKeyState → String
id_of none = ""
id_of (some k) = k.key_id

a_not_b : ◌≡◌ {A = String} "a" "b" → ⊥
a_not_b = λ e. let t : true ≡ false = ap (str_eq "a") e in cc

pub two_keys-Distinct : Distinct two_keys.keys
unfolding from_key
two_keys-Distinct zero zero k l hk hl id = refl
two_keys-Distinct zero (suc zero) k l hk hl id =
    absurd (a_not_b (ap id_of hk ∙ (id ∙ sym (ap id_of hl))))
two_keys-Distinct zero (suc (suc j)) k l hk hl id = cc
two_keys-Distinct (suc zero) zero k l hk hl id =
    absurd (a_not_b (ap id_of hl ∙ (sym id ∙ sym (ap id_of hk))))
two_keys-Distinct (suc zero) (suc zero) k l hk hl id = refl
two_keys-Distinct (suc zero) (suc (suc j)) k l hk hl id = cc
two_keys-Distinct (suc (suc i)) j k l hk hl id = cc

run-IsBounded_example : IsBounded (
    run whole two_keys (
      acquires early none
      ∷ fails early 0 true
      ∷ acquires late (some 3)
      ∷ switches health_aware
      ∷ releases late 0 7 1 2
      ∷ disables 1
      ∷ []))
unfolding from_key
run-IsBounded_example =
    run-IsBounded whole
      (acquires early none
        ∷ fails early 0 true
        ∷ acquires late (some 3)
        ∷ switches health_aware
        ∷ releases late 0 7 1 2
        ∷ disables 1
        ∷ [])
      two_keys (record { distinct = two_keys-Distinct; room = (omega arith, (omega arith, tt)) })

acquire_key_outcome_example :
    (keys : List ApiKeyState) × Gathered keys two_keys.keys late
    × (Refused two_keys keys late (acquire_key whole two_keys late none)
        ⊎ Acquired two_keys keys late (acquire_key whole two_keys late none))
acquire_key_outcome_example = acquire_key_outcome whole two_keys late none two_keys-Distinct

acquire_key-Ready_example : (j : ℕ) × ((acquire_key whole two_keys late none).0 ≡ ok j)
unfolding from_key
acquire_key-Ready_example =
    acquire_key-Ready whole two_keys late none 1 key_b two_keys-Distinct refl
      (record { status = inl refl; cooled = omega arith; room = omega arith })
