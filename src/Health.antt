-- ===== src/Health.antt =====
-- `HealthService.snapshot` of poolgate/services/health.py: the health of the service from the
-- statuses of its keys, each as `get("status")` gives it. The version, the uptime and the payload of
-- details are passed on as they are and left out.
use pool_gate.Common.{
  ℕ, suc, ◌+◌, ◌≤◌, ◌≡◌, ◌≢◌, refl, sym, ap, subst, String, Bool, true, false, not, ◌||◌, Option,
  none, some, List, [], ◌∷◌, arith, str_eq, eq_iff, ltb, ◌==◌, if◌then◌else◌, keep_if, length, All,
  Bool-cases, inl, inr,
}

pub data Status : Type 0 where
  healthy degraded unhealthy : Status

pub record HealthStatus : Type 0 where
  pub status : Status
  pub active_keys : ℕ
  pub disabled_keys : ℕ

-- `key.get("status") == name`
unfoldable pub has_status : String → Option String → Bool
has_status name none = false
has_status name (some status) = str_eq status name

unfoldable pub count_status : String → List (Option String) → ℕ
count_status name keys = length (keep_if (has_status name) keys)

abbrev one : Bool → ℕ
one true = 1
one false = 0

-- The chain of tests on the counts.
unfoldable pub status_of : ℕ → ℕ → ℕ → ℕ → Status
status_of total_keys active_keys disabled_keys failed_keys =
    if total_keys == 0 || active_keys == 0
    then unhealthy
    else if not (disabled_keys == 0) || not (failed_keys == 0) || ltb active_keys total_keys
    then degraded
    else healthy

unfoldable pub snapshot : List (Option String) → HealthStatus
snapshot key_status =
    let active_keys = count_status "active" key_status in
    let disabled_keys = count_status "disabled" key_status in
    record {
      status =
          status_of (length key_status) active_keys disabled_keys
            (count_status "failed" key_status);
      active_keys = active_keys;
      disabled_keys = disabled_keys;
    }

-- What each health says of the keys.
abbrev pub Says : Status → List (Option String) → Type 0
Says healthy keys =
    All (λ key. key ≡ some "active") keys × (¬ All (λ key. key ≢ some "active") keys)
Says degraded keys =
    (¬ All (λ key. key ≡ some "active") keys) × (¬ All (λ key. key ≢ some "active") keys)
Says unhealthy keys = All (λ key. key ≢ some "active") keys

has_status-same :
    (name : String) (key : Option String) → has_status name key ≡ true → key ≡ some name
unfolding has_status
has_status-same name none h = ground (arith, h)
has_status-same name (some status) h =
    ap (λ (x : String). some x) (ground (arith, h, eq_iff status name))

has_status-other :
    (name : String) (key : Option String) → has_status name key ≡ false → key ≢ some name
unfolding has_status
has_status-other name none h e = cc
has_status-other name (some status) h e =
    let same : status ≡ name = cc in ground (arith, h, eq_iff status name)

-- A key has one status.
one_status :
    (key : Option String)
    → one (has_status "active" key)
        + one (has_status "disabled" key)
        + one (has_status "failed" key)
      ≤ 1
unfolding has_status
one_status none = omega arith
one_status (some status) = elim (Bool-cases (str_eq status "active")) [
  | inl e ↦ at "active" (sym (has_status-same "active" (some status) e)) (omega arith)
  | inr e ↦ elim (Bool-cases (str_eq status "disabled")) [
    | inl e' ↦ at "disabled" (sym (has_status-same "disabled" (some status) e')) (omega arith)
    | inr e' ↦ omega (arith, ap one e, ap one e', one-bound (str_eq status "failed"))
  ]
]
  where
    Bounded : Option String → Type 0
    Bounded key =
        one (has_status "active" key)
          + one (has_status "disabled" key)
          + one (has_status "failed" key)
        ≤ 1

    at : (name : String) {key : Option String} → some name ≡ key → Bounded (some name) → Bounded key
    at name e b = subst Bounded e b

    one-bound : (b : Bool) → one b ≤ 1
    one-bound true = omega arith
    one-bound false = omega arith

count-cons :
    (name : String) (key : Option String) (keys : List (Option String))
    → count_status name (key ∷ keys) ≡ one (has_status name key) + count_status name keys
unfolding count_status
count-cons name key keys = elim (Bool-cases (has_status name key)) [
  | inl e ↦ rw e (omega arith)
  | inr e ↦ rw e (omega arith)
]

count-bound :
    (keys : List (Option String))
    → count_status "active" keys + count_status "disabled" keys + count_status "failed" keys
      ≤ length keys
unfolding count_status
count-bound [] = omega arith
count-bound (key ∷ keys) = omega (
  arith,
  one_status key,
  count-bound keys,
  count-cons "active" key keys,
  count-cons "disabled" key keys,
  count-cons "failed" key keys,
)

all_active :
    (keys : List (Option String))
    → length keys ≤ count_status "active" keys
    → All (λ key. key ≡ some "active") keys
all_active [] h = tt
all_active (key ∷ keys) h = elim (Bool-cases (has_status "active" key)) [
  | inl e ↦ (
    has_status-same "active" key e,
    all_active keys (omega (arith, h, ap one e, count-cons "active" key keys)),
  )
  | inr e ↦ absurd (omega (arith, h, ap one e, count-cons "active" key keys, count-bound keys))
]

count-all :
    (keys : List (Option String))
    → All (λ key. key ≡ some "active") keys
    → count_status "active" keys ≡ length keys
unfolding count_status has_status
count-all [] h = refl
count-all (key ∷ keys) h = rw (h.0) (ap suc (count-all keys h.1))

none_active :
    (keys : List (Option String))
    → count_status "active" keys ≡ 0
    → All (λ key. key ≢ some "active") keys
none_active [] h = tt
none_active (key ∷ keys) h = elim (Bool-cases (has_status "active" key)) [
  | inl e ↦ absurd (omega (arith, h, ap one e, count-cons "active" key keys))
  | inr e ↦ (
    has_status-other "active" key e,
    none_active keys (omega (arith, h, ap one e, count-cons "active" key keys)),
  )
]

count-none :
    (keys : List (Option String))
    → All (λ key. key ≢ some "active") keys
    → count_status "active" keys ≡ 0
unfolding count_status
count-none [] h = refl
count-none (key ∷ keys) h = elim (Bool-cases (has_status "active" key)) [
  | inl e ↦ absurd (h.0 (has_status-same "active" key e))
  | inr e ↦ rw e (count-none keys h.1)
]

-- The service is healthy when there is a key and every key is active, unhealthy when no key is, and
-- degraded otherwise; the counts of disabled and failed keys never decide it alone.
pub snapshot-Says : (keys : List (Option String)) → Says (snapshot keys).status keys
unfolding snapshot status_of
snapshot-Says keys =
    let n = length keys in
    let a = count_status "active" keys in
    let d = count_status "disabled" keys in
    let f = count_status "failed" keys in
    let bound = count-bound keys in
    elim (Bool-cases (n == 0 || a == 0)) [
      | inl e ↦ rw e (none_active keys (ground (arith, e, bound)))
      | inr e ↦
          let some_active : ¬ All (λ key. key ≢ some "active") keys =
            λ none. ground (arith, e, count-none keys none) in
          elim (Bool-cases (not (d == 0) || not (f == 0) || ltb a n)) [
            | inl e' ↦
                rw (e, e') ((λ all. ground (arith, e', bound, count-all keys all)), some_active)
            | inr e' ↦ rw (e, e') (all_active keys (ground (arith, e')), some_active)
          ]
    ]
