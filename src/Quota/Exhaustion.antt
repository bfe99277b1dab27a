-- ===== src/Quota/Exhaustion.antt =====
-- When the quota of a model is spent.
use pool_gate.Common.{
  ℕ, ◌+◌, ◌≡◌, refl, sym, ap, ◌∙◌, ◌↔◌, String, Bool, true, Option, none, some, List, [], ◌∷◌,
  arith, str_eq, eq_iff, if◌then◌else◌, Option-cases, Bool-cases, inl, inr, sum_of, ◌⊎◌, ◌||◌,
  subst,
}
use pool_gate.Dict.{get}
use pool_gate.Dict.Laws.{get-put}
use pool_gate.Quota.{
  QuotaTracker, QuotaSnapshot, spend, consume, is_zero, is_exhausted, get_remaining,
}

-- A use of a model: the requests and the tokens, at a time.
abbrev pub Use : Type 0
Use = String × (ℕ × (ℕ × ℕ))

unfoldable pub run : QuotaTracker → List Use → QuotaTracker
run t [] = t
run t ((model, (requests, (tokens, now))) ∷ us) = run (consume t model requests tokens now) us

-- The requests and the tokens that the uses of a model amount to.
abbrev pub requests_of : String → Use → ℕ
requests_of model (m, (requests, (tokens, now))) = if str_eq m model then requests else 0

abbrev pub tokens_of : String → Use → ℕ
tokens_of model (m, (requests, (tokens, now))) = if str_eq m model then tokens else 0

spend-spend : (o : Option ℕ) (m n : ℕ) → spend (spend o m) n ≡ spend o (m + n)
unfolding spend
spend-spend none m n = refl
spend-spend (some k) m n = ap (λ (x : ℕ). some x) (omega arith)

spend-zero : (o : Option ℕ) → spend o 0 ≡ o
unfolding spend
spend-zero none = refl
spend-zero (some n) = ap (λ (x : ℕ). some x) (omega arith)

-- The counters of a model with a snapshot, or without one.
abbrev parts : Option QuotaSnapshot → Option ℕ × Option ℕ
parts none = (none, none)
parts (some snap) = (snap.remaining_rpd, snap.remaining_tpd)

get_remaining-parts :
    (t : QuotaTracker) (model : String) → get_remaining t model ≡ parts (get t.quotas model)
unfolding get_remaining
get_remaining-parts t model = go (get t.quotas model)
  where
    go :
        (o : Option QuotaSnapshot)
        → ◌≡◌ {A = Option ℕ × Option ℕ}
            (elim o [ none ↦ (none, none) | some snap ↦ (snap.remaining_rpd, snap.remaining_tpd) ])
            (parts o)
    go none = refl
    go (some snap) = refl

spend_nothing : (p : Option ℕ × Option ℕ) → (spend p.0 0, spend p.1 0) ≡ p
spend_nothing (a, b) = cc (spend-zero a, spend-zero b)

parts-consume :
    (t : QuotaTracker) (m model : String) (requests tokens now : ℕ)
    → parts (get (consume t m requests tokens now).quotas model) ≡ (
      spend (parts (get t.quotas model)).0 (if str_eq m model then requests else 0),
      spend (parts (get t.quotas model)).1 (if str_eq m model then tokens else 0),
    )
unfolding consume
parts-consume t m model requests tokens now = elim (Bool-cases (str_eq m model)) [
  | inl h ↦
      let same : m ≡ model = ground (arith, eq_iff m model) in
      elim (Option-cases (get t.quotas m)) [
        | inl e ↦
            let e' : get t.quotas model ≡ none = ap (get t.quotas) (sym same) ∙ e in
            rw (e, consume) (rw h (rw e' (unfold spend in refl)))
        | inr (snap, e) ↦
            let e' : get t.quotas model ≡ some snap = ap (get t.quotas) (sym same) ∙ e in
            rw (e, consume) (rw (get-put t.quotas m model) (rw h (rw e' refl)))
      ]
  | inr h ↦ elim (Option-cases (get t.quotas m)) [
    | inl e ↦ rw (e, consume) (rw h (sym (spend_nothing (parts (get t.quotas model)))))
    | inr (snap, e) ↦
        rw (e, consume)
          (rw (get-put t.quotas m model) (rw h (sym (spend_nothing (parts (get t.quotas model))))))
  ]
]

-- After any uses, in any order and of any models, a model has left what the provider reported less
-- what its own uses amount to, stopping at 0; a counter that was not reported stays unknown.
pub get_remaining-run :
    (us : List Use) (t : QuotaTracker) (model : String)
    → get_remaining (run t us) model ≡ (
      spend (get_remaining t model).0 (sum_of (requests_of model) us),
      spend (get_remaining t model).1 (sum_of (tokens_of model) us),
    )
unfolding run
get_remaining-run [] t model = sym (spend_nothing (get_remaining t model))
get_remaining-run ((m, (requests, (tokens, now))) ∷ us) t model =
    let r = get_remaining-run us (consume t m requests tokens now) model in
    let c : get_remaining (consume t m requests tokens now) model ≡ (
      spend (get_remaining t model).0 (if str_eq m model then requests else 0),
      spend (get_remaining t model).1 (if str_eq m model then tokens else 0),
    ) =
      get_remaining-parts (consume t m requests tokens now) model
      ∙ parts-consume t m model requests tokens now
      ∙ ap
          (λ (p : Option ℕ × Option ℕ). (
            spend p.0 (if str_eq m model then requests else 0),
            spend p.1 (if str_eq m model then tokens else 0),
          ))
          (sym (get_remaining-parts t model)) in
    r
    ∙ ap
        (λ (p : Option ℕ × Option ℕ).
          (spend p.0 (sum_of (requests_of model) us), spend p.1 (sum_of (tokens_of model) us)))
        c
    ∙ cc (
      spend-spend (get_remaining t model).0 (if str_eq m model then requests else 0)
          (sum_of (requests_of model) us),
      spend-spend (get_remaining t model).1 (if str_eq m model then tokens else 0)
          (sum_of (tokens_of model) us),
    )

-- A test of two counters that is true exactly when one of them is known and 0.
zero_part : (a b : Option ℕ) → (is_zero a || is_zero b ≡ true) ↔ ((a ≡ some 0) ⊎ (b ≡ some 0))
zero_part a b = (to a b, from a b)
  where
    zero_at : (o : Option ℕ) → is_zero o ≡ true → o ≡ some 0
    zero_at none h = ground (arith, h)
    zero_at (some n) h = ap (λ (x : ℕ). some x) (ground (arith, h))

    to : (a b : Option ℕ) → is_zero a || is_zero b ≡ true → (a ≡ some 0) ⊎ (b ≡ some 0)
    to a b h = elim (Bool-cases (is_zero a)) [
      | inl e ↦ inl (zero_at a e)
      | inr e ↦ inr (zero_at b (subst (λ (x : Bool). x || is_zero b ≡ true) e h))
    ]

    from : (a b : Option ℕ) → (a ≡ some 0) ⊎ (b ≡ some 0) → is_zero a || is_zero b ≡ true
    from a b (inl e) = rw e refl
    from a b (inr e) = elim (Bool-cases (is_zero a)) [
      | inl e' ↦ rw (e, e') refl
      | inr e' ↦ rw (e, e') refl
    ]

-- A model counts as exhausted exactly when one of its counters is known and has come to 0.
pub is_exhausted-get_remaining :
    (t : QuotaTracker) (model : String)
    → (is_exhausted t model ≡ true)
      ↔ (((get_remaining t model).0 ≡ some 0) ⊎ ((get_remaining t model).1 ≡ some 0))
unfolding is_exhausted get_remaining
is_exhausted-get_remaining t model = elim (Option-cases (get t.quotas model)) [
  | inl e ↦ rw (e, is_exhausted, get_remaining) (zero_part none none)
  | inr (snap, e) ↦
      rw (e, is_exhausted, get_remaining) (zero_part snap.remaining_rpd snap.remaining_tpd)
]
