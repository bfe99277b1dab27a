-- ===== src/Window/Rolling/Reset.antt =====
-- What `reset_in_seconds` promises: when the window next loses weight.
use pool_gate.Common.{
  ℕ, ◌+◌, ◌-◌, ◌*◌, ◌≤◌, ◌<◌, ◌≡◌, refl, sym, ap, ◌∙◌, List, [], ◌∷◌, arith, sum_of, All, second,
}
use native.Mathlib.Decide.{dec_lt}
use pool_gate.Window.Recent.{recent}
use pool_gate.Window.Rolling.{
  Entry, RollingWindowCounter, count_since, oldest, reset_of, reset_in_seconds,
}
use pool_gate.Window.Rolling.Counts.{stamp, weight_since, count_since-weight_since}

lower : (xs : List Entry) (m n : ℕ) → n ≤ m → All (λ x. m ≤ stamp x) xs → All (λ x. n ≤ stamp x) xs
lower [] m n h a = tt
lower (x ∷ xs) m n h a = (omega (arith, a.0), lower xs m n h a.1)

oldest_le : (e : Entry) (es : List Entry) → All (λ x. oldest e es ≤ stamp x) (e ∷ es)
unfolding oldest
oldest_le e [] = (omega arith, tt)
oldest_le e (f ∷ es) =
    (ground arith, lower (f ∷ es) (oldest f es) _ (ground arith) (oldest_le f es))

le_oldest :
    (e : Entry) (es : List Entry) (c : ℕ) → All (λ x. c ≤ stamp x) (e ∷ es) → c ≤ oldest e es
unfolding oldest
le_oldest e [] c a = a.0
le_oldest e (f ∷ es) c a = ground (arith, a.0, le_oldest f es c a.1)

-- A later cutoff that lies before all recent entries keeps them.
recent_same :
    (c d : ℕ) (es : List Entry)
    → c ≤ d
    → All (λ x. d ≤ stamp x) (recent stamp c es)
    → recent stamp d es ≡ recent stamp c es
recent_same c d [] h a = refl
recent_same c d (e ∷ es) h a = ground (arith, recent_same c d es h)

weight_since-le : (c d : ℕ) (es : List Entry) → c ≤ d → weight_since d es ≤ weight_since c es
weight_since-le c d [] h = omega arith
weight_since-le c d (e ∷ es) h = ground (arith, weight_since-le c d es h)

-- Where a later cutoff loses no weight, all recent entries lie after it.
after_of_same :
    (c d : ℕ) (es : List Entry)
    → c ≤ d
    → All (λ e. 0 < e.weight) es
    → weight_since c es ≤ weight_since d es
    → All (λ x. d ≤ stamp x) (recent stamp c es)
after_of_same c d [] h p le = tt
after_of_same c d (e ∷ es) h p le =
    ground (arith, p.0, after_of_same c d es h p.1, weight_since-le c d es h)

keeps_of :
    (es : List Entry) (span now t : ℕ)
    → now ≤ t
    → t ≤ now + reset_of es span now
    → All (λ x. now - span ≤ stamp x) es
    → All (λ x. t - span ≤ stamp x) es
unfolding reset_of
keeps_of [] span now t h le a = tt
keeps_of (e ∷ es) span now t h le a =
    lower (e ∷ es) (oldest e es) (t - span) (omega (arith, le_oldest e es (now - span) a))
      (oldest_le e es)

recent_after : (c : ℕ) (es : List Entry) → All (λ x. c ≤ stamp x) (recent stamp c es)
recent_after c [] = tt
recent_after c (e ∷ es) = ground (arith, recent_after c es)

frees_of :
    (es : List Entry) (span now t : ℕ)
    → 0 < sum_of (λ e. e.weight) es
    → now + reset_of es span now < t
    → ¬ All (λ x. t - span ≤ stamp x) es
unfolding reset_of
frees_of [] span now t h lt a = omega arith
frees_of (e ∷ es) span now t h lt a = omega (arith, le_oldest e es (t - span) a)

module _ (r : RollingWindowCounter) (seconds now t : ℕ)
    (fits : seconds ≤ r.max_window_seconds) where
  -- No weight leaves the window before the time that `reset_in_seconds` gives, that time included:
  -- with no `add` in between, `count_since` returns the same total until then.
  pub count_since_until_reset :
      now ≤ t
      → t ≤ now + reset_in_seconds r seconds now
      → (count_since r seconds t).0 ≡ (count_since r seconds now).0
  unfolding reset_in_seconds
  count_since_until_reset h le =
      count_since-weight_since r seconds t fits
      ∙ ap (sum_of (λ (e : Entry). e.weight)) (
          recent_same (now - span) (t - span) r.entries (omega arith) (
            keeps_of (recent stamp (now - span) r.entries) span now t h le
              (recent_after (now - span) r.entries)))
      ∙ sym (count_since-weight_since r seconds now fits)
    where
      span : ℕ
      span = seconds * second

  -- And at every later time it has lost some: where something is in the window and every entry has
  -- a weight, the total past that time is smaller.
  pub count_since_after_reset :
      All (λ e. 0 < e.weight) r.entries
      → 0 < (count_since r seconds now).0
      → now + reset_in_seconds r seconds now < t
      → (count_since r seconds t).0 < (count_since r seconds now).0
  unfolding reset_in_seconds
  count_since_after_reset p some_weight lt =
      rw (count_since-weight_since r seconds t fits, count_since-weight_since r seconds now fits)
        (elim (dec_lt (weight_since (t - span) r.entries) (weight_since (now - span) r.entries)) [
          | yes less ↦ less
          | no more ↦ absurd (
              frees_of (recent stamp (now - span) r.entries) span now t
                (rw count_since-weight_since at some_weight) lt
                (after_of_same (now - span) (t - span) r.entries (omega arith) p (omega arith)))
        ])
    where
      span : ℕ
      span = seconds * second
