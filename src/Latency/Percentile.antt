-- ===== src/Latency/Percentile.antt =====
-- The 95th percentile: a sample, with at least 95% of the samples at or below it.
use pool_gate.Common.{
  ℕ, zero, suc, ◌*◌, ◌≤◌, ◌<◌, ◌≡◌, refl, List, [], ◌∷◌, leb, arith, length, get_or, keep_if, Bool,
  ◌==◌,
}
use pool_gate.Latency.{LatencyTracker, insert, sorted, p95_index, p95_of, p95}

abbrev Ascending : ℕ → List ℕ → Type 0
Ascending from [] = Unit
Ascending from (x ∷ xs) = (from ≤ x) × Ascending x xs

Ascending-insert :
    (from x : ℕ) (xs : List ℕ) → from ≤ x → Ascending from xs → Ascending from (insert x xs)
unfolding insert
Ascending-insert from x [] h a = (h, tt)
Ascending-insert from x (y ∷ ys) h a =
    ground (arith, a.0, a.1, λ (le : y ≤ x). Ascending-insert y x ys le a.1)

Ascending-sorted : (xs : List ℕ) → Ascending 0 (sorted xs)
unfolding sorted
Ascending-sorted [] = tt
Ascending-sorted (x ∷ xs) = Ascending-insert 0 x (sorted xs) (omega arith) (Ascending-sorted xs)

-- How many samples pass a test.
abbrev pub passing : (ℕ → Bool) → List ℕ → ℕ
passing test xs = length (keep_if test xs)

passing-insert :
    (test : ℕ → Bool) (x : ℕ) (xs : List ℕ) → passing test (insert x xs) ≡ passing test (x ∷ xs)
unfolding insert
passing-insert test x [] = refl
passing-insert test x (y ∷ ys) = ground (arith, passing-insert test x ys)

-- Sorting keeps each sample as often as it stands.
passing-sorted : (test : ℕ → Bool) (xs : List ℕ) → passing test (sorted xs) ≡ passing test xs
unfolding sorted
passing-sorted test [] = refl
passing-sorted test (x ∷ xs) =
    ground (arith, passing-insert test x (sorted xs), passing-sorted test xs)

length-insert : (x : ℕ) (xs : List ℕ) → length (insert x xs) ≡ suc (length xs)
unfolding insert
length-insert x [] = refl
length-insert x (y ∷ ys) = ground (arith, length-insert x ys)

length-sorted : (xs : List ℕ) → length (sorted xs) ≡ length xs
unfolding sorted
length-sorted [] = refl
length-sorted (x ∷ xs) = omega (arith, length-insert x (sorted xs), length-sorted xs)

get_or-ge : (from i : ℕ) (xs : List ℕ) → Ascending from xs → i < length xs → from ≤ get_or xs i 0
get_or-ge from i [] a h = absurd (omega arith)
get_or-ge from zero (x ∷ xs) a h = a.0
get_or-ge from (suc i) (x ∷ xs) a h = omega (arith, a.0, get_or-ge x i xs a.1)

-- In an ascending list, the elements up to a place are at most the one there.
at_most_get_or :
    (from i : ℕ) (xs : List ℕ)
    → Ascending from xs
    → i < length xs
    → i < passing (λ y. leb y (get_or xs i 0)) xs
at_most_get_or from i [] a h = absurd (omega arith)
at_most_get_or from zero (x ∷ xs) a h = ground arith
at_most_get_or from (suc i) (x ∷ xs) a h =
    ground (arith, get_or-ge x i xs a.1, at_most_get_or x i xs a.1)

passing-get_or : (i : ℕ) (xs : List ℕ) → i < length xs → 0 < passing (λ y. y == get_or xs i 0) xs
passing-get_or i [] h = absurd (omega arith)
passing-get_or zero (x ∷ xs) h = ground arith
passing-get_or (suc i) (x ∷ xs) h = ground (arith, passing-get_or i xs)

p95_index-lt : (n : ℕ) → 0 < n → p95_index n < n
unfolding p95_index
p95_index-lt n h = omega arith

p95_index-covers : (n k : ℕ) → p95_index n < k → 19 * n ≤ 20 * k
unfolding p95_index
p95_index-covers n k h = omega arith

-- Where there are samples the 95th percentile is one of them, and at least 95% of the samples are
-- at most it. (The index that it is read at lies within the sorted samples.)
pub p95_of_samples :
    (s : LatencyTracker)
    → 0 < length s.samples
    → (0 < passing (λ y. y == p95 s) s.samples)
      × (19 * length s.samples ≤ 20 * passing (λ y. leb y (p95 s)) s.samples)
      × (p95_index (length s.samples) < length (sorted s.samples))
unfolding p95 p95_of
p95_of_samples s h = go s.samples h
  where
    go :
        (xs : List ℕ)
        → 0 < length xs
        → (0 < passing (λ y. y == p95_of xs) xs)
          × (19 * length xs ≤ 20 * passing (λ y. leb y (p95_of xs)) xs)
          × (p95_index (length xs) < length (sorted xs))
    go [] h = absurd (omega arith)
    go (x ∷ xs) h =
        let ys = sorted (x ∷ xs) in
        let i = p95_index (length (x ∷ xs)) in
        let within : i < length ys =
          omega (arith, length-sorted (x ∷ xs), p95_index-lt (length (x ∷ xs)) h) in
        (
          rw (← passing-sorted (λ y. y == get_or ys i 0) (x ∷ xs)) (passing-get_or i ys within),
          p95_index-covers (length (x ∷ xs)) _ (
              rw (← passing-sorted (λ y. leb y (get_or ys i 0)) (x ∷ xs))
                (at_most_get_or 0 i ys (Ascending-sorted (x ∷ xs)) within)),
          within,
        )
