-- ===== src/Latency.antt =====
-- `LatencyTracker` of poolgate/utils.py: the last `max_samples` latencies. A latency is a whole
-- number of microseconds. `ceil(0.95 * n) - 1` is written for the number 0.95; Python's float
-- product gives the same index at every n up to the 200 samples that the program keeps.
pub mod Bounded
pub mod Percentile
use pool_gate.Common.{
  ℕ, zero, suc, ◌+◌, ◌-◌, ◌*◌, ◌/◌, List, [], ◌∷◌, ◌++◌, ltb, leb, if◌then◌else◌, length, get_or,
}

pub record LatencyTracker : Type 0 where
  pub max_samples : ℕ
  -- Oldest first.
  pub samples : List ℕ

unfoldable pub new : ℕ → LatencyTracker
new max_samples = record { max_samples = max_samples; samples = [] }

-- `popleft`.
abbrev pub pop_left : List ℕ → List ℕ
pop_left [] = []
pop_left (x ∷ xs) = xs

-- `append` to a `deque(maxlen=n)`: a full one first loses its oldest element.
unfoldable pub append : ℕ → List ℕ → ℕ → List ℕ
append zero xs x = []
append (suc n) xs x = (if ltb (length xs) (suc n) then xs else pop_left xs) ++ x ∷ []

-- `record`.
unfoldable pub record_sample : LatencyTracker → ℕ → LatencyTracker
unfolding append
record_sample s latency = record s { samples = append s.max_samples s.samples latency }

insert : ℕ → List ℕ → List ℕ
insert x [] = x ∷ []
insert x (y ∷ ys) = if leb x y then x ∷ y ∷ ys else y ∷ insert x ys

-- `sorted`.
unfoldable pub sorted : List ℕ → List ℕ
unfolding insert
sorted [] = []
sorted (x ∷ xs) = insert x (sorted xs)

-- `max(ceil(0.95 * n) - 1, 0)`.
unfoldable pub p95_index : ℕ → ℕ
p95_index n = (19 * n + 19) / 20 - 1

unfoldable pub p95_of : List ℕ → ℕ
p95_of [] = 0
p95_of (x ∷ xs) = get_or (sorted (x ∷ xs)) (p95_index (length (x ∷ xs))) 0

unfoldable pub p95 : LatencyTracker → ℕ
unfolding p95_of
p95 s = p95_of s.samples
