-- ===== src/Window/Rolling.antt =====
-- `RollingWindowCounter` and `RollingWindow` of poolgate/tracking/rolling_window.py. The optional
-- argument `now` is always given: a caller that leaves it out passes the clock's reading. A cutoff
-- stops at 0 here where Python's goes below it; no timestamp is negative, so the tests decide alike.
pub mod Counts
pub mod Reset
use pool_gate.Common.{
  ℕ, zero, ◌+◌, ◌-◌, ◌*◌, ◌==◌, List, [], ◌∷◌, ◌++◌, leb, keep_if, sum_of, second, if◌then◌else◌,
  ltb,
}
use pool_gate.Window.Recent.{drop_before}

pub record Entry : Type 0 where
  pub timestamp : ℕ
  pub weight : ℕ

pub record RollingWindowCounter : Type 0 where
  -- Oldest first.
  pub entries : List Entry
  pub max_window_seconds : ℕ

unfoldable pub new : ℕ → RollingWindowCounter
new max_window_seconds = record { entries = []; max_window_seconds = max_window_seconds }

unfoldable pub evict : RollingWindowCounter → ℕ → RollingWindowCounter
unfolding drop_before
evict r now = record r {
  entries = drop_before (λ e. e.timestamp) (now - r.max_window_seconds * second) r.entries;
}

unfoldable pub add : RollingWindowCounter → ℕ → ℕ → RollingWindowCounter
add r weight now =
    evict (record r { entries = r.entries ++ record { timestamp = now; weight = weight } ∷ [] }) now

unfoldable pub count_since : RollingWindowCounter → ℕ → ℕ → ℕ × RollingWindowCounter
count_since r seconds now =
    let cutoff = now - seconds * second in
    let r' = evict r now in
    (sum_of (λ e. e.weight) (keep_if (λ e. leb cutoff e.timestamp) r'.entries), r')

-- `max(0, limit - count)`.
unfoldable pub remaining : RollingWindowCounter → ℕ → ℕ → ℕ → ℕ × RollingWindowCounter
remaining r limit seconds now = let (used, r') = count_since r seconds now in (limit - used, r')

-- `min(e.timestamp for e in es)` of a list that is not empty.
unfoldable pub oldest : Entry → List Entry → ℕ
oldest e [] = e.timestamp
oldest e (f ∷ es) = let m = oldest f es in if ltb m e.timestamp then m else e.timestamp

-- The time until the oldest of these entries leaves a window of `span`.
unfoldable pub reset_of : List Entry → ℕ → ℕ → ℕ
reset_of [] span now = 0
reset_of (e ∷ es) span now = (oldest e es + span) - now

-- `reset_in_seconds`, in the unit of the clock. It evicts nothing.
unfoldable pub reset_in_seconds : RollingWindowCounter → ℕ → ℕ → ℕ
unfolding reset_of oldest
reset_in_seconds r seconds now =
    let cutoff = now - seconds * second in
    reset_of (keep_if (λ e. leb cutoff e.timestamp) r.entries) (seconds * second) now

-- `RollingWindow.get_sum` and `get_count`: 0 seconds, as `None`, mean the whole window.
unfoldable pub get_sum : RollingWindowCounter → ℕ → ℕ → ℕ × RollingWindowCounter
get_sum r seconds now = count_since r (if seconds == 0 then r.max_window_seconds else seconds) now

-- `RollingWindow.prune`.
unfoldable pub prune : RollingWindowCounter → ℕ → RollingWindowCounter
prune r now = evict r now
