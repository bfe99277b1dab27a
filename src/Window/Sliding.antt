-- ===== src/Window/Sliding.antt =====
-- `SlidingWindowCounter` of poolgate/utils.py, which poolgate/throttling/sliding_window.py passes
-- on as `SlidingWindowBucket`. The clock reading of a call is an argument. `now - window` stops at
-- 0 here where Python's goes below it; no reading is negative, so the test decides alike.
use pool_gate.Common.{ℕ, ◌-◌, ◌≤◌, ◌≡◌, refl, ap, ◌∙◌, List, [], ◌∷◌, ◌++◌, arith, length}
use pool_gate.Window.Recent.{
  drop_before, recent, InOrder, Until, drop_before-recent, recent-recent, recent-append,
  recent-InOrder, Until-mono, Until-append, InOrder-append,
}

pub record SlidingWindowCounter : Type 0 where
  pub window : ℕ
  -- Oldest first.
  pub timestamps : List ℕ

unfoldable pub new : ℕ → SlidingWindowCounter
new window_seconds = record { window = window_seconds; timestamps = [] }

unfoldable pub evict : SlidingWindowCounter → ℕ → SlidingWindowCounter
unfolding drop_before
evict s now = record s { timestamps = drop_before (λ t. t) (now - s.window) s.timestamps }

-- `record`.
unfoldable pub record_event : SlidingWindowCounter → ℕ → SlidingWindowCounter
record_event s now = evict (record s { timestamps = s.timestamps ++ now ∷ [] }) now

unfoldable pub count : SlidingWindowCounter → ℕ → ℕ × SlidingWindowCounter
count s now = let s' = evict s now in (length s'.timestamps, s')

-- A call of the counter, with its clock reading.
pub data Call : Type 0 where
  records : ℕ → Call
  counts : ℕ → Call

abbrev pub at : Call → ℕ
at (records t) = t
at (counts t) = t

unfoldable pub step : SlidingWindowCounter → Call → SlidingWindowCounter
step s (records t) = record_event s t
step s (counts t) = (count s t).1

unfoldable pub run : SlidingWindowCounter → List Call → SlidingWindowCounter
run s [] = s
run s (c ∷ cs) = run (step s c) cs

-- The times of all events ever recorded, after those of `past`.
abbrev pub recorded : List ℕ → List Call → List ℕ
recorded past [] = past
recorded past (records t ∷ cs) = recorded (past ++ t ∷ []) cs
recorded past (counts t ∷ cs) = recorded past cs

-- The clock never runs back, and the last reading is at most `now`.
abbrev pub Clocked : ℕ → List Call → ℕ → Type 0
Clocked from [] now = from ≤ now
Clocked from (c ∷ cs) now = (from ≤ at c) × Clocked (at c) cs now

-- The counter holds the recent part of the whole past, as of its last eviction.
record Holds (s : SlidingWindowCounter) (w : ℕ) (past : List ℕ) (now : ℕ) : Type 0 where
  width : s.window ≡ w
  cutoff : ℕ
  evicted : cutoff ≤ now - w
  kept : s.timestamps ≡ recent (λ t. t) cutoff past
  ordered : InOrder (λ t. t) 0 past
  until : Until (λ t. t) now past

evict_kept :
    {s : SlidingWindowCounter} {w : ℕ} {past : List ℕ} {now : ℕ}
    → Holds s w past now
    → (later : ℕ) → now ≤ later
    → (evict s later).timestamps ≡ recent (λ t. t) (later - w) past
unfolding evict
evict_kept {s} {w} {past} {now} h later le =
    rw (h.width, h.kept)
      (drop_before-recent (λ t. t) (later - w) 0 (recent (λ t. t) h.cutoff past)
          (recent-InOrder (λ t. t) h.cutoff 0 past h.ordered)
        ∙ recent-recent (λ t. t) h.cutoff (later - w) past (omega (arith, h.evicted)))

append_Holds :
    {s : SlidingWindowCounter} {w : ℕ} {past : List ℕ} {now : ℕ}
    → Holds s w past now
    → (t : ℕ) → now ≤ t
    → Holds (record s { timestamps = s.timestamps ++ t ∷ [] }) w (past ++ t ∷ []) t
append_Holds {s} {w} {past} {now} h t le = record {
  width = h.width;
  cutoff = h.cutoff;
  evicted = omega (arith, h.evicted);
  kept = rw (h.kept, recent-append (λ x. x) h.cutoff past (t ∷ [])) (ground (arith, h.evicted, le));
  ordered =
      InOrder-append (λ x. x) 0 past t h.ordered (Until-mono (λ x. x) now t past le h.until)
        (omega arith);
  until = Until-append (λ x. x) t past t (Until-mono (λ x. x) now t past le h.until) (omega arith);
}

evict-Holds :
    {s : SlidingWindowCounter} {w : ℕ} {past : List ℕ} {now : ℕ}
    → Holds s w past now
    → (later : ℕ) → now ≤ later
    → Holds (evict s later) w past later
unfolding evict
evict-Holds {s} {w} {past} {now} h later le = record {
  width = h.width;
  cutoff = later - w;
  evicted = omega arith;
  kept = evict_kept h later le;
  ordered = h.ordered;
  until = Until-mono (λ x. x) now later past le h.until;
}

run-Holds :
    (cs : List Call) {s : SlidingWindowCounter} {w : ℕ} {past : List ℕ} {from : ℕ}
    → Holds s w past from
    → (now : ℕ) → Clocked from cs now
    → (last : ℕ) × (last ≤ now) × Holds (run s cs) w (recorded past cs) last
unfolding run step record_event count
run-Holds [] {from = from} h now c = (from, c, h)
run-Holds (records t ∷ cs) h now c =
    run-Holds cs (evict-Holds (append_Holds h t c.0) t (omega arith)) now c.1
run-Holds (counts t ∷ cs) h now c = run-Holds cs (evict-Holds h t c.0) now c.1

-- Whatever calls of `record` and `count` came before, at clock readings that never run back, a
-- `count` returns the number of all events ever recorded that lie in the last `w` time units, the
-- one at the edge included: the evictions on the way lose no event that still counts.
pub count-recorded :
    (w now : ℕ) (cs : List Call)
    → Clocked 0 cs now
    → (count (run (new w) cs) now).0 ≡ length (recent (λ t. t) (now - w) (recorded [] cs))
unfolding count new
count-recorded w now cs c =
    let (last, le, h) = run-Holds cs empty now c in ap length (evict_kept h now le)
  where
    empty : Holds (new w) w [] 0
    empty = record {
      width = refl;
      cutoff = 0;
      evicted = omega arith;
      kept = refl;
      ordered = tt;
      until = tt;
    }
