-- ===== src/Window/Rolling/Counts.antt =====
-- What `count_since` counts, after any calls.
use pool_gate.Common.{
  ℕ, ◌-◌, ◌*◌, ◌≤◌, ◌≡◌, refl, ap, ◌∙◌, List, [], ◌∷◌, ◌++◌, arith, sum_of, All, second,
}
use pool_gate.Window.Recent.{recent, recent-append, recent-drop_before}
use pool_gate.Window.Rolling.{
  Entry, RollingWindowCounter, new, evict, add, count_since, get_sum, prune,
}

-- A call that changes the counter, with its clock reading.
pub data Call : Type 0 where
  adds : ℕ → ℕ → Call
  sums : ℕ → ℕ → Call
  prunes : ℕ → Call

abbrev pub at : Call → ℕ
at (adds weight t) = t
at (sums seconds t) = t
at (prunes t) = t

unfoldable pub step : RollingWindowCounter → Call → RollingWindowCounter
step r (adds weight t) = add r weight t
step r (sums seconds t) = (get_sum r seconds t).1
step r (prunes t) = prune r t

unfoldable pub run : RollingWindowCounter → List Call → RollingWindowCounter
run r [] = r
run r (c ∷ cs) = run (step r c) cs

-- All entries that were ever added, after those of `past`.
abbrev pub added : List Entry → List Call → List Entry
added past [] = past
added past (adds weight t ∷ cs) = added (past ++ record { timestamp = t; weight = weight } ∷ []) cs
added past (_ ∷ cs) = added past cs

abbrev pub stamp : Entry → ℕ
stamp e = e.timestamp

-- The total weight at or after a cutoff.
abbrev pub weight_since : ℕ → List Entry → ℕ
weight_since cutoff es = sum_of (λ e. e.weight) (recent stamp cutoff es)

pub count_since-weight_since :
    (r : RollingWindowCounter) (seconds now : ℕ)
    → seconds ≤ r.max_window_seconds
    → (count_since r seconds now).0 ≡ weight_since (now - seconds * second) r.entries
unfolding count_since evict
count_since-weight_since r seconds now h =
    ap (sum_of (λ (e : Entry). e.weight)) (recent-drop_before stamp _ _ r.entries (omega arith))

recent-evict :
    (r : RollingWindowCounter) (past : List Entry) (c now t : ℕ)
    → now - r.max_window_seconds * second ≤ c
    → t ≤ now
    → recent stamp c r.entries ≡ recent stamp c past
    → recent stamp c (evict r t).entries ≡ recent stamp c past
unfolding evict
recent-evict r past c now t h le e = recent-drop_before stamp _ c r.entries (omega arith) ∙ e

max_window-step :
    (r : RollingWindowCounter) (k : Call) → (step r k).max_window_seconds ≡ r.max_window_seconds
unfolding step add evict get_sum count_since prune
max_window-step r (adds weight t) = refl
max_window-step r (sums seconds t) = refl
max_window-step r (prunes t) = refl

recent-step :
    (r : RollingWindowCounter) (k : Call) (past : List Entry) (c now : ℕ)
    → now - r.max_window_seconds * second ≤ c
    → at k ≤ now
    → recent stamp c r.entries ≡ recent stamp c past
    → recent stamp c (step r k).entries ≡ recent stamp c (added past (k ∷ []))
unfolding step add get_sum count_since prune
recent-step r (adds weight t) past c now h le e =
    recent-evict (record r { entries = r.entries ++ new_entry ∷ [] }) (past ++ new_entry ∷ []) c now
      t h le
      (rw (
        recent-append stamp c r.entries (new_entry ∷ []),
        recent-append stamp c past (new_entry ∷ []),
        e,
      ))
  where
    new_entry : Entry
    new_entry = record { timestamp = t; weight = weight }
recent-step r (sums seconds t) past c now h le e = recent-evict r past c now t h le e
recent-step r (prunes t) past c now h le e = recent-evict r past c now t h le e

added-cons :
    (past : List Entry) (k : Call) (cs : List Call)
    → added past (k ∷ cs) ≡ added (added past (k ∷ [])) cs
added-cons past (adds weight t) cs = refl
added-cons past (sums seconds t) cs = refl
added-cons past (prunes t) cs = refl

pub run-recent :
    (cs : List Call) (r : RollingWindowCounter) (past : List Entry) (c now : ℕ)
    → now - r.max_window_seconds * second ≤ c
    → All (λ k. at k ≤ now) cs
    → recent stamp c r.entries ≡ recent stamp c past
    → (recent stamp c (run r cs).entries ≡ recent stamp c (added past cs))
      × ((run r cs).max_window_seconds ≡ r.max_window_seconds)
unfolding run
run-recent [] r past c now h le e = (e, refl)
run-recent (k ∷ cs) r past c now h le e =
    let same = max_window-step r k in
    let (kept, width) =
      run-recent cs (step r k) (added past (k ∷ [])) c now (rw same h) le.1
        (recent-step r k past c now h le.0 e) in
    (rw (added-cons past k cs) kept, width ∙ same)

-- Whatever `add`, `get_sum` and `prune` calls came before `now`, in any order of their times,
-- `count_since` over a span within the counter's window returns the total weight of all that was
-- ever added in that span, the edge included: no eviction on the way loses weight that counts.
pub count_since-added :
    (max_window seconds now : ℕ) (cs : List Call)
    → seconds ≤ max_window
    → All (λ k. at k ≤ now) cs
    → (count_since (run (new max_window) cs) seconds now).0
      ≡ weight_since (now - seconds * second) (added [] cs)
unfolding new
count_since-added max_window seconds now cs h le =
    let (kept, width) =
      run-recent cs (new max_window) [] (now - seconds * second) now (omega arith) le refl in
    count_since-weight_since (run (new max_window) cs) seconds now (rw width h)
    ∙ ap (sum_of (λ (e : Entry). e.weight)) kept
