-- ===== src/Quota/Throttle.antt =====
-- The check of the request budget, in any order of checks and records: the two methods take the lock
-- each for itself, so other calls may come between a check and the record that follows it.
use pool_gate.Common.{ℕ, ◌-◌, ◌≡◌, refl, ap, ◌∙◌, List, [], ◌∷◌, ltb, length}
use pool_gate.Window.Recent.{recent}
use pool_gate.Window.Sliding.{
  SlidingWindowCounter, Call, records, counts, Clocked, recorded, count, count-recorded,
}
use pool_gate.Window.Sliding
use pool_gate.Quota.{ThrottleManager, new_throttle, check_rpm, record_request}

-- `record_request` and `check_rpm`, at their times.
unfoldable pub step : ThrottleManager → Call → ThrottleManager
step m (records t) = record_request m t
step m (counts t) = (check_rpm m t).1

unfoldable pub run : ThrottleManager → List Call → ThrottleManager
run m [] = m
run m (c ∷ cs) = run (step m c) cs

window-run : (cs : List Call) (m : ThrottleManager) → (run m cs).window ≡ Sliding.run m.window cs
unfolding run step check_rpm record_request Sliding.run Sliding.step
window-run [] m = refl
window-run (records t ∷ cs) m = window-run cs (record_request m t)
window-run (counts t ∷ cs) m = window-run cs (check_rpm m t).1

rpm_limit-run : (cs : List Call) (m : ThrottleManager) → (run m cs).rpm_limit ≡ m.rpm_limit
unfolding run step check_rpm record_request
rpm_limit-run [] m = refl
rpm_limit-run (records t ∷ cs) m = rpm_limit-run cs (record_request m t)
rpm_limit-run (counts t ∷ cs) m = rpm_limit-run cs (check_rpm m t).1

-- Whatever checks and records came before, in any order and at clock readings that never run back,
-- `check_rpm` says yes exactly if fewer requests than `rpm_limit` were recorded in the last `w` time
-- units, the edge included.
pub check_rpm-recorded :
    (rpm_limit w now : ℕ) (cs : List Call)
    → Clocked 0 cs now
    → (check_rpm (run (new_throttle rpm_limit w) cs) now).0
      ≡ ltb (length (recent (λ t. t) (now - w) (recorded [] cs))) rpm_limit
unfolding new_throttle check_rpm
check_rpm-recorded rpm_limit w now cs c =
    let m = new_throttle rpm_limit w in
    ap (λ (s : SlidingWindowCounter). ltb (count s now).0 (run m cs).rpm_limit) (window-run cs m)
    ∙ ap (λ (n : ℕ). ltb n (run m cs).rpm_limit) (count-recorded w now cs c)
    ∙ ap (ltb (length (recent (λ t. t) (now - w) (recorded [] cs)))) (rpm_limit-run cs m)
