-- ===== src/Tests/Trackers.antt =====
-- The theorems of the trackers, the quotas and the throttle at concrete inputs.
use pool_gate.Common.{ltb, ◌≡◌, ◌-◌, true, false, none, some, List, [], ◌∷◌, sum_of, length, arith}
use pool_gate.Window.Recent.{recent}
use pool_gate.Tracking.Request.Scopes.{records, reads_day, calls_of, requests_per_minute-added}
use pool_gate.Tracking.Request.Scopes
use pool_gate.Tracking.Token.{TokenTracker, record_tokens, tokens_for_day, load_days, export_days}
use pool_gate.Tracking.Token
use pool_gate.Tracking.Token.Keys.{IsTracker, record_tokens-IsTracker}
use pool_gate.Tracking.Token.RoundTrip.{tokens_for_day-load_days}
use pool_gate.Tracking.Manager.Agree.{
  Call, succeeds, fails, AgreeOn, missed_requests, missed_tokens, run-AgreeOn,
}
use pool_gate.Tracking.Manager.Agree
use pool_gate.Tracking.Manager
use pool_gate.Quota.{QuotaTracker, update, get_remaining, spend, new_throttle}
use pool_gate.Quota
use pool_gate.Quota.Exhaustion.{Use, requests_of, tokens_of, get_remaining-run}
use pool_gate.Quota.Exhaustion
use pool_gate.Quota.Throttle
use pool_gate.Quota.Throttle.{check_rpm-recorded}
use pool_gate.Quota.{check_rpm}
use pool_gate.Window.Sliding.{recorded, counts}
use pool_gate.Window.Sliding

-- A success and a failure with a key, a success without one, and a success of the next day.
abbrev calls : List Call
calls =
    succeeds "llama" 3 4 (some "key-1") none false 1000 "2025-01-31"
    ∷ fails "llama" (some "key-1") (some "chat") true 2000 "2025-01-31"
    ∷ succeeds "gemma" 5 0 none none false 3000 "2025-01-31"
    ∷ succeeds "llama" 1 1 (some "key-2") none false 4000 "2025-02-01"
    ∷ []

run-AgreeOn_example :
    AgreeOn "2025-01-31"
      (Agree.run Manager.new calls)
      (sum_of (missed_requests "2025-01-31") calls)
      (sum_of (missed_tokens "2025-01-31") calls)
run-AgreeOn_example = run-AgreeOn calls "2025-01-31"

-- Two models on two days.
abbrev tokens : TokenTracker
tokens =
    record_tokens (record_tokens Token.new "llama" 3 4 1000 "2025-01-31" "2025-01-31") "gemma" 1 2
      2000 "2025-02-01" "2025-02-01"

tokens-IsTracker : IsTracker tokens
tokens-IsTracker = record_tokens-IsTracker _ "gemma" 1 2 2000 "2025-02-01" "2025-02-01" (
    record_tokens-IsTracker Token.new "llama" 3 4 1000 "2025-01-31" "2025-01-31"
      (record { models = tt; days = tt }))

tokens_for_day-load_days_example :
    tokens_for_day (load_days Token.new (export_days tokens)) "llama" "2025-01-31"
    ≡ tokens_for_day tokens "llama" "2025-01-31"
tokens_for_day-load_days_example =
    tokens_for_day-load_days tokens "llama" "2025-01-31" tokens-IsTracker

abbrev requests : List Scopes.Call
requests =
    records "llama" 0
    ∷ reads_day "gemma" 5
    ∷ records "llama" 70000000
    ∷ records "gemma" 70000000
    ∷ []

abbrev quota : QuotaTracker
quota = update Quota.new "llama" (some 5) none none none 0

abbrev uses : List Use
uses = ("llama", (2, (100, 10))) ∷ ("gemma", (1, (7, 20))) ∷ ("llama", (1, (3, 30))) ∷ []

get_remaining-run_example : get_remaining (Exhaustion.run quota uses) "llama" ≡ (
  spend (get_remaining quota "llama").0 (sum_of (requests_of "llama") uses),
  spend (get_remaining quota "llama").1 (sum_of (tokens_of "llama") uses),
)
get_remaining-run_example = get_remaining-run uses quota "llama"

-- Two requests and a check at once, with a limit of two, and one after the window.
abbrev throttled : List Sliding.Call
throttled = Sliding.records 10 ∷ counts 10 ∷ Sliding.records 10 ∷ Sliding.records 80 ∷ []

check_rpm-recorded_example :
    (check_rpm (Throttle.run (new_throttle 2 60) throttled) 120).0
    ≡ ltb (length (recent (λ t. t) (120 - 60) (recorded [] throttled))) 2
check_rpm-recorded_example =
    check_rpm-recorded 2 60 120 throttled
      (omega arith, (omega arith, (omega arith, (omega arith, omega arith))))
