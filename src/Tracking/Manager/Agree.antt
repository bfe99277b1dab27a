-- ===== src/Tracking/Manager/Agree.antt =====
-- The trackers of a manager agree on every day.
use pool_gate.Common.{
  ℕ, ◌+◌, ◌≡◌, refl, ◌∙◌, String, Bool, true, false, Option, none, some, List, [], ◌∷◌, arith,
  str_eq, if◌then◌else◌, Bool-cases, inl, inr, sum_of,
}
use pool_gate.Dict.{get_or}
use pool_gate.Tracking.Usage.{UsageTracker, snapshot_for_day, new_day, success_on, failure_on}
use pool_gate.Tracking.Usage
use pool_gate.Tracking.Usage.Days.{counted, day_of, snapshot_for_day-step, same_day}
use pool_gate.Tracking.Usage.Days
use pool_gate.Tracking.Token.Totals.{total, if_day, if_day-zero, total-record_tokens}
use pool_gate.Tracking.Account.{AccountTracker}
use pool_gate.Tracking.Account.Totals.{requests_on, tokens_on, totals-record_use}
use pool_gate.Tracking.Manager.{
  TrackingManager, new, record_success, record_failure, use_key, one_day,
}

-- A call of a method: the model, the tokens of both kinds, the key, the scope, whether it was a later
-- attempt, the clock and the date. Each tracker reads the date for itself; a call that does not run across
-- midnight has the same for all of them.
pub data Call : Type 0 where
  succeeds : String → ℕ → ℕ → Option String → Option String → Bool → ℕ → String → Call
  fails : String → Option String → Option String → Bool → ℕ → String → Call

unfoldable pub step : TrackingManager → Call → TrackingManager
step m (succeeds model i o key scope retried now today) =
    record_success m model i o key scope retried now (one_day today)
step m (fails model key scope retried now today) =
    record_failure m model key scope retried now (one_day today)

unfoldable pub run : TrackingManager → List Call → TrackingManager
run m [] = m
run m (c ∷ cs) = run (step m c) cs

-- One for a call that names no key.
abbrev pub unnamed : Option String → ℕ
unnamed none = 1
unnamed (some k) = if str_eq k "" then 1 else 0

abbrev pub if_unnamed : Option String → ℕ → ℕ
if_unnamed none n = n
if_unnamed (some k) n = if str_eq k "" then n else 0

-- What the keys lack of a call on a date: a request, and its tokens.
abbrev pub missed_requests : String → Call → ℕ
missed_requests date (succeeds model i o key scope retried now today) =
    if_day today date (unnamed key)
missed_requests date (fails model key scope retried now today) = if_day today date (unnamed key)

abbrev pub missed_tokens : String → Call → ℕ
missed_tokens date (succeeds model i o key scope retried now today) =
    if_day today date (if_unnamed key (i + o))
missed_tokens date (fails model key scope retried now today) = 0

-- The trackers' totals of a date are those of the usage tracker, but for what the keys lack.
pub record AgreeOn (date : String) (m : TrackingManager) (requests tokens : ℕ) : Type 0 where
  pub tokens_in :
      total date true m.token_tracker ≡ (snapshot_for_day m.usage_tracker date).tokens_in
  pub tokens_out :
      total date false m.token_tracker ≡ (snapshot_for_day m.usage_tracker date).tokens_out
  pub key_requests :
      requests_on date m.account_tracker + requests
      ≡ (snapshot_for_day m.usage_tracker date).requests
  pub key_tokens :
      tokens_on date m.account_tracker + tokens
      ≡ (snapshot_for_day m.usage_tracker date).tokens_in
        + (snapshot_for_day m.usage_tracker date).tokens_out

totals-use_key :
    (date : String) (t : AccountTracker) (key : Option String) (tokens now : ℕ) (today : String)
    → (requests_on date (use_key t key tokens now today) + if_day today date (unnamed key)
        ≡ requests_on date t + if_day today date 1)
      × (tokens_on date (use_key t key tokens now today) + if_day today date (if_unnamed key tokens)
          ≡ tokens_on date t + if_day today date tokens)
unfolding use_key
totals-use_key date t none tokens now today = (refl, refl)
totals-use_key date t (some k) tokens now today = elim (Bool-cases (str_eq k "")) [
  | inl h ↦ rw (h, use_key) (refl, refl)
  | inr h ↦
      rw (h, use_key)
        (let (a, b) = totals-record_use date t k tokens now today in
          (omega (arith, if_day-zero today date), omega (arith, if_day-zero today date)))
]

-- What a call of the usage tracker adds to a date.
snapshot_for_day-parts :
    (u : UsageTracker) (c : Days.Call) (date : String) (requests i o : ℕ)
    → ((b : Usage.DailyBucket)
        → ((counted b c).requests ≡ b.requests + requests)
          × ((counted b c).tokens_in ≡ b.tokens_in + i)
          × ((counted b c).tokens_out ≡ b.tokens_out + o))
    → let b = snapshot_for_day u date in
      let b' = snapshot_for_day (Days.step u c) date in
      (b'.requests ≡ b.requests + if_day (day_of c) date requests)
      × (b'.tokens_in ≡ b.tokens_in + if_day (day_of c) date i)
      × (b'.tokens_out ≡ b.tokens_out + if_day (day_of c) date o)
snapshot_for_day-parts u c date requests i o parts = elim (Bool-cases (str_eq (day_of c) date)) [
  | inl h ↦ rw h (rw (same_day u c date h) (parts (snapshot_for_day u date)))
  | inr h ↦
      let e : snapshot_for_day (Days.step u c) date ≡ snapshot_for_day u date =
        snapshot_for_day-step u c date ∙ rw h refl in
      rw h (rw e (omega arith, omega arith, omega arith))
]

counted_success :
    (b : Usage.DailyBucket) (today : String) (i o : ℕ) (retried : Bool)
    → ((counted b (Days.succeeds today i o retried)).requests ≡ b.requests + 1)
      × ((counted b (Days.succeeds today i o retried)).tokens_in ≡ b.tokens_in + i)
      × ((counted b (Days.succeeds today i o retried)).tokens_out ≡ b.tokens_out + o)
unfolding counted success_on
counted_success b today i o retried = (refl, refl, refl)

counted_failure :
    (b : Usage.DailyBucket) (today : String) (retried : Bool)
    → ((counted b (Days.fails today retried)).requests ≡ b.requests + 1)
      × ((counted b (Days.fails today retried)).tokens_in ≡ b.tokens_in + 0)
      × ((counted b (Days.fails today retried)).tokens_out ≡ b.tokens_out + 0)
unfolding counted failure_on
counted_failure b today retried = (refl, omega arith, omega arith)

if_day-add :
    (today date : String) (m n : ℕ)
    → if_day today date (m + n) ≡ if_day today date m + if_day today date n
if_day-add today date m n = ground arith

if_day-if_unnamed :
    (today date : String) (key : Option String) → if_day today date (if_unnamed key 0) ≡ 0
if_day-if_unnamed today date none = if_day-zero today date
if_day-if_unnamed today date (some k) = ground arith

step-AgreeOn :
    (date : String) (m : TrackingManager) (c : Call) (requests tokens : ℕ)
    → AgreeOn date m requests tokens
    → AgreeOn date (step m c) (requests + missed_requests date c) (tokens + missed_tokens date c)
unfolding step record_success record_failure Days.step
step-AgreeOn date m (succeeds model i o key scope retried now today) requests tokens h =
    let (a, b) = totals-use_key date m.account_tracker key (i + o) now today in
    let (c, d) = total-record_tokens date m.token_tracker model i o now today today in
    let (p, q, r) =
      snapshot_for_day-parts m.usage_tracker (Days.succeeds today i o retried) date 1 i o
        (λ b. counted_success b today i o retried) in
    record {
      tokens_in = omega (arith, h.tokens_in);
      tokens_out = omega (arith, h.tokens_out);
      key_requests = omega (arith, h.key_requests);
      key_tokens = omega (arith, h.key_tokens, if_day-add today date i o);
    }
step-AgreeOn date m (fails model key scope retried now today) requests tokens h =
    let (a, b) = totals-use_key date m.account_tracker key 0 now today in
    let (p, q, r) =
      snapshot_for_day-parts m.usage_tracker (Days.fails today retried) date 1 0 0
        (λ b. counted_failure b today retried) in
    record {
      tokens_in = omega (arith, h.tokens_in, if_day-zero today date);
      tokens_out = omega (arith, h.tokens_out, if_day-zero today date);
      key_requests = omega (arith, h.key_requests);
      key_tokens =
          omega (arith, h.key_tokens, if_day-zero today date, if_day-if_unnamed today date key);
    }

run_from :
    (cs : List Call) (date : String) (m : TrackingManager) (requests tokens : ℕ)
    → AgreeOn date m requests tokens
    → AgreeOn date
        (run m cs)
        (requests + sum_of (missed_requests date) cs)
        (tokens + sum_of (missed_tokens date) cs)
unfolding run
run_from [] date m requests tokens h = record {
  tokens_in = h.tokens_in;
  tokens_out = h.tokens_out;
  key_requests = omega (arith, h.key_requests);
  key_tokens = omega (arith, h.key_tokens);
}
run_from (c ∷ cs) date m requests tokens h =
    let g = run_from cs date (step m c) _ _ (step-AgreeOn date m c requests tokens h) in
    record {
      tokens_in = g.tokens_in;
      tokens_out = g.tokens_out;
      key_requests = omega (arith, g.key_requests);
      key_tokens = omega (arith, g.key_tokens);
    }

-- After any calls of the manager's methods, none of which runs across midnight, the trackers agree on
-- every date: the tokens of all models are the day's tokens, in and out, and the requests and the tokens
-- of all keys are the day's, but for those of the calls that named no key.
pub run-AgreeOn :
    (cs : List Call) (date : String)
    → AgreeOn date (run new cs) (sum_of (missed_requests date) cs) (sum_of (missed_tokens date) cs)
unfolding new Usage.new new_day snapshot_for_day get_or
run-AgreeOn cs date =
    let g =
      run_from cs date new 0 0
        (record { tokens_in = refl; tokens_out = refl; key_requests = refl; key_tokens = refl }) in
    record {
      tokens_in = g.tokens_in;
      tokens_out = g.tokens_out;
      key_requests = omega (arith, g.key_requests);
      key_tokens = omega (arith, g.key_tokens);
    }
