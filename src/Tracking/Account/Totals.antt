-- ===== src/Tracking/Account/Totals.antt =====
-- The requests and tokens of all keys on a day.
use pool_gate.Common.{
  ℕ, ◌+◌, ◌≡◌, refl, ap, ◌∙◌, String, arith, str_eq, if◌then◌else◌, Bool-cases, inl, inr, sum_of,
  ◌==◌, eq_iff,
}
use pool_gate.Dict.{Dict, get_or}
use pool_gate.Dict.Laws.{get_or-put}
use pool_gate.Dict.Sums.{sum_of-put}
use pool_gate.Tracking.Account.{AccountTracker, new_key, count_on, use_state, record_use}
use pool_gate.Tracking.Token.Totals.{if_day, if_day-zero}

abbrev pub requests_on : String → AccountTracker → ℕ
requests_on date t = sum_of (λ e. get_or e.1.daily_requests date 0) t.keys

abbrev pub tokens_on : String → AccountTracker → ℕ
tokens_on date t = sum_of (λ e. get_or e.1.daily_tokens date 0) t.keys

get_or-count_on :
    (d : Dict ℕ) (today date : String) (n : ℕ)
    → get_or (count_on d today n) date 0 ≡ get_or d date 0 + if_day today date n
unfolding count_on
get_or-count_on d today date n =
    get_or-put d today date (get_or d today 0 + n) 0 ∙ (elim (Bool-cases (str_eq today date)) [
      | inl h ↦
          let e : today ≡ date = ground (arith, eq_iff today date) in
          rw h (ap (λ (k : String). get_or d k 0 + n) e)
      | inr h ↦ rw h (omega arith)
    ])

counted_tokens :
    (d : Dict ℕ) (today date : String) (tokens : ℕ)
    → get_or (if tokens == 0 then d else count_on d today tokens) date 0
      ≡ get_or d date 0 + if_day today date tokens
counted_tokens d today date tokens = elim (Bool-cases (tokens == 0)) [
  | inl h ↦ let e : tokens ≡ 0 = ground arith in rw h (rw e (omega (arith, if_day-zero today date)))
  | inr h ↦ rw h (get_or-count_on d today date tokens)
]

-- A use of a key adds one request and its tokens to the totals of its day.
pub totals-record_use :
    (date : String) (t : AccountTracker) (api_key : String) (tokens now : ℕ) (today : String)
    → (requests_on date (record_use t api_key tokens now today)
        ≡ requests_on date t + if_day today date 1)
      × (tokens_on date (record_use t api_key tokens now today)
          ≡ tokens_on date t + if_day today date tokens)
unfolding record_use use_state new_key get_or
totals-record_use date t api_key tokens now today =
    let state = get_or t.keys api_key new_key in
    (
      omega (
        arith,
        sum_of-put (λ s. get_or s.daily_requests date 0) t.keys api_key
            (use_state state tokens now today) new_key refl,
        get_or-count_on state.daily_requests today date 1,
      ),
      omega (
        arith,
        sum_of-put (λ s. get_or s.daily_tokens date 0) t.keys api_key
            (use_state state tokens now today) new_key refl,
        counted_tokens state.daily_tokens today date tokens,
      ),
    )
