-- ===== src/Session/Accounts.antt =====
-- The counters of a session, over any sequence of its methods.
use pool_gate.Common.{ℕ, ◌+◌, ◌≤◌, ◌≡◌, refl, String, Bool, List, [], ◌∷◌, arith, sum_of}
use pool_gate.Dict.{get_or}
use pool_gate.Dict.Sums.{sum_of-put}
use pool_gate.Session.{
  SessionUsageTracker, new_session, no_usage, use_model, record_success, record_failure,
}

pub data Call : Type 0 where
  succeeds : String → ℕ → ℕ → ℕ → Bool → ℕ → Call
  fails : Bool → ℕ → Call

unfoldable pub step : SessionUsageTracker → Call → SessionUsageTracker
step s (succeeds model i o latency retried now) = record_success s model i o latency retried now
step s (fails retried now) = record_failure s retried now

unfoldable pub run : SessionUsageTracker → List Call → SessionUsageTracker
run s [] = s
run s (c ∷ cs) = run (step s c) cs

-- Every request is a success or a failure, and the models' counters account for every success and
-- every token.
pub record IsBalanced (s : SessionUsageTracker) : Type 0 where
  pub requests : s.total_requests ≡ s.successful_requests + s.failed_requests
  pub retries : s.retries ≤ s.total_requests
  pub models : sum_of (λ e. e.1.request_count) s.model_stats ≡ s.successful_requests
  pub tokens : sum_of (λ e. e.1.tokens) s.model_stats ≡ s.input_tokens + s.output_tokens

step-IsBalanced : (s : SessionUsageTracker) (c : Call) → IsBalanced s → IsBalanced (step s c)
unfolding step record_success record_failure use_model
step-IsBalanced s (fails retried now) h = ground arith
step-IsBalanced s (succeeds model i o latency retried now) h =
    let stat = get_or s.model_stats model no_usage in
    record {
      requests = omega (arith, h.requests);
      retries = ground (arith, h.retries);
      models = omega (
        arith,
        h.models,
        sum_of-put (λ t. t.request_count) s.model_stats model (use_model stat (i + o) latency)
            no_usage refl,
      );
      tokens = omega (
        arith,
        h.tokens,
        sum_of-put (λ t. t.tokens) s.model_stats model (use_model stat (i + o) latency) no_usage
            refl,
      );
    }

run-IsBalanced_from :
    (cs : List Call) (s : SessionUsageTracker) → IsBalanced s → IsBalanced (run s cs)
unfolding run
run-IsBalanced_from [] s h = h
run-IsBalanced_from (c ∷ cs) s h = run-IsBalanced_from cs (step s c) (step-IsBalanced s c h)

-- Over any successes and failures of a new session, on any models, its requests are its successes
-- and failures, at most as many are later attempts, and the models' counters add up to its successes
-- and its tokens.
pub run-IsBalanced :
    (cs : List Call) (session_id : String) (now expires_at : ℕ)
    → IsBalanced (run (new_session session_id now expires_at) cs)
unfolding new_session
run-IsBalanced cs session_id now expires_at =
    run-IsBalanced_from cs (new_session session_id now expires_at) (record {
      requests = omega arith;
      retries = omega arith;
      models = refl;
      tokens = omega arith;
    })
