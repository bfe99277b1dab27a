-- ===== src/Provider/Batch/Noted.antt =====
-- What the loop of a batch keeps, result by result.
use pool_gate.Common.{
  ℕ, zero, suc, ◌+◌, ◌≤◌, ◌≡◌, refl, ap, ◌∙◌, Option, none, some, List, [], ◌∷◌, ◌++◌, map, length,
  sum_of, length-append, arith,
}
use mathlib.Core.List.{map-append}
use pool_gate.Text.{Text}
use pool_gate.Tracking.Usage.{UsageTracker}
use pool_gate.Rotation.{responded}
use pool_gate.Rotation.Accounts.{Recorded}
use pool_gate.Provider.Response.{GroqResponse}
use pool_gate.Provider.Batch.{
  BatchResult, success_result, error_result, Tally, no_tally, note_response, note_error, successes,
  one_if_success,
}

-- `list(range(n))`
abbrev pub range : ℕ → List ℕ
range zero = []
range (suc n) = range n ++ n ∷ []

-- What the results' responses report: `sum(h(r.response) for r in results if r.success)`.
abbrev pub of_response : (GroqResponse → ℕ) → Option GroqResponse → ℕ
of_response h none = 0
of_response h (some r) = h r

abbrev pub reported : (GroqResponse → ℕ) → List BatchResult → ℕ
reported h results = sum_of (λ b. of_response h b.response) results

pub sum_of-snoc {ℓ} :
    {A : Type ℓ} (h : A → ℕ) (xs : List A) (x : A) → sum_of h (xs ++ x ∷ []) ≡ sum_of h xs + h x
sum_of-snoc h [] x = omega arith
sum_of-snoc h (y ∷ ys) x = omega (arith, sum_of-snoc h ys x)

reported-snoc :
    (h : GroqResponse → ℕ) (bs : List BatchResult) (b : BatchResult)
    → reported h (bs ++ b ∷ []) ≡ reported h bs + of_response h b.response
reported-snoc h bs b = sum_of-snoc (λ c. of_response h c.response) bs b

indices-snoc :
    (index : ℕ) (bs : List BatchResult) (b : BatchResult)
    → b.index ≡ index
    → map (λ (b : BatchResult). b.index) bs ≡ range index
    → map (λ (b : BatchResult). b.index) (bs ++ b ∷ []) ≡ range (index + 1)
indices-snoc index bs b e h =
    map-append (λ (b : BatchResult). b.index) bs (b ∷ [])
    ∙ ap (λ is. is ++ b.index ∷ []) h
    ∙ ap (λ i. range index ++ i ∷ []) e
    ∙ ap range {x = suc index} {y = index + 1} (omega arith)

-- After these many prompts, of a service whose usage tracker was the first one.
pub record Noted (u : UsageTracker) (index : ℕ) (t : Tally) (u' : UsageTracker) : Type 0 where
  pub indices : map (λ (b : BatchResult). b.index) t.results ≡ range index
  pub counted : length t.results ≡ index
  pub at_most : successes t.results ≤ index
  pub prompt : t.total_tokens.prompt_tokens ≡ reported (λ r. r.usage.prompt_tokens) t.results
  pub completion :
      t.total_tokens.completion_tokens ≡ reported (λ r. r.usage.completion_tokens) t.results
  pub tokens : t.total_tokens.total_tokens ≡ reported (λ r. r.usage.total_tokens) t.results
  pub latency : t.total_latency ≡ reported (λ r. r.latency) t.results
  pub succeeded :
      u'.lifetime.successful_requests ≡ u.lifetime.successful_requests + successes t.results
  pub failed :
      u'.lifetime.failed_requests + successes t.results ≤ u.lifetime.failed_requests + index

pub start : (u : UsageTracker) → Noted u 0 no_tally u
start u = record {
  indices = refl;
  counted = refl;
  at_most = omega arith;
  prompt = refl;
  completion = refl;
  tokens = refl;
  latency = refl;
  succeeded = omega arith;
  failed = omega arith;
}

pub note_response-Noted :
    (u u₁ u' : UsageTracker) (index : ℕ) (t : Tally) (r : GroqResponse)
    → Noted u index t u₁
    → Recorded u₁ (responded r) u'
    → Noted u (index + 1) (note_response index r t) u'
unfolding note_response
note_response-Noted u u₁ u' index t r n c =
    let new = success_result index r in
    record {
      indices = indices-snoc index t.results new refl n.indices;
      counted = omega (arith, length-append t.results (new ∷ []), n.counted);
      at_most = omega (arith, sum_of-snoc one_if_success t.results new, n.at_most);
      prompt = omega (arith, reported-snoc (λ r. r.usage.prompt_tokens) t.results new, n.prompt);
      completion =
          omega (arith, reported-snoc (λ r. r.usage.completion_tokens) t.results new, n.completion);
      tokens = omega (arith, reported-snoc (λ r. r.usage.total_tokens) t.results new, n.tokens);
      latency = omega (arith, reported-snoc (λ r. r.latency) t.results new, n.latency);
      succeeded = omega (arith, sum_of-snoc one_if_success t.results new, n.succeeded, c.1);
      failed = omega (arith, sum_of-snoc one_if_success t.results new, n.failed, c.2);
    }

pub note_error-Noted :
    (u u₁ u' : UsageTracker) (index : ℕ) (t : Tally) (text : Text)
    → Noted u index t u₁
    → u'.lifetime.successful_requests ≡ u₁.lifetime.successful_requests
    → u'.lifetime.failed_requests ≤ u₁.lifetime.failed_requests + 1
    → Noted u (index + 1) (note_error index text t) u'
unfolding note_error
note_error-Noted u u₁ u' index t text n same more =
    let new = error_result index text in
    record {
      indices = indices-snoc index t.results new refl n.indices;
      counted = omega (arith, length-append t.results (new ∷ []), n.counted);
      at_most = omega (arith, sum_of-snoc one_if_success t.results new, n.at_most);
      prompt = omega (arith, reported-snoc (λ r. r.usage.prompt_tokens) t.results new, n.prompt);
      completion =
          omega (arith, reported-snoc (λ r. r.usage.completion_tokens) t.results new, n.completion);
      tokens = omega (arith, reported-snoc (λ r. r.usage.total_tokens) t.results new, n.tokens);
      latency = omega (arith, reported-snoc (λ r. r.latency) t.results new, n.latency);
      succeeded = omega (arith, sum_of-snoc one_if_success t.results new, n.succeeded, same);
      failed = omega (arith, sum_of-snoc one_if_success t.results new, n.failed, more);
    }
