-- ===== src/Provider/Batch.antt =====
-- `batch_chat` of poolgate/services/gemini_provider.py, with `BatchResult` and `BatchSummary` of
-- poolgate/schemas/common/runtime.py. The text that `str` gives of an exception is a parameter.
pub mod Counts
pub mod Noted
pub mod Totals
use pool_gate.Common.{
  ℕ, zero, suc, ◌+◌, ◌-◌, String, Bool, true, false, Option, none, some, List, [], ◌∷◌, ◌++◌,
  length, sum_of, if◌then◌else◌,
}
use pool_gate.Float.{FloatOps}
use pool_gate.Result.{Result, ok, err}
use pool_gate.Text.{Text}
use pool_gate.Rotation.{Attempt, responded, exhausted_retries, passed_on}
use pool_gate.Provider.Response.{TokenUsage, GroqResponse}
use pool_gate.Provider.{GroqService, Answer, refused, finished, Visit, retries_of}
use pool_gate.Provider.Messages.{Message}
use pool_gate.Provider.Calls.Gemini.{gemini_invoke}

pub record BatchResult : Type 0 where
  pub index : ℕ
  pub response : Option GroqResponse
  pub error : Option Text
  pub success : Bool

pub record BatchSummary : Type 0 where
  pub total : ℕ
  pub succeeded : ℕ
  pub failed : ℕ
  pub results : List BatchResult
  pub total_tokens : TokenUsage
  pub total_latency : ℕ

abbrev pub success_result : ℕ → GroqResponse → BatchResult
success_result index r = record { index = index; response = some r; error = none; success = true }

abbrev pub error_result : ℕ → Text → BatchResult
error_result index text = record {
  index = index;
  response = none;
  error = some text;
  success = false;
}

-- The variables of the loop.
pub record Tally : Type 0 where
  pub results : List BatchResult
  pub total_tokens : TokenUsage
  pub total_latency : ℕ

abbrev pub no_tally : Tally
no_tally = record {
  results = [];
  total_tokens = record { prompt_tokens = 0; completion_tokens = 0; total_tokens = 0 };
  total_latency = 0;
}

unfoldable pub note_response : ℕ → GroqResponse → Tally → Tally
note_response index r t = record {
  results = t.results ++ success_result index r ∷ [];
  total_tokens = record {
    prompt_tokens = t.total_tokens.prompt_tokens + r.usage.prompt_tokens;
    completion_tokens = t.total_tokens.completion_tokens + r.usage.completion_tokens;
    total_tokens = t.total_tokens.total_tokens + r.usage.total_tokens;
  };
  total_latency = t.total_latency + r.latency;
}

unfoldable pub note_error : ℕ → Text → Tally → Tally
note_error index text t = record t { results = t.results ++ error_result index text ∷ [] }

-- `sum(1 for r in results if r.success)`
abbrev pub one_if_success : BatchResult → ℕ
one_if_success r = if r.success then 1 else 0

abbrev pub successes : List BatchResult → ℕ
successes results = sum_of one_if_success results

unfoldable pub summary_of : ℕ → Tally → BatchSummary
summary_of total t = record {
  total = total;
  succeeded = successes t.results;
  failed = total - successes t.results;
  results = t.results;
  total_tokens = t.total_tokens;
  total_latency = t.total_latency;
}

module _ (text_of : Answer GroqResponse → Text) where
  -- What follows a call of `invoke`: its response, or the exception that it raised.
  unfoldable pub note_answer : ℕ → Answer GroqResponse → Tally → Tally
  note_answer index (finished (responded r)) t = note_response index r t
  note_answer index (finished (exhausted_retries last_exc)) t =
      note_error index (text_of (finished (exhausted_retries last_exc))) t
  note_answer index (finished (passed_on exc)) t =
      note_error index (text_of (finished (passed_on exc))) t
  note_answer index (refused e) t = note_error index (text_of (refused e)) t

  module _ (invoke : ℕ → Text → GroqService → Answer GroqResponse × GroqService) where
    unfoldable pub batch_loop : ℕ → List Text → Tally → GroqService → Tally × GroqService
    batch_loop index [] t g = (t, g)
    batch_loop index (prompt ∷ prompts) t g =
        let (answer, g') = invoke index prompt g in
        batch_loop (index + 1) prompts (note_answer index answer t) g'

  -- The loop of `batch_chat`, with the config of the batch, which may be invalid.
  unfoldable pub batch_with :
      FloatOps
      → Option ℕ
      → GroqService
      → List Text
      → String
      → Option Text
      → Result ℕ
      → Option String
      → (ℕ → Visit)
      → (ℕ → List Message → String → ℕ → Attempt GroqResponse)
      → Result BatchSummary × GroqService
  batch_with f max_rpm g prompts model system (err e) session_id visit client = (err e, g)
  batch_with f max_rpm g prompts model system (ok retries) session_id visit client =
      let (tally, g') =
        batch_loop
          (λ index prompt h.
            gemini_invoke f max_rpm h prompt system model (some retries) session_id (visit index)
              (client index))
          0 prompts no_tally g in
      (ok (summary_of (length prompts) tally), g')

  unfoldable pub batch_chat :
      FloatOps
      → Option ℕ
      → GroqService
      → List Text
      → String
      → Option Text
      → Option ℕ
      → Option String
      → (ℕ → Visit)
      → (ℕ → List Message → String → ℕ → Attempt GroqResponse)
      → Result BatchSummary × GroqService
  batch_chat f max_rpm g prompts model system retries session_id visit client =
      batch_with f max_rpm g prompts model system (retries_of g retries) session_id visit client
