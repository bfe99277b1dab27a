-- ===== src/Provider/Batch/Totals.antt =====
-- What a batch reports, against its results and against the usage tracker.
use pool_gate.Common.{
  ℕ, ◌+◌, ◌≤◌, ◌≡◌, refl, ap, ◌∙◌, String, Option, some, List, [], ◌∷◌, map, length, arith, subst,
}
use pool_gate.Float.{FloatOps}
use pool_gate.Result.{Result, ok, err, ◌>>=◌}
use pool_gate.Text.{Text}
use pool_gate.Tracking.Usage.{UsageTracker}
use pool_gate.Registry.{Capability, assert_gemini_capability}
use pool_gate.Rotation.{Attempt, responded, exhausted_retries, passed_on}
use pool_gate.Gemini.{gemini_rotation-Recorded}
use pool_gate.Provider.Response.{GroqResponse}
use pool_gate.Provider.{GroqService, Answer, refused, finished, Visit, retries_of}
use pool_gate.Provider.Messages.{Message, prompt_to_messages}
use pool_gate.Provider.Calls.{gemini_rotating, some_prompt}
use pool_gate.Provider.Calls.Gemini.{gemini_invoke}
use pool_gate.Provider.Batch.{
  BatchResult, BatchSummary, Tally, no_tally, summary_of, note_answer, batch_loop, batch_with,
  batch_chat,
}
use pool_gate.Provider.Batch.Counts.{used, Counts, serve-Counts}
use pool_gate.Provider.Batch.Noted.{
  range, reported, Noted, start, note_response-Noted, note_error-Noted,
}

module _ (text_of : Answer GroqResponse → Text) where
  note_answer-Noted :
      (u u₁ u' : UsageTracker) (index : ℕ) (t : Tally) (answer : Answer GroqResponse)
      → Noted u index t u₁
      → Counts u₁ answer u'
      → Noted u (index + 1) (note_answer text_of index answer t) u'
  unfolding note_answer
  note_answer-Noted u u₁ u' index t (finished (responded r)) n c =
      note_response-Noted u u₁ u' index t r n c
  note_answer-Noted u u₁ u' index t (finished (exhausted_retries last_exc)) n c =
      note_error-Noted u u₁ u' index t _ n c.1 (omega (arith, c.2))
  note_answer-Noted u u₁ u' index t (finished (passed_on exc)) n c =
      note_error-Noted u u₁ u' index t _ n (ap (λ v. v.lifetime.successful_requests) c)
        (omega (arith, ap (λ v. v.lifetime.failed_requests) c))
  note_answer-Noted u u₁ u' index t (refused e) n c =
      note_error-Noted u u₁ u' index t _ n (ap (λ v. v.lifetime.successful_requests) c)
        (omega (arith, ap (λ v. v.lifetime.failed_requests) c))

  module _ (invoke : ℕ → Text → GroqService → Answer GroqResponse × GroqService)
      (counts : (n : ℕ) (p : Text) (g : GroqService)
        → Counts (used g) (invoke n p g).0 (used (invoke n p g).1)) where
    batch_loop-Noted :
        (u : UsageTracker) (index : ℕ) (prompts : List Text) (t : Tally) (g : GroqService)
        → Noted u index t (used g)
        → let result = batch_loop text_of invoke index prompts t g in
          Noted u (length prompts + index) result.0 (used result.1)
    unfolding batch_loop
    batch_loop-Noted u index [] t g n = subst (λ (m : ℕ). Noted u m t (used g)) (omega arith) n
    batch_loop-Noted u index (prompt ∷ prompts) t g n =
        let (answer, g') = invoke index prompt g in
        subst
          (λ (m : ℕ).
            let result =
              batch_loop text_of invoke (index + 1) prompts (note_answer text_of index answer t)
                g' in
            Noted u m result.0 (used result.1))
          (omega arith)
          (batch_loop-Noted u (index + 1) prompts (note_answer text_of index answer t) g'
            (note_answer-Noted u (used g) (used g') index t answer n (counts index prompt g)))

  -- What a batch gives: an exception that its config gave before the first call, or a summary.
  abbrev pub Totals :
      Result ℕ → GroqService → List Text → Result BatchSummary × GroqService → Type 0
  Totals config g prompts (err e, g') = (config ≡ err e) × (g' ≡ g)
  Totals config g prompts (ok summary, g') =
      ((retries : ℕ) × (config ≡ ok retries))
      × (map (λ (b : BatchResult). b.index) summary.results ≡ range (length prompts))
      × (summary.total ≡ length prompts)
      × (summary.succeeded + summary.failed ≡ summary.total)
      × (summary.total_tokens.prompt_tokens ≡ reported (λ r. r.usage.prompt_tokens) summary.results)
      × (summary.total_tokens.completion_tokens
          ≡ reported (λ r. r.usage.completion_tokens) summary.results)
      × (summary.total_tokens.total_tokens ≡ reported (λ r. r.usage.total_tokens) summary.results)
      × (summary.total_latency ≡ reported (λ r. r.latency) summary.results)
      × ((used g').lifetime.successful_requests
          ≡ (used g).lifetime.successful_requests + summary.succeeded)
      × ((used g').lifetime.failed_requests ≤ (used g).lifetime.failed_requests + summary.failed)

  batch_with-Totals :
      (f : FloatOps) (max_rpm : Option ℕ) (g : GroqService) (prompts : List Text) (model : String)
      (system : Option Text) (config : Result ℕ) (session_id : Option String) (visit : ℕ → Visit)
      (client : ℕ → List Message → String → ℕ → Attempt GroqResponse)
      → Totals config g prompts
          (batch_with text_of f max_rpm g prompts model system config session_id visit client)
  unfolding batch_with summary_of gemini_invoke
  batch_with-Totals f max_rpm g prompts model system (err e) session_id visit client = (refl, refl)
  batch_with-Totals f max_rpm g prompts model system (ok retries) session_id visit client =
      let n =
        batch_loop-Noted
          (λ index prompt h.
            gemini_invoke f max_rpm h prompt system model (some retries) session_id (visit index)
              (client index))
          (λ index prompt h.
            serve-Counts (gemini_rotating f max_rpm)
              (λ request s r env closing.
                gemini_rotation-Recorded request f max_rpm s r env closing)
              (some_prompt prompt >>= λ _. assert_gemini_capability model Capability.chat) h model
              (ok retries) session_id (visit index)
              (client index (prompt_to_messages prompt system)))
          (used g) 0 prompts no_tally g (start (used g)) in
      (
        (retries, refl),
        n.indices ∙ ap range {x = length prompts + 0} {y = length prompts} (omega arith),
        refl,
        omega (arith, n.at_most),
        n.prompt,
        n.completion,
        n.tokens,
        n.latency,
        n.succeeded,
        omega (arith, n.failed, n.at_most),
      )

  -- A batch whose config is not valid raises, and changes nothing. Any other has a summary: one result for
  -- each prompt, in the order of the prompts, each a success or a failure; its tokens and its latency
  -- are the sums of those of its responses. Each success is one more success in the usage tracker, and
  -- the failures there grow by no more than the failures of the batch.
  pub batch_chat_lem :
      (f : FloatOps) (max_rpm : Option ℕ) (g : GroqService) (prompts : List Text) (model : String)
      (system : Option Text) (retries : Option ℕ) (session_id : Option String) (visit : ℕ → Visit)
      (client : ℕ → List Message → String → ℕ → Attempt GroqResponse)
      → Totals
          (retries_of g retries)
          g
          prompts
          (batch_chat text_of f max_rpm g prompts model system retries session_id visit client)
  unfolding batch_chat
  batch_chat_lem f max_rpm g prompts model system retries session_id visit client =
      batch_with-Totals f max_rpm g prompts model system (retries_of g retries) session_id visit
        client
