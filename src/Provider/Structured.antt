-- ===== src/Provider/Structured.antt =====
-- `structured` of poolgate/services/provider.py and gemini_provider.py: the loop that sends a model its
-- own answer back with the error of the parser. `schema.model_validate_json` is the schema's: it gives
-- a value, or the text of the exception that the loop catches.
pub mod Rounds
use pool_gate.Common.{
  ℕ, zero, suc, ◌+◌, String, Option, none, some, List, [], ◌∷◌, ◌++◌, ◌⊎◌, inl, inr,
}
use pool_gate.Float.{FloatOps}
use pool_gate.Result.{Error, Result, ok, err}
use pool_gate.Retry.{Exception}
use pool_gate.Registry.{Capability, assert_capability, assert_gemini_capability}
use pool_gate.Text.{Text, codes}
use pool_gate.Books.{Request, Moment}
use pool_gate.Rotation.{Attempt, Service, Outcome, responded, exhausted_retries, passed_on}
use pool_gate.Provider.Response.{GroqResponse}
use pool_gate.Provider.{GroqService, Visit, Loop, retries_of, resolve_session}
use pool_gate.Provider.Messages.{Message, prompt_to_messages, extract_json, sanitize_parse_error}
use pool_gate.Provider.Calls.{rotating, async_rotating, gemini_rotating, async_gemini_rotating}

-- How the call ends: with a value, with `StructuredOutputError` and the last raw answer, with an
-- exception of a rotation, or refused before the first.
pub data Structured {ℓ} (T : Type ℓ) : Type ℓ where
  parsed : T → Structured T
  unparsed : Option Text → Structured T
  exhausted : Option Exception → Structured T
  raised_on : Exception → Structured T
  refused_call : Error → Structured T

-- `f"Fix the JSON only. Parse error: {...}"`
unfoldable pub repair_text : Text → Text
repair_text error = codes "Fix the JSON only. Parse error: " ++ sanitize_parse_error error 200

-- The messages of the next round.
unfoldable pub repaired : List Message → Text → Text → List Message
repaired messages answer error =
    messages
    ++ record { role = "assistant"; content = answer }
      ∷ record { role = "user"; content = repair_text error }
      ∷ []

module _ {ℓ} {T : Type ℓ} (run : Loop GroqResponse) (validate : Text → T ⊎ Text) (request : Request)
    (retries : ℕ) (client : ℕ → List Message → ℕ → Attempt GroqResponse)
    (closing : ℕ → Moment) where
  -- After a round, with the loop that goes on with other messages.
  unfoldable pub after_round :
      (List Message → Option Text → Service → Structured T × Service)
      → List Message
      → Outcome GroqResponse × Service
      → Structured T × Service
  after_round next messages (exhausted_retries last_exc, s) = (exhausted last_exc, s)
  after_round next messages (passed_on exc, s) = (raised_on exc, s)
  after_round next messages (responded r, s) = elim (validate (extract_json r.text)) [
    | inl value ↦ (parsed value, s)
    | inr error ↦ next (repaired messages r.text error) (some r.text) s
  ]

  -- The loop, with the rounds that are left and the index of the next.
  unfoldable pub structured_loop :
      ℕ → ℕ → List Message → Option Text → Service → Structured T × Service
  structured_loop zero n messages raw s = (unparsed raw, s)
  structured_loop (suc left) n messages raw s =
      after_round (structured_loop left (n + 1)) messages
        (run request s retries (client n messages) (closing n))

module _ {ℓ} {T : Type ℓ} (run : Loop GroqResponse) (validate : Text → T ⊎ Text) where
  -- What follows the look-up of the session.
  unfoldable pub structured_in :
      String
      → Result ℕ
      → ℕ
      → List Message
      → (String → ℕ → List Message → ℕ → Attempt GroqResponse)
      → (ℕ → Moment)
      → Result String × GroqService
      → Structured T × GroqService
  structured_in model config json_retries messages client closing (err e, g) = (refused_call e, g)
  structured_in model (err e) json_retries messages client closing (ok sid, g) = (refused_call e, g)
  structured_in model (ok retries) json_retries messages client closing (ok sid, g) =
      let (end, service) =
        structured_loop run validate (record { model = model; session_id = sid }) retries
          (client sid) closing (json_retries + 1) 0 messages none g.service in
      (end, record g { service = service })

  -- The call after the check of the model.
  unfoldable pub structured_call :
      Result (Unit {0})
      → GroqService
      → Text
      → Option Text
      → String
      → Option ℕ
      → ℕ
      → Option String
      → Visit
      → (String → ℕ → List Message → ℕ → Attempt GroqResponse)
      → (ℕ → Moment)
      → Structured T × GroqService
  structured_call (err e) g prompt system model retries json_retries session_id visit client
        closing =
      (refused_call e, g)
  structured_call (ok _) g prompt system model retries json_retries session_id visit client
        closing =
      structured_in model (retries_of g retries) json_retries (prompt_to_messages prompt system)
        client closing (resolve_session g session_id visit.drawn visit.opens_at)

module _ {ℓ} {T : Type ℓ} (f : FloatOps) (max_rpm : Option ℕ) (validate : Text → T ⊎ Text) where
  -- `structured` of `GroqService`
  unfoldable pub structured :
      GroqService
      → Text
      → Option Text
      → String
      → Option ℕ
      → ℕ
      → Option String
      → Visit
      → (String → ℕ → List Message → ℕ → Attempt GroqResponse)
      → (ℕ → Moment)
      → Structured T × GroqService
  structured g prompt system model retries json_retries session_id visit client closing =
      structured_call (rotating f max_rpm) validate (assert_capability model Capability.structured)
        g prompt system model retries json_retries session_id visit client closing

  -- `async_structured` of `GroqService`
  unfoldable pub async_structured :
      GroqService
      → Text
      → Option Text
      → String
      → Option ℕ
      → ℕ
      → Option String
      → Visit
      → (String → ℕ → List Message → ℕ → Attempt GroqResponse)
      → (ℕ → Moment)
      → Structured T × GroqService
  async_structured g prompt system model retries json_retries session_id visit client closing =
      structured_call (async_rotating f max_rpm) validate
        (assert_capability model Capability.structured) g prompt system model retries json_retries
        session_id visit client closing

  -- `structured` of `GeminiService`
  unfoldable pub gemini_structured :
      GroqService
      → Text
      → Option Text
      → String
      → Option ℕ
      → ℕ
      → Option String
      → Visit
      → (String → ℕ → List Message → ℕ → Attempt GroqResponse)
      → (ℕ → Moment)
      → Structured T × GroqService
  gemini_structured g prompt system model retries json_retries session_id visit client closing =
      structured_call (gemini_rotating f max_rpm) validate
        (assert_gemini_capability model Capability.structured) g prompt system model retries
        json_retries session_id visit client closing

  -- `async_structured` of `GeminiService`
  unfoldable pub async_gemini_structured :
      GroqService
      → Text
      → Option Text
      → String
      → Option ℕ
      → ℕ
      → Option String
      → Visit
      → (String → ℕ → List Message → ℕ → Attempt GroqResponse)
      → (ℕ → Moment)
      → Structured T × GroqService
  async_gemini_structured g prompt system model retries json_retries session_id visit client
        closing =
      structured_call (async_gemini_rotating f max_rpm) validate
        (assert_gemini_capability model Capability.structured) g prompt system model retries
        json_retries session_id visit client closing
