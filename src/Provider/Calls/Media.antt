-- ===== src/Provider/Calls/Media.antt =====
-- The calls of `GroqService` that go through the generic loop: moderation, transcription, translation
-- and synthesis.
use pool_gate.Common.{ℕ, String, Option, none, some}
use pool_gate.Float.{FloatOps}
use pool_gate.Registry.{Capability, assert_capability}
use pool_gate.Text.{Text}
use pool_gate.Rotation.{Attempt}
use pool_gate.Provider.{retries_of, GroqService, Answer, Visit, serve}
use pool_gate.Provider.Calls.{generic, async_generic}

module _ {ℓ} {R : Type ℓ} (f : FloatOps) (max_rpm : Option ℕ) where
  -- `moderate`, with the tokens that its result reports.
  unfoldable pub moderate :
      (R → ℕ × ℕ)
      → GroqService
      → Text
      → String
      → Option ℕ
      → Option String
      → Visit
      → (Text → String → ℕ → Attempt R)
      → Answer R × GroqService
  moderate tokens_of g text model retries session_id visit client =
      serve (generic f max_rpm (some tokens_of)) (assert_capability model Capability.moderation) g
        model (retries_of g retries) session_id visit (client text)

  -- `transcribe`: the payload is in the client.
  unfoldable pub transcribe :
      GroqService
      → String
      → Option ℕ
      → Option String
      → Visit
      → (String → ℕ → Attempt R)
      → Answer R × GroqService
  transcribe g model retries session_id visit client =
      serve (generic f max_rpm none) (assert_capability model Capability.transcription) g model
        (retries_of g retries) session_id visit client

  -- `translate`: the payload is in the client.
  unfoldable pub translate :
      GroqService
      → String
      → Option ℕ
      → Option String
      → Visit
      → (String → ℕ → Attempt R)
      → Answer R × GroqService
  translate g model retries session_id visit client =
      serve (generic f max_rpm none) (assert_capability model Capability.transcription) g model
        (retries_of g retries) session_id visit client

  -- `synthesize`: the payload is in the client.
  unfoldable pub synthesize :
      GroqService
      → String
      → Option ℕ
      → Option String
      → Visit
      → (String → ℕ → Attempt R)
      → Answer R × GroqService
  synthesize g model retries session_id visit client =
      serve (generic f max_rpm none) (assert_capability model Capability.synthesis) g model
        (retries_of g retries) session_id visit client

  -- `async_moderate`, with the tokens that its result reports.
  unfoldable pub async_moderate :
      (R → ℕ × ℕ)
      → GroqService
      → Text
      → String
      → Option ℕ
      → Option String
      → Visit
      → (Text → String → ℕ → Attempt R)
      → Answer R × GroqService
  async_moderate tokens_of g text model retries session_id visit client =
      serve (async_generic f max_rpm (some tokens_of))
        (assert_capability model Capability.moderation) g model (retries_of g retries) session_id
        visit (client text)

  -- `async_transcribe`: the payload is in the client.
  unfoldable pub async_transcribe :
      GroqService
      → String
      → Option ℕ
      → Option String
      → Visit
      → (String → ℕ → Attempt R)
      → Answer R × GroqService
  async_transcribe g model retries session_id visit client =
      serve (async_generic f max_rpm none) (assert_capability model Capability.transcription) g
        model (retries_of g retries) session_id visit client

  -- `async_translate`: the payload is in the client.
  unfoldable pub async_translate :
      GroqService
      → String
      → Option ℕ
      → Option String
      → Visit
      → (String → ℕ → Attempt R)
      → Answer R × GroqService
  async_translate g model retries session_id visit client =
      serve (async_generic f max_rpm none) (assert_capability model Capability.transcription) g
        model (retries_of g retries) session_id visit client

  -- `async_synthesize`: the payload is in the client.
  unfoldable pub async_synthesize :
      GroqService
      → String
      → Option ℕ
      → Option String
      → Visit
      → (String → ℕ → Attempt R)
      → Answer R × GroqService
  async_synthesize g model retries session_id visit client =
      serve (async_generic f max_rpm none) (assert_capability model Capability.synthesis) g model
        (retries_of g retries) session_id visit client
