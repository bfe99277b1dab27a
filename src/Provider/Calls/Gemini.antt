-- ===== src/Provider/Calls/Gemini.antt =====
-- The calls of `GeminiService`.
use pool_gate.Common.{ℕ, String, Option, List}
use pool_gate.Float.{FloatOps}
use pool_gate.Result.{◌>>=◌}
use pool_gate.Registry.{Capability, assert_gemini_capability}
use pool_gate.Text.{Text}
use pool_gate.Rotation.{Attempt}
use pool_gate.Provider.{ChatParams, request_config, retries_of, GroqService, Answer, Visit, serve}
use pool_gate.Provider.Messages.{Message, prompt_to_messages}
use pool_gate.Provider.Calls.{checked, some_prompt, gemini_rotating, async_gemini_rotating}

module _ {ℓ} {R : Type ℓ} (f : FloatOps) (max_rpm : Option ℕ) where
  -- `invoke` of `GeminiService`
  unfoldable pub gemini_invoke :
      GroqService
      → Text
      → Option Text
      → String
      → Option ℕ
      → Option String
      → Visit
      → (List Message → String → ℕ → Attempt R)
      → Answer R × GroqService
  gemini_invoke g prompt system model retries session_id visit client =
      serve (gemini_rotating f max_rpm)
        (some_prompt prompt >>= λ _. assert_gemini_capability model Capability.chat) g model
        (retries_of g retries) session_id visit (client (prompt_to_messages prompt system))

  -- `chat` of `GeminiService`
  unfoldable pub gemini_chat :
      GroqService
      → List Message
      → String
      → ChatParams f
      → Option String
      → Visit
      → (List Message → String → ℕ → Attempt R)
      → Answer R × GroqService
  gemini_chat g messages model params session_id visit client =
      serve (gemini_rotating f max_rpm)
        (checked (assert_gemini_capability model Capability.chat) messages) g model
        (request_config f params g) session_id visit (client messages)

  -- `invoke_tools` of `GeminiService`
  unfoldable pub gemini_invoke_tools :
      GroqService
      → List Message
      → String
      → Option ℕ
      → Option String
      → Visit
      → (List Message → String → ℕ → Attempt R)
      → Answer R × GroqService
  gemini_invoke_tools g messages model retries session_id visit client =
      serve (gemini_rotating f max_rpm) (assert_gemini_capability model Capability.tools) g model
        (retries_of g retries) session_id visit (client messages)

  -- `async_invoke` of `GeminiService`
  unfoldable pub async_gemini_invoke :
      GroqService
      → Text
      → Option Text
      → String
      → Option ℕ
      → Option String
      → Visit
      → (List Message → String → ℕ → Attempt R)
      → Answer R × GroqService
  async_gemini_invoke g prompt system model retries session_id visit client =
      serve (async_gemini_rotating f max_rpm)
        (some_prompt prompt >>= λ _. assert_gemini_capability model Capability.chat) g model
        (retries_of g retries) session_id visit (client (prompt_to_messages prompt system))

  -- `async_chat` of `GeminiService`
  unfoldable pub async_gemini_chat :
      GroqService
      → List Message
      → String
      → ChatParams f
      → Option String
      → Visit
      → (List Message → String → ℕ → Attempt R)
      → Answer R × GroqService
  async_gemini_chat g messages model params session_id visit client =
      serve (async_gemini_rotating f max_rpm)
        (checked (assert_gemini_capability model Capability.chat) messages) g model
        (request_config f params g) session_id visit (client messages)

  -- `async_invoke_tools` of `GeminiService`
  unfoldable pub async_gemini_invoke_tools :
      GroqService
      → List Message
      → String
      → Option ℕ
      → Option String
      → Visit
      → (List Message → String → ℕ → Attempt R)
      → Answer R × GroqService
  async_gemini_invoke_tools g messages model retries session_id visit client =
      serve (async_gemini_rotating f max_rpm) (assert_gemini_capability model Capability.tools) g
        model (retries_of g retries) session_id visit (client messages)
