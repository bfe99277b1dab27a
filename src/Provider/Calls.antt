-- ===== src/Provider/Calls.antt =====
-- The calls of `GroqService` on prompts and messages, synchronous and asynchronous, with what the
-- calls of the other children share.
pub mod Media
pub mod Gemini
pub mod Streams
use pool_gate.Common.{ℕ, String, Bool, Option, none, some, List, [], ◌∷◌}
use pool_gate.Float.{FloatOps}
use pool_gate.Result.{Result, ok, err, ◌>>=◌, missing_prompt}
use pool_gate.Registry.{Capability, assert_capability, assert_gemini_capability}
use pool_gate.Text.{Text}
use pool_gate.Rotation.{
  Attempt, run_with_rotation, async_run_with_rotation, run_rotation_generic,
  async_run_rotation_generic,
}
use pool_gate.Streams.{stream, async_stream}
use pool_gate.Pool.Key.{ApiKeyState}
use pool_gate.Gemini.{gemini_rotation, async_gemini_rotation}
use pool_gate.Provider.{
  ChatParams, request_config, retries_of, GroqService, Answer, Visit, Loop, serve,
}
use pool_gate.Provider.Messages.{Message, prompt_to_messages, validate_messages}

-- The checks of a call on messages.
abbrev pub checked : Result (Unit {0}) → List Message → Result (Unit {0})
checked capability messages = capability >>= λ _. validate_messages messages

-- `if not prompt: raise MissingPromptError`
abbrev pub some_prompt : Text → Result (Unit {0})
some_prompt [] = err missing_prompt
some_prompt (c ∷ cs) = ok tt

module _ {ℓ} {R : Type ℓ} (f : FloatOps) (max_rpm : Option ℕ) where
  abbrev pub rotating : Loop R
  rotating request = run_with_rotation request f max_rpm

  abbrev pub async_rotating : Loop R
  async_rotating request = async_run_with_rotation request f max_rpm

  -- The generic loop, with an extractor of tokens or without.
  abbrev pub generic : Option (R → ℕ × ℕ) → Loop R
  generic extractor request s retries env closing =
      run_rotation_generic request f max_rpm s retries env extractor closing

  abbrev pub async_generic : Option (R → ℕ × ℕ) → Loop R
  async_generic extractor request s retries env closing =
      async_run_rotation_generic request f max_rpm s retries env extractor closing

  abbrev pub gemini_rotating : Loop R
  gemini_rotating request = gemini_rotation request f max_rpm

  abbrev pub async_gemini_rotating : Loop R
  async_gemini_rotating request = async_gemini_rotation request f max_rpm

  -- `invoke`
  unfoldable pub invoke :
      GroqService
      → Text
      → Option Text
      → String
      → Option ℕ
      → Option String
      → Visit
      → (List Message → String → ℕ → Attempt R)
      → Answer R × GroqService
  invoke g prompt system model retries session_id visit client =
      serve rotating (assert_capability model Capability.chat) g model (retries_of g retries)
        session_id visit (client (prompt_to_messages prompt system))

  -- `chat`
  unfoldable pub chat :
      GroqService
      → List Message
      → String
      → ChatParams f
      → Option String
      → Visit
      → (List Message → String → ℕ → Attempt R)
      → Answer R × GroqService
  chat g messages model params session_id visit client =
      serve rotating
        (request_config f params g >>= λ _.
          checked (assert_capability model Capability.chat) messages)
        g model (request_config f params g) session_id visit (client messages)

  -- `invoke_tools`
  unfoldable pub invoke_tools :
      GroqService
      → List Message
      → String
      → Option ℕ
      → Option String
      → Visit
      → (List Message → String → ℕ → Attempt R)
      → Answer R × GroqService
  invoke_tools g messages model retries session_id visit client =
      serve rotating (checked (assert_capability model Capability.tools) messages) g model
        (retries_of g retries) session_id visit (client messages)

  -- `async_invoke`
  unfoldable pub async_invoke :
      GroqService
      → Text
      → Option Text
      → String
      → Option ℕ
      → Option String
      → Visit
      → (List Message → String → ℕ → Attempt R)
      → Answer R × GroqService
  async_invoke g prompt system model retries session_id visit client =
      serve async_rotating (assert_capability model Capability.chat) g model (retries_of g retries)
        session_id visit (client (prompt_to_messages prompt system))

  -- `async_chat`
  unfoldable pub async_chat :
      GroqService
      → List Message
      → String
      → ChatParams f
      → Option String
      → Visit
      → (List Message → String → ℕ → Attempt R)
      → Answer R × GroqService
  async_chat g messages model params session_id visit client =
      serve async_rotating (checked (assert_capability model Capability.chat) messages) g model
        (request_config f params g) session_id visit (client messages)

  -- `async_invoke_tools`
  unfoldable pub async_invoke_tools :
      GroqService
      → List Message
      → String
      → Option ℕ
      → Option String
      → Visit
      → (List Message → String → ℕ → Attempt R)
      → Answer R × GroqService
  async_invoke_tools g messages model retries session_id visit client =
      serve async_rotating (checked (assert_capability model Capability.tools) messages) g model
        (retries_of g retries) session_id visit (client messages)
