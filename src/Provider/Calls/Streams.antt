-- ===== src/Provider/Calls/Streams.antt =====
-- The streaming calls of `GroqService`.
use pool_gate.Common.{ℕ, String, Bool, Option, none, some, List, [], ◌∷◌}
use pool_gate.Float.{FloatOps}
use pool_gate.Result.{Result, ok, err, ◌>>=◌, missing_prompt}
use pool_gate.Registry.{Capability, assert_capability}
use pool_gate.Text.{Text}
use pool_gate.Rotation.{Attempt}
use pool_gate.Streams.{stream, async_stream}
use pool_gate.Pool.Key.{ApiKeyState}
use pool_gate.Provider.{retries_of, GroqService, Answer, Visit, serve}
use pool_gate.Provider.Messages.{Message, prompt_to_messages, validate_messages}

-- `prompt or ""`
abbrev pub text_or_empty : Option Text → Text
text_or_empty none = []
text_or_empty (some prompt) = prompt

-- `messages or _prompt_to_messages(prompt or "", system)`
abbrev pub stream_payload : Option Text → Option (List Message) → Option Text → List Message
stream_payload prompt (some (m ∷ ms)) system = m ∷ ms
stream_payload prompt (some []) system = prompt_to_messages (text_or_empty prompt) system
stream_payload prompt none system = prompt_to_messages (text_or_empty prompt) system

-- The checks of a stream: one of prompt and messages is given, and the messages are well-formed.
abbrev pub stream_checks : Option Text → Option (List Message) → Result (Unit {0})
stream_checks none none = err missing_prompt
stream_checks (some prompt) none = ok tt
stream_checks prompt (some messages) = validate_messages messages

module _ {ℓ} {R : Type ℓ} (f : FloatOps) (max_rpm : Option ℕ) where
  -- `stream` of `GroqService`, with what is delivered in each attempt.
  unfoldable pub stream_call :
      GroqService
      → Option Text
      → Option (List Message)
      → Option Text
      → String
      → Option ℕ
      → Option String
      → Visit
      → (ℕ → ApiKeyState → Bool)
      → (List Message → String → ℕ → Attempt R)
      → Answer R × GroqService
  stream_call g prompt messages system model retries session_id visit yields client =
      serve (λ request s retries env closing. stream request f max_rpm s retries env yields closing)
        (assert_capability model Capability.chat >>= λ _. stream_checks prompt messages) g model
        (retries_of g retries) session_id visit (client (stream_payload prompt messages system))

  -- `async_stream` of `GroqService`, with what is delivered in each attempt.
  unfoldable pub async_stream_call :
      GroqService
      → Option Text
      → Option (List Message)
      → Option Text
      → String
      → Option ℕ
      → Option String
      → Visit
      → (ℕ → ApiKeyState → Bool)
      → (List Message → String → ℕ → Attempt R)
      → Answer R × GroqService
  async_stream_call g prompt messages system model retries session_id visit yields client =
      serve
        (λ request s retries env closing.
          async_stream request f max_rpm s retries env yields closing)
        (assert_capability model Capability.chat >>= λ _. stream_checks prompt messages) g model
        (retries_of g retries) session_id visit (client (stream_payload prompt messages system))
