-- ===== src/Provider/Ledger.antt =====
-- The methods of `GroqService` in poolgate/services/provider.py, called in any order.
pub mod Kept
use pool_gate.Common.{
  ℕ, zero, suc, ◌+◌, ◌≤◌, ◌≡◌, refl, sym, subst, String, Bool, Option, none, some, List, [], ◌∷◌,
  foldl, ◌⊎◌, inl, inr,
}
use pool_gate.Float.{FloatOps}
use pool_gate.Result.{Result, ok, err, ◌>>=◌}
use pool_gate.Text.{Text}
use pool_gate.Session.{
  SessionUsageTracker, SessionManager, get_or_create, expired_ids, expire_old_sessions,
}
use pool_gate.Books.{Books, Request, Moment}
use pool_gate.Books.Sums.{get_or_create-Within, remove_all-Within}
use pool_gate.Books.Sound.{
  Sound, of_session, fresh, sessions-Sound, book_success-Sound, book_failure-Sound,
}
use pool_gate.Pool.Key.{ApiKeyState}
use pool_gate.Registry.{Capability, assert_capability}
use pool_gate.Rotation.{
  Attempt, Service, Outcome, responded, exhausted_retries, passed_on, with_extractor,
}
use pool_gate.Rotation.Accounts.{Booked}
use pool_gate.Streams.{stream, stream-Booked}
use pool_gate.Provider.Response.{GroqResponse}
use pool_gate.Provider.{
  ChatParams, GroqService, Visit, or_default, Loop, retries_of, resolve_session, cleanup_sessions,
  on_session_id, serve, with_sessions,
}
use pool_gate.Provider.Messages.{Message, prompt_to_messages, extract_json}
use pool_gate.Provider.Calls.{checked, rotating, generic, invoke, chat, invoke_tools}
use pool_gate.Provider.Calls.Media.{moderate, transcribe, translate, synthesize}
use pool_gate.Provider.Calls.Streams.{stream_call, stream_checks, stream_payload}
use pool_gate.Provider.Handled.{Records, rotating-Records, generic-Records}
use pool_gate.Provider.Structured.{
  Structured, after_round, structured_loop, structured_in, structured_call, structured,
}

-- A call of a method, with its arguments and the environment that it meets.
pub data Call (f : FloatOps) (R : Type 0) : Type 1 where
  invokes :
      Text
      → Option Text
      → String
      → Option ℕ
      → Option String
      → Visit
      → (List Message → String → ℕ → Attempt R)
      → Call f R
  chats :
      List Message
      → String
      → ChatParams f
      → Option String
      → Visit
      → (List Message → String → ℕ → Attempt R)
      → Call f R
  invokes_tools :
      List Message
      → String
      → Option ℕ
      → Option String
      → Visit
      → (List Message → String → ℕ → Attempt R)
      → Call f R
  moderates :
      (R → ℕ × ℕ)
      → Text
      → String
      → Option ℕ
      → Option String
      → Visit
      → (Text → String → ℕ → Attempt R)
      → Call f R
  transcribes translates synthesizes :
      String → Option ℕ → Option String → Visit → (String → ℕ → Attempt R) → Call f R
  streams :
      Option Text
      → Option (List Message)
      → Option Text
      → String
      → Option ℕ
      → Option String
      → Visit
      → (ℕ → ApiKeyState → Bool)
      → (List Message → String → ℕ → Attempt R)
      → Call f R
  structures :
      {T : Type 0}
      → (Text → T ⊎ Text)
      → Text
      → Option Text
      → String
      → Option ℕ
      → ℕ
      → Option String
      → Visit
      → (String → ℕ → List Message → ℕ → Attempt GroqResponse)
      → (ℕ → Moment)
      → Call f R
  cleans : ℕ → Call f R

module _ {R : Type 0} (f : FloatOps) (max_rpm : Option ℕ) where
  unfoldable pub step : GroqService → Call f R → GroqService
  step g (invokes prompt system model retries session_id visit client) =
      (invoke f max_rpm g prompt system model retries session_id visit client).1
  step g (chats messages model params session_id visit client) =
      (chat f max_rpm g messages model params session_id visit client).1
  step g (invokes_tools messages model retries session_id visit client) =
      (invoke_tools f max_rpm g messages model retries session_id visit client).1
  step g (moderates tokens_of text model retries session_id visit client) =
      (moderate f max_rpm tokens_of g text model retries session_id visit client).1
  step g (transcribes model retries session_id visit client) =
      (transcribe f max_rpm g model retries session_id visit client).1
  step g (translates model retries session_id visit client) =
      (translate f max_rpm g model retries session_id visit client).1
  step g (synthesizes model retries session_id visit client) =
      (synthesize f max_rpm g model retries session_id visit client).1
  step g (streams prompt messages system model retries session_id visit yields client) =
      (stream_call f max_rpm g prompt messages system model retries session_id visit yields
        client).1
  step g
        (structures validate prompt system model retries json_retries session_id visit client
          closing) =
      (structured f max_rpm validate g prompt system model retries json_retries session_id visit
        client closing).1
  step g (cleans now) = (cleanup_sessions g now).1

  unfoldable pub run : GroqService → List (Call f R) → GroqService
  run g [] = g
  run g (c ∷ cs) = run (step g c) cs
