-- ===== src/Tests/Calls.antt =====
-- The theorems of the services' calls at concrete inputs.
use pool_gate.Common.{
  arith, some, ℕ, zero, suc, ◌+◌, ◌≤◌, ◌≡◌, refl, String, none, List, [], ◌∷◌, ◌⊎◌, inl, inr,
  length, All, if◌then◌else◌,
}
use pool_gate.Text.{
  Text, codes, text_eq, strip, join_lines, is_line_break, is_space, lstrip, rstrip,
}
use pool_gate.Text.Lines.{IsLine}
use pool_gate.Rotation.{Reply, answered, raised, Attempt}
use pool_gate.Provider.Response.{GroqResponse}
use pool_gate.Int.{pos}
use pool_gate.Provider.{GroqService, Answer, Visit, ChatParams, retries_of}
use pool_gate.Provider.Messages.{Message, extract_json, sanitize_parse_error}
use pool_gate.Provider.Messages.Errors.{IsUnbroken, sanitize_parse_error_safe}
use pool_gate.Provider.Messages.Fences.{fenced, IsBody, extract_json-fenced}
use pool_gate.Provider.Calls.{rotating}
use pool_gate.Provider.Handled.{Handled, rotating-Records}
use pool_gate.Provider.Structured.{structured_loop}
use pool_gate.Provider.Structured.Rounds.{Rounds, usage_of, structured_loop-Rounds}
use pool_gate.Provider.Batch.{batch_chat}
use pool_gate.Provider.Batch.Totals.{Totals, batch_chat_lem}
use pool_gate.Session
use pool_gate.Tracking.Manager
use pool_gate.Tracking.Manager.{one_day}
use pool_gate.Tracking.Usage
use pool_gate.Books.Sums.{over}
use pool_gate.Books.Sound.{
  Column, requests, successes, failures, retries, tokens_in, tokens_out, of_session, of_usage, life,
  Sound,
}
use pool_gate.Provider.Ledger.{Call, chats, structures, cleans, run}
use pool_gate.Provider.Ledger.Kept.{books_of, run-Sound}
use pool_gate.Tests.Keys.{early, late, whole}
use pool_gate.Tests.Requests.{closing, request, service, timeout}

abbrev groq : GroqService
groq = record { service = service; default_session_id = none; max_retries = pos 2 }

abbrev visit : Visit
visit = record { drawn = "drawn"; opens_at = 0; closing = closing }

abbrev response : String → GroqResponse
response text = record {
  text = codes text;
  usage = record { prompt_tokens = 3; completion_tokens = 4; total_tokens = 7 };
  latency = 5;
}

abbrev attempt_of : Reply GroqResponse → Attempt GroqResponse
attempt_of reply = record {
  starts_at = early;
  ends_at = late;
  latency = 7;
  today = one_day "2025-01-31";
  call = λ k. reply;
}

-- The first attempt times out, and the second is answered.
abbrev attempt : String → ℕ → Attempt GroqResponse
attempt text zero = attempt_of (raised timeout)
attempt text (suc n) = attempt_of (answered (response text) 3 4)

abbrev messages : List Message
messages = record { role = "user"; content = codes "Hi" } ∷ []

abbrev client : List Message → String → ℕ → Attempt GroqResponse
client ms sid = attempt "Hello"

abbrev params : ChatParams whole
params = record { temperature = 1; top_p = 1; max_tokens = none; timeout = 30; retries = none }

-- A schema that takes one text.
abbrev validate : Text → ℕ ⊎ Text
validate t = if text_eq t (codes "1") then inl 1 else inr (codes "not a one")

-- The first round is answered by what does not parse.
abbrev rounds : ℕ → List Message → ℕ → Attempt GroqResponse
rounds zero ms = attempt "one"
rounds (suc n) ms = attempt "1"

structured_loop-Rounds_example :
    let result =
      structured_loop
        (rotating whole none)
        validate
        request
        2
        rounds
        (λ n. closing)
        2
        0
        messages
        none
        service in
    Rounds validate (λ env. env) rounds messages 2 (usage_of service) result.0 (usage_of result.1)
structured_loop-Rounds_example =
    structured_loop-Rounds validate (λ env. env) rounds messages (rotating whole none)
      (rotating-Records whole none) request 2 (λ n. closing) 2 service

sanitize_parse_error_safe_example :
    All IsUnbroken (sanitize_parse_error (codes "Expecting\nvalue") 4)
    × (length (sanitize_parse_error (codes "Expecting\nvalue") 4) ≤ 4 + 1)
sanitize_parse_error_safe_example = sanitize_parse_error_safe (codes "Expecting\nvalue") 4

abbrev tag : Text
tag = codes "json"

tag-IsLine : IsLine tag
unfolding is_line_break
tag-IsLine = (refl, (refl, (refl, (refl, tt))))

abbrev braces : List Text
braces = codes "{" ∷ codes "}" ∷ []

braces-IsBody : All IsBody braces
unfolding is_line_break is_space text_eq strip lstrip rstrip
braces-IsBody = (((refl, tt), refl), (((refl, tt), refl), tt))

extract_json-fenced_example : extract_json (fenced tag braces) ≡ strip (join_lines braces)
extract_json-fenced_example = extract_json-fenced tag braces tag-IsLine braces-IsBody

abbrev text_of : Answer GroqResponse → Text
text_of answer = codes "failed"

abbrev prompts : List Text
prompts = codes "Hi" ∷ [] ∷ codes "Bye" ∷ []

batch_chat_lem_example : Totals text_of (retries_of groq none) groq prompts (
    batch_chat text_of whole none groq prompts "gemini-2.5-flash" none none none
      (λ n. visit)
      (λ n. client))
batch_chat_lem_example =
    batch_chat_lem text_of whole none groq prompts "gemini-2.5-flash" none none none (λ n. visit)
      (λ n. client)

-- A chat, a structured call in the session it made, a chat with an unknown role, and the clean-up.
abbrev calls : List (Call whole GroqResponse)
calls =
    chats messages "llama-3.3-70b-versatile" params none visit client
    ∷ structures validate (codes "Hi") none "llama-3.3-70b-versatile" none 2 (some "drawn") visit
        (λ sid. rounds) (λ n. closing)
    ∷ chats (record { role = "robot"; content = codes "Hi" } ∷ []) "llama-3.3-70b-versatile" params
        none visit client
    ∷ cleans 5
    ∷ []

groq-Sound : Sound (books_of groq)
unfolding Session.new Manager.new Usage.new
groq-Sound = record { ids = tt; covered = none_counted; balanced = refl }
  where
    none_counted :
        (c : Column) → over (of_session c) service.books.sessions ≤ of_usage c (life service.books)
    none_counted requests = omega arith
    none_counted successes = omega arith
    none_counted failures = omega arith
    none_counted retries = omega arith
    none_counted tokens_in = omega arith
    none_counted tokens_out = omega arith

run-Sound_example : Sound (books_of (run whole none groq calls))
run-Sound_example = run-Sound whole none calls groq groq-Sound
