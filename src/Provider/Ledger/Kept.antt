-- ===== src/Provider/Ledger/Kept.antt =====
-- What every method keeps of the service's books.
use pool_gate.Common.{
  ℕ, zero, suc, ◌+◌, ◌≡◌, refl, sym, subst, String, Option, none, some, List, [], ◌∷◌, ◌⊎◌, inl,
  inr,
}
use pool_gate.Float.{FloatOps}
use pool_gate.Result.{Result, ok, err}
use pool_gate.Text.{Text}
use pool_gate.Session.{expired_ids, expire_old_sessions}
use pool_gate.Books.{Books, Request, Moment}
use pool_gate.Books.Sums.{get_or_create-Within, remove_all-Within}
use pool_gate.Books.Sound.{
  Sound, of_session, fresh, sessions-Sound, book_success-Sound, book_failure-Sound,
}
use pool_gate.Rotation.{
  Attempt, Service, Outcome, responded, exhausted_retries, passed_on, with_extractor,
}
use pool_gate.Rotation.Accounts.{Booked}
use pool_gate.Streams.{stream, stream-Booked}
use pool_gate.Provider.Response.{GroqResponse}
use pool_gate.Provider.{
  GroqService, Visit, or_default, Loop, retries_of, resolve_session, cleanup_sessions,
  on_session_id, serve,
}
use pool_gate.Provider.Messages.{Message, prompt_to_messages, extract_json}
use pool_gate.Provider.Calls.{rotating, generic, invoke, chat, invoke_tools}
use pool_gate.Provider.Calls.Media.{moderate, transcribe, translate, synthesize}
use pool_gate.Provider.Calls.Streams.{stream_call}
use pool_gate.Provider.Handled.{Records, rotating-Records, generic-Records}
use pool_gate.Provider.Structured.{
  Structured, after_round, repaired, structured_loop, structured_in, structured_call, structured,
}
use pool_gate.Provider.Ledger.{
  Call, invokes, chats, invokes_tools, moderates, transcribes, translates, synthesizes, streams,
  structures, cleans, step, run,
}

Booked-Sound {ℓ} :
    {R : Type ℓ} (request : Request) (attempts : ℕ) (env : ℕ → Attempt R) (closing : Moment)
    (b b' : Books) (outcome : Outcome R)
    → Booked request attempts env closing b outcome b'
    → Sound b
    → Sound b'
Booked-Sound request attempts env closing b b' (responded r) (index, (k, x, y, called, e)) h =
    subst Sound (sym e) (book_success-Sound b request _ _ _ x y _ h)
Booked-Sound request attempts env closing b b' (exhausted_retries last_exc) e h =
    subst Sound (sym e.lower) (book_failure-Sound b request closing _ h)
Booked-Sound request attempts env closing b b' (passed_on exc) e h = subst Sound (sym e.lower) h

abbrev pub books_of : GroqService → Books
books_of g = g.service.books

resolve_session-Sound :
    (g : GroqService) (session_id : Option String) (drawn : String) (now : ℕ)
    → Sound (books_of g)
    → Sound (books_of (resolve_session g session_id drawn now).1)
unfolding resolve_session
resolve_session-Sound g session_id drawn now h =
    sessions-Sound (books_of g) _
      (λ c.
        get_or_create-Within (of_session c) (fresh c) (books_of g).sessions
          (or_default session_id g.default_session_id) drawn now)
      h

cleanup_sessions-Sound :
    (g : GroqService) (now : ℕ) → Sound (books_of g) → Sound (books_of (cleanup_sessions g now).1)
unfolding cleanup_sessions expire_old_sessions
cleanup_sessions-Sound g now h =
    sessions-Sound (books_of g) _
      (λ c.
        remove_all-Within (of_session c) (fresh c) (books_of g).sessions
          (expired_ids (books_of g).sessions.sessions now))
      h

module _ {ℓ} {R : Type ℓ} (run : Loop R) (seen : (ℕ → Attempt R) → ℕ → Attempt R)
    (once : Records run seen) where
  loop-Sound :
      (request : Request) (s : Service) (retries : ℕ) (env : ℕ → Attempt R) (closing : Moment)
      → Sound s.books
      → Sound (run request s retries env closing).1.books
  loop-Sound request s retries env closing h =
      Booked-Sound request (retries + 1) (seen env) closing s.books _ _
        (once request s retries env closing) h

  on_session_id-Sound :
      (model : String) (config : Result ℕ) (closing : Moment) (client : String → ℕ → Attempt R)
      (found : Result String × GroqService)
      → Sound (books_of found.1)
      → Sound (books_of (on_session_id run model config closing client found).1)
  unfolding on_session_id
  on_session_id-Sound model config closing client (err e, g) h = h
  on_session_id-Sound model (err e) closing client (ok sid, g) h = h
  on_session_id-Sound model (ok retries) closing client (ok sid, g) h =
      loop-Sound (record { model = model; session_id = sid }) g.service retries (client sid) closing
        h

  serve-Sound :
      (checks : Result (Unit {0})) (g : GroqService) (model : String) (config : Result ℕ)
      (session_id : Option String) (visit : Visit) (client : String → ℕ → Attempt R)
      → Sound (books_of g)
      → Sound (books_of (serve run checks g model config session_id visit client).1)
  unfolding serve
  serve-Sound (err e) g model config session_id visit client h = h
  serve-Sound (ok _) g model config session_id visit client h =
      on_session_id-Sound model config visit.closing client _
        (resolve_session-Sound g session_id visit.drawn visit.opens_at h)

module _ {ℓ} {T : Type ℓ} (run : Loop GroqResponse)
    (seen : (ℕ → Attempt GroqResponse) → ℕ → Attempt GroqResponse) (once : Records run seen)
    (validate : Text → T ⊎ Text) where
  module _ (request : Request) (retries : ℕ) (client : ℕ → List Message → ℕ → Attempt GroqResponse)
      (closing : ℕ → Moment) where
    after_round-Sound :
        (next : List Message → Option Text → Service → Structured T × Service)
        (messages : List Message) (round : Outcome GroqResponse × Service)
        → ((ms : List Message) (raw : Option Text) (s : Service)
            → Sound s.books
            → Sound (next ms raw s).1.books)
        → Sound round.1.books
        → Sound
            (after_round run validate request retries client closing next messages round).1.books
    unfolding after_round
    after_round-Sound next messages (exhausted_retries last_exc, s) rest h = h
    after_round-Sound next messages (passed_on exc, s) rest h = h
    after_round-Sound next messages (responded r, s) rest h =
        go (validate (extract_json r.text)) refl
      where
        go :
            (v : T ⊎ Text)
            → validate (extract_json r.text) ≡ v
            → Sound
                (after_round run validate request retries client closing next messages
                  (responded r, s)).1.books
        go (inl value) e = rw (e, after_round) h
        go (inr error) e =
            rw (e, after_round) (rest (repaired messages r.text error) (some r.text) s h)

    structured_loop-Sound :
        (left n : ℕ) (messages : List Message) (raw : Option Text) (s : Service)
        → Sound s.books
        → Sound
            (structured_loop run validate request retries client closing left n messages raw
              s).1.books
    unfolding structured_loop
    structured_loop-Sound zero n messages raw s h = h
    structured_loop-Sound (suc left) n messages raw s h =
        after_round-Sound (structured_loop run validate request retries client closing left (n + 1))
          messages (run request s retries (client n messages) (closing n))
          (λ ms raw' s' h'. structured_loop-Sound left (n + 1) ms raw' s' h')
          (loop-Sound run seen once request s retries (client n messages) (closing n) h)

  structured_in-Sound :
      (model : String) (config : Result ℕ) (json_retries : ℕ) (messages : List Message)
      (client : String → ℕ → List Message → ℕ → Attempt GroqResponse) (closing : ℕ → Moment)
      (found : Result String × GroqService)
      → Sound (books_of found.1)
      → Sound (
          books_of
            (structured_in run validate model config json_retries messages client closing found).1)
  unfolding structured_in
  structured_in-Sound model config json_retries messages client closing (err e, g) h = h
  structured_in-Sound model (err e) json_retries messages client closing (ok sid, g) h = h
  structured_in-Sound model (ok retries) json_retries messages client closing (ok sid, g) h =
      structured_loop-Sound (record { model = model; session_id = sid }) retries (client sid)
        closing (json_retries + 1) 0 messages none g.service h

  structured_call-Sound :
      (checks : Result (Unit {0})) (g : GroqService) (prompt : Text) (system : Option Text)
      (model : String) (retries : Option ℕ) (json_retries : ℕ) (session_id : Option String)
      (visit : Visit) (client : String → ℕ → List Message → ℕ → Attempt GroqResponse)
      (closing : ℕ → Moment)
      → Sound (books_of g)
      → Sound (
          books_of
            (structured_call run validate checks g prompt system model retries json_retries
              session_id visit client closing).1)
  unfolding structured_call
  structured_call-Sound (err e) g prompt system model retries json_retries session_id visit client
        closing h =
      h
  structured_call-Sound (ok _) g prompt system model retries json_retries session_id visit client
        closing h =
      structured_in-Sound model (retries_of g retries) json_retries
        (prompt_to_messages prompt system) client closing _
        (resolve_session-Sound g session_id visit.drawn visit.opens_at h)

module _ {R : Type 0} (f : FloatOps) (max_rpm : Option ℕ) where
  rotating-Sound :
      (checks : Result (Unit {0})) (g : GroqService) (model : String) (config : Result ℕ)
      (session_id : Option String) (visit : Visit) (client : String → ℕ → Attempt R)
      → Sound (books_of g)
      → Sound
          (books_of (serve (rotating f max_rpm) checks g model config session_id visit client).1)
  rotating-Sound = serve-Sound (rotating f max_rpm) (λ env. env) (rotating-Records f max_rpm)

  generic-Sound :
      (extractor : Option (R → ℕ × ℕ)) (checks : Result (Unit {0})) (g : GroqService)
      (model : String) (config : Result ℕ) (session_id : Option String) (visit : Visit)
      (client : String → ℕ → Attempt R)
      → Sound (books_of g)
      → Sound (
          books_of
            (serve (generic f max_rpm extractor) checks g model config session_id visit client).1)
  generic-Sound extractor =
      serve-Sound (generic f max_rpm extractor) (with_extractor extractor)
        (generic-Records f max_rpm extractor)

  step-Sound :
      (g : GroqService) (c : Call f R) → Sound (books_of g) → Sound (books_of (step f max_rpm g c))
  unfolding step invoke chat invoke_tools moderate transcribe translate synthesize stream_call
      structured
  step-Sound g (invokes prompt system model retries session_id visit client) h =
      rotating-Sound _ g model _ session_id visit _ h
  step-Sound g (chats messages model params session_id visit client) h =
      rotating-Sound _ g model _ session_id visit _ h
  step-Sound g (invokes_tools messages model retries session_id visit client) h =
      rotating-Sound _ g model _ session_id visit _ h
  step-Sound g (moderates tokens_of text model retries session_id visit client) h =
      generic-Sound (some tokens_of) _ g model _ session_id visit _ h
  step-Sound g (transcribes model retries session_id visit client) h =
      generic-Sound none _ g model _ session_id visit _ h
  step-Sound g (translates model retries session_id visit client) h =
      generic-Sound none _ g model _ session_id visit _ h
  step-Sound g (synthesizes model retries session_id visit client) h =
      generic-Sound none _ g model _ session_id visit _ h
  step-Sound g (streams prompt messages system model retries session_id visit yields client) h =
      serve-Sound
        (λ request s retries env closing. stream request f max_rpm s retries env yields closing)
        (λ env. env)
        (λ request s retries env closing.
          stream-Booked request f max_rpm s retries env yields closing)
        _ g model _ session_id visit _ h
  step-Sound g
        (structures validate prompt system model retries json_retries session_id visit client
          closing)
        h =
      structured_call-Sound (rotating f max_rpm) (λ env. env) (rotating-Records f max_rpm) validate
        _ g prompt system model retries json_retries session_id visit client closing h
  step-Sound g (cleans now) h = cleanup_sessions-Sound g now h

  -- Over any calls of `invoke`, `chat`, `invoke_tools`, `moderate`, `transcribe`, `translate`,
  -- `synthesize`, `stream`, `structured` and `cleanup_sessions`, if it was so at first: every session stands under its
  -- id once, the requests, successes, failures, retries and tokens that the sessions count together are
  -- at most those that the usage tracker counts, and the requests there are its successes and failures.
  pub run-Sound :
      (calls : List (Call f R)) (g : GroqService)
      → Sound (books_of g)
      → Sound (books_of (run f max_rpm g calls))
  unfolding run
  run-Sound [] g h = h
  run-Sound (c ∷ cs) g h = run-Sound cs (step f max_rpm g c) (step-Sound g c h)
