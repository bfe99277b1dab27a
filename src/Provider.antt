-- ===== src/Provider.antt =====
-- The calls of `GroqService` in poolgate/services/provider.py and of `GeminiService` in
-- poolgate/services/gemini_provider.py, from the check of the model to the rotation. What the client
-- of a capability does with the payload, the session's id and a key is the environment's, and so are
-- the clock and the id that `uuid4` draws. The configuration of a request is validated as `RequestConfig`
-- of poolgate/schemas/common/runtime.py does, and its number of retries is what the rotation takes of it;
-- `seed`, `stop` and `stream` have no bounds there and only go to the client.
pub mod Response
pub mod Messages
pub mod Calls
pub mod Handled
pub mod Structured
pub mod Batch
pub mod Ledger
use pool_gate.Float.{FloatOps}
use pool_gate.Int.{ℤ, pos, negsuc}
use pool_gate.Common.{
  Bool, true, false, ◌&&◌, leb, ℕ, String, Option, none, some, str_eq, if◌then◌else◌,
}
use pool_gate.Result.{Error, Result, ok, err, validation_error}
use pool_gate.Session.{SessionUsageTracker, SessionManager, get_or_create, expire_old_sessions}
use pool_gate.Books.{Books, Request, Moment}
use pool_gate.Rotation.{Attempt, Service, Outcome}

pub record GroqService : Type 0 where
  pub service : Service
  pub default_session_id : Option String
  -- `self._config.max_retries`
  pub max_retries : ℤ

-- How a call ends: refused with an exception before the rotation, or as the rotation ends.
pub data Answer {ℓ} (R : Type ℓ) : Type ℓ where
  refused : Error → Answer R
  finished : Outcome R → Answer R

-- The environment of a call: the id that may be drawn, the clock when the session is looked up, and
-- the moment at which a failure is recorded.
pub record Visit : Type 0 where
  pub drawn : String
  pub opens_at : ℕ
  pub closing : Moment

-- `session_id or self._default_session_id`
abbrev pub or_default : Option String → Option String → Option String
or_default none default = default
or_default (some s) default = if str_eq s "" then default else some s

-- `session.session_id`
abbrev pub id_of_session : Result SessionUsageTracker → Result String
id_of_session (ok session) = ok session.session_id
id_of_session (err e) = err e

abbrev pub with_sessions : Service → SessionManager → Service
with_sessions s sessions = record s { books = record s.books { sessions = sessions } }

-- `_resolve_session`
unfoldable pub resolve_session :
    GroqService → Option String → String → ℕ → Result String × GroqService
resolve_session g session_id drawn now =
    let (found, sessions) =
      get_or_create g.service.books.sessions (or_default session_id g.default_session_id) drawn
        now in
    (id_of_session found, record g { service = with_sessions g.service sessions })

-- `cleanup_sessions`
unfoldable pub cleanup_sessions : GroqService → ℕ → ℕ × GroqService
cleanup_sessions g now =
    let (count, sessions) = expire_old_sessions g.service.books.sessions now in
    (count, record g { service = with_sessions g.service sessions })

-- A rotating loop for a request: with its retries, its attempts and the moment of its end.
abbrev pub Loop {ℓ} : Type ℓ → Type ℓ
Loop R = Request → Service → ℕ → (ℕ → Attempt R) → Moment → Outcome R × Service

-- `retries: int = Field(ge=0, le=10)` of `RequestConfig`
unfoldable pub valid_retries : ℤ → Result ℕ
valid_retries (pos n) = if leb n 10 then ok n else err validation_error
valid_retries (negsuc n) = err validation_error

-- The retries of `config or RequestConfig(retries=self._config.max_retries)`. A config that is given is
-- not validated again, and may have been assigned any number since it was constructed.
abbrev pub retries_of : GroqService → Option ℕ → Result ℕ
retries_of g none = valid_retries g.max_retries
retries_of g (some retries) = ok retries

-- The arguments of `chat` that go into its `RequestConfig` and that it validates.
pub record ChatParams (f : FloatOps) : Type 0 where
  pub temperature : f.F
  pub top_p : f.F
  pub max_tokens : Option ℤ
  pub timeout : f.F
  pub retries : Option ℤ

-- `max_tokens: int | None = Field(ge=1)`
abbrev pub at_least_one : Option ℤ → Bool
at_least_one none = true
at_least_one (some (pos n)) = leb 1 n
at_least_one (some (negsuc n)) = false

-- `retries if retries is not None else self._config.max_retries`
abbrev pub or_max_retries : Option ℤ → ℤ → ℤ
or_max_retries none max_retries = max_retries
or_max_retries (some retries) max_retries = retries

-- `RequestConfig(...)` of `chat`: the retries of a config that is valid.
unfoldable pub request_config : (f : FloatOps) → ChatParams f → GroqService → Result ℕ
request_config f p g =
    let nought = f.of_ℕ 0 in
    if f.le nought p.temperature
      && (f.le p.temperature (f.of_ℕ 2)
          && (f.lt nought p.top_p
              && (f.le p.top_p (f.of_ℕ 1) && (at_least_one p.max_tokens && f.lt nought p.timeout))))
    then valid_retries (or_max_retries p.retries g.max_retries)
    else err validation_error

module _ {ℓ} {R : Type ℓ} (run : Loop R) where
  -- What follows `_resolve_session`: the config, which may be invalid, and the rotation.
  unfoldable pub on_session_id :
      String
      → Result ℕ
      → Moment
      → (String → ℕ → Attempt R)
      → Result String × GroqService
      → Answer R × GroqService
  on_session_id model config closing client (err e, g) = (refused e, g)
  on_session_id model (err e) closing client (ok sid, g) = (refused e, g)
  on_session_id model (ok retries) closing client (ok sid, g) =
      let (outcome, service) =
        run (record { model = model; session_id = sid }) g.service retries (client sid) closing in
      (finished outcome, record g { service = service })

  -- The body of a call, after the checks of its arguments: the session, and then the rotation.
  unfoldable pub serve :
      Result (Unit {0})
      → GroqService
      → String
      → Result ℕ
      → Option String
      → Visit
      → (String → ℕ → Attempt R)
      → Answer R × GroqService
  serve (err e) g model config session_id visit client = (refused e, g)
  serve (ok _) g model config session_id visit client =
      on_session_id model config visit.closing client
        (resolve_session g session_id visit.drawn visit.opens_at)
