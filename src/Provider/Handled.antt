-- ===== src/Provider/Handled.antt =====
-- What every call goes through: its checks, its session and one record of the rotation.
use mathlib.Core.Logic.{Lift}
use pool_gate.Common.{◌⊎◌, inl, inr, ℕ, ◌+◌, ◌≡◌, refl, String, Option, some}
use pool_gate.Dict.Laws.{IsDict}
use pool_gate.Float.{FloatOps}
use pool_gate.Result.{Result, ok, err}
use pool_gate.Session.{SessionUsageTracker, SessionManager, get_or_create}
use pool_gate.Session.Expiry.{Found, id_of, get_or_create_outcome}
use pool_gate.Books.{Request, Moment}
use pool_gate.Rotation.{Attempt, Service, with_extractor}
use pool_gate.Rotation.Accounts.{Booked, run_with_rotation-Booked, run_rotation_generic-Booked}
use pool_gate.Registry.{Capability, assert_capability}
use pool_gate.Text.{Text}
use pool_gate.Provider.{
  GroqService, Answer, refused, finished, Visit, or_default, id_of_session, with_sessions,
  resolve_session, Loop, retries_of, on_session_id, serve,
}
use pool_gate.Provider.Calls.{rotating, generic}
use pool_gate.Provider.Calls.Media.{moderate}

module _ {ℓ} {R : Type ℓ} where
  -- A loop that records each request once, in the attempts as it sees them.
  abbrev pub Records : Loop R → ((ℕ → Attempt R) → ℕ → Attempt R) → Type ℓ
  Records run seen =
      (request : Request) (s : Service) (retries : ℕ) (env : ℕ → Attempt R) (closing : Moment)
      → let result = run request s retries env closing in
        Booked request (retries + 1) (seen env) closing s.books result.0 result.1.books

  -- How a call ends whose arguments pass the checks. It is refused where its session had expired: the
  -- session is gone, and nothing else has changed. It is refused too where its config is invalid, after
  -- its session was looked up. Otherwise it has a session that is alive, and the rotation leaves one
  -- record, in the trackers and in that session.
  abbrev pub Ended :
      ((ℕ → Attempt R) → ℕ → Attempt R)
      → GroqService
      → String
      → Result ℕ
      → String
      → Visit
      → (String → ℕ → Attempt R)
      → Answer R × GroqService
      → Type ℓ
  Ended seen g model config id visit client (refused e, g') = Lift {0, ℓ} (
      (g' ≡ record g { service = with_sessions g.service g'.service.books.sessions })
      × (Found g.service.books.sessions id visit.opens_at (err e) g'.service.books.sessions
          ⊎ ((config ≡ err e)
              × ((s : SessionUsageTracker) × Found g.service.books.sessions id visit.opens_at (ok s)
                    g'.service.books.sessions))))
  Ended seen g model config id visit client (finished outcome, g') =
      (retries : ℕ) × (config ≡ ok retries)
      × (s : SessionUsageTracker) × (m : SessionManager) × Found g.service.books.sessions id
          visit.opens_at (ok s) m
      × Booked (record { model = model; session_id = s.session_id }) (retries + 1)
          (seen (client s.session_id)) visit.closing (record g.service.books { sessions = m })
          outcome g'.service.books

  -- A call whose checks fail raises what they raise, and changes nothing.
  abbrev pub Handled :
      Result (Unit {0})
      → ((ℕ → Attempt R) → ℕ → Attempt R)
      → GroqService
      → String
      → Result ℕ
      → Option String
      → Visit
      → (String → ℕ → Attempt R)
      → Answer R × GroqService
      → Type ℓ
  Handled (err e) seen g model config session_id visit client result = result ≡ (refused e, g)
  Handled (ok _) seen g model config session_id visit client result =
      Ended seen g model config (id_of (or_default session_id g.default_session_id) visit.drawn)
        visit client result

  on_session_id-Ended :
      (run : Loop R) (seen : (ℕ → Attempt R) → ℕ → Attempt R) (g : GroqService) (model : String)
      (config : Result ℕ) (id : String) (visit : Visit) (client : String → ℕ → Attempt R)
      → Records run seen
      → (r : Result SessionUsageTracker × SessionManager)
      → Found g.service.books.sessions id visit.opens_at r.0 r.1
      → Ended seen g model config id visit client (
          on_session_id run model config visit.closing client
            (id_of_session r.0, record g { service = with_sessions g.service r.1 }))
  unfolding on_session_id
  on_session_id-Ended run seen g model config id visit client once (err e, m) found = record {
    lower = (refl, inl found);
  }
  on_session_id-Ended run seen g model (err e) id visit client once (ok s, m) found = record {
    lower = (refl, inr (refl, (s, found)));
  }
  on_session_id-Ended run seen g model (ok retries) id visit client once (ok s, m) found = (
    retries,
    refl,
    s,
    m,
    found,
    once (record { model = model; session_id = s.session_id }) (with_sessions g.service m) retries
        (client s.session_id) visit.closing,
  )

  pub serve-Handled :
      (run : Loop R) (seen : (ℕ → Attempt R) → ℕ → Attempt R) (checks : Result (Unit {0}))
      (g : GroqService) (model : String) (config : Result ℕ) (session_id : Option String)
      (visit : Visit) (client : String → ℕ → Attempt R)
      → Records run seen
      → IsDict g.service.books.sessions.sessions
      → Handled checks seen g model config session_id visit client
          (serve run checks g model config session_id visit client)
  unfolding serve resolve_session
  serve-Handled run seen (err e) g model config session_id visit client once d = refl
  serve-Handled run seen (ok _) g model config session_id visit client once d =
      let wanted = or_default session_id g.default_session_id in
      on_session_id-Ended run seen g model config (id_of wanted visit.drawn) visit client once
        (get_or_create g.service.books.sessions wanted visit.drawn visit.opens_at)
        (get_or_create_outcome g.service.books.sessions wanted visit.drawn "" visit.opens_at d).0

  module _ (f : FloatOps) (max_rpm : Option ℕ) where
    pub rotating-Records : Records (rotating f max_rpm) (λ env. env)
    rotating-Records request s retries env closing =
        run_with_rotation-Booked request f max_rpm s retries env closing

    pub generic-Records :
        (extractor : Option (R → ℕ × ℕ))
        → Records (generic f max_rpm extractor) (with_extractor extractor)
    generic-Records extractor request s retries env closing =
        run_rotation_generic-Booked request f max_rpm s retries env extractor closing

    -- A call of `moderate` is handled in the same way, with the tokens that its result reports.
    pub moderate-Handled :
        (tokens_of : R → ℕ × ℕ) (g : GroqService) (text : Text) (model : String)
        (retries : Option ℕ) (session_id : Option String) (visit : Visit)
        (client : Text → String → ℕ → Attempt R)
        → IsDict g.service.books.sessions.sessions
        → Handled
            (assert_capability model Capability.moderation)
            (with_extractor (some tokens_of))
            g
            model
            (retries_of g retries)
            session_id
            visit
            (client text)
            (moderate f max_rpm tokens_of g text model retries session_id visit client)
    unfolding moderate
    moderate-Handled tokens_of g text model retries session_id visit client d =
        serve-Handled (generic f max_rpm (some tokens_of)) (with_extractor (some tokens_of))
          (assert_capability model Capability.moderation) g model (retries_of g retries) session_id
          visit (client text) (generic-Records (some tokens_of)) d
