-- ===== src/Provider/Batch/Counts.antt =====
-- What one call leaves in the usage tracker.
use pool_gate.Common.{ℕ, ◌≡◌, refl, String, Option}
use pool_gate.Result.{Result, ok, err}
use pool_gate.Books.{Request, Moment}
use pool_gate.Tracking.Usage.{UsageTracker}
use pool_gate.Rotation.{Attempt, Service}
use pool_gate.Rotation.Accounts.{Recorded}
use pool_gate.Provider.{
  GroqService, Answer, refused, finished, Visit, Loop, on_session_id, resolve_session, serve,
}

abbrev pub used : GroqService → UsageTracker
used g = g.service.books.tracking.usage_tracker

-- A call counts once as its outcome says, and not at all where it is refused.
abbrev pub Counts {ℓ} : {R : Type ℓ} → UsageTracker → Answer R → UsageTracker → Type 0
Counts u (refused e) u' = u' ≡ u
Counts u (finished outcome) u' = Recorded u outcome u'

module _ {ℓ} {R : Type ℓ} (run : Loop R)
    (recorded : (request : Request) (s : Service) (retries : ℕ) (env : ℕ → Attempt R)
        (closing : Moment)
      → let result = run request s retries env closing in
        Recorded s.books.tracking.usage_tracker result.0
          result.1.books.tracking.usage_tracker) where
  on_session_id-Counts :
      (model : String) (config : Result ℕ) (closing : Moment) (client : String → ℕ → Attempt R)
      (found : Result String × GroqService)
      → let result = on_session_id run model config closing client found in
        Counts (used found.1) result.0 (used result.1)
  unfolding on_session_id
  on_session_id-Counts model config closing client (err e, g) = refl
  on_session_id-Counts model (err e) closing client (ok sid, g) = refl
  on_session_id-Counts model (ok retries) closing client (ok sid, g) =
      recorded (record { model = model; session_id = sid }) g.service retries (client sid) closing

  pub serve-Counts :
      (checks : Result (Unit {0})) (g : GroqService) (model : String) (config : Result ℕ)
      (session_id : Option String) (visit : Visit) (client : String → ℕ → Attempt R)
      → let result = serve run checks g model config session_id visit client in
        Counts (used g) result.0 (used result.1)
  unfolding serve resolve_session
  serve-Counts (err e) g model config session_id visit client = refl
  serve-Counts (ok _) g model config session_id visit client =
      on_session_id-Counts model config visit.closing client
        (resolve_session g session_id visit.drawn visit.opens_at)
