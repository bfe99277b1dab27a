-- ===== src/Rotation/Accounts.antt =====
-- What a request leaves in the trackers and in its session.
use mathlib.Core.Logic.{Lift}
use pool_gate.Common.{
  ℕ, zero, suc, ◌+◌, ◌≡◌, refl, sym, subst, ap, ◌∙◌, Option, none, some, Bool-cases, Option-cases,
  inl, inr, get_elem?, ltb,
}
use pool_gate.Float.{FloatOps}
use pool_gate.Result.{Result, ok, err, index_error}
use pool_gate.Retry.{Exception, is_auth_error}
use pool_gate.Pool.Key.{Clock, ApiKeyState}
use pool_gate.Pool.Scheduler.{RequestScheduler}
use pool_gate.Tracking.Usage.{UsageTracker}
use pool_gate.Tracking.Usage
use pool_gate.Books.{Books, Request, Moment, book_success, book_failure}
use pool_gate.Books.Counted.{book_success-usage, book_failure-usage}
use pool_gate.Rotation.{
  Reply, answered, raised, Attempt, end_of, Service, Outcome, responded, exhausted_retries,
  passed_on, exception_of, is_passed_on, Verdict, ends, goes_on, leaves, handle, conclude,
  call_with, after_acquire, attempt_once, give_up, loop, run_with_rotation, run_rotation_generic,
  with_extractor,
}

module _ {ℓ} {R : Type ℓ} (request : Request) where
  -- The attempt with this index was answered so by a key, and its success is what was recorded.
  abbrev pub Answered : ℕ → Attempt R → Books → R → Books → Type ℓ
  Answered index a b r b' =
      (k : ApiKeyState) × (tokens_in : ℕ) × (tokens_out : ℕ) × (a.call k
        ≡ answered r tokens_in tokens_out)
      × (b'
          ≡ book_success b request (end_of a) k.key_id a.latency tokens_in tokens_out (ltb 0 index))

  -- The records of a request: one success for a response, one failure where the attempts ran out, and
  -- none where an exception is passed on.
  abbrev pub Booked : ℕ → (ℕ → Attempt R) → Moment → Books → Outcome R → Books → Type ℓ
  Booked attempts env closing b (responded r) b' = (index : ℕ) × Answered index (env index) b r b'
  Booked attempts env closing b (exhausted_retries last_exc) b' =
      Lift {0, ℓ} (b' ≡ book_failure b request closing (ltb 1 attempts))
  Booked attempts env closing b (passed_on exc) b' = Lift {0, ℓ} (b' ≡ b)

  -- An attempt that does not end the request records nothing.
  abbrev pub Fair : ℕ → Attempt R → Books → Verdict R → Type ℓ
  Fair index a b (ends (responded r) s) = Answered index a b r s.books
  Fair index a b (ends (exhausted_retries last_exc) s) = Lift {0, ℓ} ⊥
  Fair index a b (ends (passed_on exc) s) = Lift {0, ℓ} (s.books ≡ b)
  Fair index a b (goes_on exc s) = Lift {0, ℓ} (s.books ≡ b)
  Fair index a b (leaves exc s) = Lift {0, ℓ} (s.books ≡ b)

  handle-Fair :
      (index : ℕ) (a : Attempt R) (s : Service) (now : Clock) (held : Option ℕ) (exc : Exception)
      → Fair index a s.books (handle s now held exc)
  unfolding handle
  handle-Fair index a s now held exc = elim (Bool-cases (is_passed_on exc.class)) [
    | inl e ↦ rw (e, handle) (record { lower = refl })
    | inr e ↦ elim (Bool-cases (is_auth_error exc)) [
      | inl h ↦ rw (e, handle) (rw (h, handle) (record { lower = refl }))
      | inr h ↦ rw (e, handle) (rw (h, handle) (record { lower = refl }))
    ]
  ]

  conclude-Fair :
      (s : Service) (index : ℕ) (a : Attempt R) (i : ℕ) (k : ApiKeyState) (reply : Reply R)
      → a.call k ≡ reply
      → Fair index a s.books (conclude request s index a i k reply)
  unfolding conclude
  conclude-Fair s index a i k (answered r x y) e = (k, x, y, e, refl)
  conclude-Fair s index a i k (raised exc) e = handle-Fair index a s a.ends_at (some i) exc

  after_acquire-Fair :
      (b : Books) (index : ℕ) (a : Attempt R) (got : Result ℕ × RequestScheduler)
      → Fair index a b (after_acquire request b index a got)
  unfolding after_acquire call_with
  after_acquire-Fair b index a (err e, scheduler) =
      handle-Fair index a (record { scheduler = scheduler; books = b }) a.ends_at none
        (exception_of e)
  after_acquire-Fair b index a (ok i, scheduler) =
      let s : Service = record { scheduler = scheduler; books = b } in
      elim (Option-cases (get_elem? scheduler.keys i)) [
        | inl e ↦
            rw (e, call_with) (handle-Fair index a s a.ends_at none (exception_of index_error))
        | inr (k, e) ↦ rw (e, call_with) (conclude-Fair s index a i k (a.call k) refl)
      ]

  module _ (f : FloatOps) (max_rpm : Option ℕ) (attempts : ℕ) (env : ℕ → Attempt R)
      (closing : Moment) where
    pub give_up-Booked :
        (b : Books) (s : Service) (last_exc : Option Exception)
        → s.books ≡ b
        → let result = give_up request f max_rpm attempts env closing s last_exc in
          Booked attempts env closing b result.0 result.1.books
    unfolding give_up
    give_up-Booked b s last_exc e = record {
      lower = ap (λ (x : Books). book_failure x request closing (ltb 1 attempts)) e;
    }

    attempt_once-Fair :
        (s : Service) (index : ℕ)
        → Fair index (env index) s.books (attempt_once request f max_rpm s index (env index))
    unfolding attempt_once
    attempt_once-Fair s index = after_acquire-Fair s.books index (env index) _

    -- What an attempt says of its own carries over to the request.
    pub Fair-Booked :
        (index : ℕ) (b : Books) (outcome : Outcome R) (s : Service)
        → Fair index (env index) b (ends outcome s)
        → Booked attempts env closing b outcome s.books
    Fair-Booked index b (responded r) s h = (index, h)
    Fair-Booked index b (exhausted_retries last_exc) s h = absurd h.lower
    Fair-Booked index b (passed_on exc) s h = h

    abbrev After : Books → Outcome R × Service → Type ℓ
    After b result = Booked attempts env closing b result.0 result.1.books

    loop-Booked :
        (left index : ℕ) (b : Books) (s : Service) (last_exc : Option Exception)
        → s.books ≡ b
        → After b (loop request f max_rpm attempts env closing left index s last_exc)
    unfolding loop
    loop-Booked zero index b s last_exc e = give_up-Booked b s last_exc e
    loop-Booked (suc left) index b s last_exc e =
        go (attempt_once request f max_rpm s index (env index)) refl
          (subst
            (λ (x : Books).
              Fair index (env index) x (attempt_once request f max_rpm s index (env index)))
            e (attempt_once-Fair s index))
          (λ s' exc fair. loop-Booked left (index + 1) b s' (some exc) fair)
      where
        go :
            (v : Verdict R)
            → attempt_once request f max_rpm s index (env index) ≡ v
            → Fair index (env index) b v
            → ((s' : Service) (exc : Exception)
                → s'.books ≡ b
                → After b
                    (loop request f max_rpm attempts env closing left (index + 1) s' (some exc)))
            → After b (loop request f max_rpm attempts env closing (suc left) index s last_exc)
        go (ends outcome s') e fair next = rw (e, loop) (Fair-Booked index b outcome s' fair)
        go (goes_on exc s') e fair next = rw (e, loop) (next s' exc fair.lower)
        go (leaves exc s') e fair next = rw (e, loop) (give_up-Booked b s' (some exc) fair.lower)

  -- Whatever the calls return or raise, a request is recorded exactly once. Where it returns a
  -- response, some key gave that response in some attempt, and the trackers and the session hold one
  -- success more: that attempt's, with its tokens, its latency and the key. Where it raises that its
  -- attempts are exhausted, they hold one failure more. Where it passes an exception on, they are as
  -- they were.
  pub run_with_rotation-Booked :
      (f : FloatOps) (max_rpm : Option ℕ) (s : Service) (retries : ℕ) (env : ℕ → Attempt R)
      (closing : Moment)
      → let result = run_with_rotation request f max_rpm s retries env closing in
        Booked (retries + 1) env closing s.books result.0 result.1.books
  unfolding run_with_rotation
  run_with_rotation-Booked f max_rpm s retries env closing =
      loop-Booked f max_rpm (retries + 1) env closing (retries + 1) 0 s.books s none refl

  -- The generic loop records a request in the same way, with an extractor of tokens and without one.
  pub run_rotation_generic-Booked :
      (f : FloatOps) (max_rpm : Option ℕ) (s : Service) (retries : ℕ) (env : ℕ → Attempt R)
      (tokens_extractor : Option (R → ℕ × ℕ)) (closing : Moment)
      → let result =
          run_rotation_generic request f max_rpm s retries env tokens_extractor closing in
        Booked
          (retries + 1)
          (with_extractor tokens_extractor env)
          closing
          s.books
          result.0
          result.1.books
  unfolding run_rotation_generic
  run_rotation_generic-Booked f max_rpm s retries env tokens_extractor closing =
      loop-Booked f max_rpm (retries + 1) (with_extractor tokens_extractor env) closing
        (retries + 1) 0 s.books s none refl

-- A response is one success, running out of attempts is one failure, and an exception that is passed
-- on is neither.
abbrev pub Recorded {ℓ} : {R : Type ℓ} → UsageTracker → Outcome R → UsageTracker → Type 0
Recorded u (responded r) u' =
    (u'.lifetime.total_requests ≡ u.lifetime.total_requests + 1)
    × (u'.lifetime.successful_requests ≡ u.lifetime.successful_requests + 1)
    × (u'.lifetime.failed_requests ≡ u.lifetime.failed_requests)
Recorded u (exhausted_retries last_exc) u' =
    (u'.lifetime.total_requests ≡ u.lifetime.total_requests + 1)
    × (u'.lifetime.successful_requests ≡ u.lifetime.successful_requests)
    × (u'.lifetime.failed_requests ≡ u.lifetime.failed_requests + 1)
Recorded u (passed_on exc) u' = u' ≡ u

module _ {ℓ} {R : Type ℓ} (request : Request) where
  -- The usage tracker of a request that is recorded once.
  pub Booked-Recorded :
      (attempts : ℕ) (env : ℕ → Attempt R) (closing : Moment) (b b' : Books) (outcome : Outcome R)
      → Booked request attempts env closing b outcome b'
      → Recorded b.tracking.usage_tracker outcome b'.tracking.usage_tracker
  unfolding Usage.record_success Usage.record_failure
  Booked-Recorded attempts env closing b b' (responded r) (index, (k, x, y, called, e)) =
      subst (λ (u : UsageTracker). Recorded b.tracking.usage_tracker (responded r) u)
        (sym (
          ap (λ (c : Books). c.tracking.usage_tracker) e
          ∙ book_success-usage b request (end_of (env index)) k.key_id (env index).latency x y
              (ltb 0 index)))
        (refl, refl, refl)
  Booked-Recorded attempts env closing b b' (exhausted_retries last_exc) h =
      subst
        (λ (u : UsageTracker).
          Recorded {R = R} b.tracking.usage_tracker (exhausted_retries last_exc) u)
        (sym (
          ap (λ (c : Books). c.tracking.usage_tracker) h.lower
          ∙ book_failure-usage b request closing (ltb 1 attempts)))
        (refl, refl, refl)
  Booked-Recorded attempts env closing b b' (passed_on exc) h =
      ap (λ (x : Books). x.tracking.usage_tracker) h.lower

  -- Whatever the calls return or raise, a request is counted once: as a success if it returns a
  -- response, as a failure if its attempts run out or an authentication error ends them, and not at
  -- all if the exception is passed on.
  pub run_with_rotation-Recorded :
      (f : FloatOps) (max_rpm : Option ℕ) (s : Service) (retries : ℕ) (env : ℕ → Attempt R)
      (closing : Moment)
      → let result = run_with_rotation request f max_rpm s retries env closing in
        Recorded s.books.tracking.usage_tracker result.0 result.1.books.tracking.usage_tracker
  run_with_rotation-Recorded f max_rpm s retries env closing =
      Booked-Recorded (retries + 1) env closing s.books _ _
        (run_with_rotation-Booked request f max_rpm s retries env closing)

  -- The generic loop counts a request in the same way, with an extractor of tokens and without one.
  pub run_rotation_generic-Recorded :
      (f : FloatOps) (max_rpm : Option ℕ) (s : Service) (retries : ℕ) (env : ℕ → Attempt R)
      (tokens_extractor : Option (R → ℕ × ℕ)) (closing : Moment)
      → let result =
          run_rotation_generic request f max_rpm s retries env tokens_extractor closing in
        Recorded s.books.tracking.usage_tracker result.0 result.1.books.tracking.usage_tracker
  run_rotation_generic-Recorded f max_rpm s retries env tokens_extractor closing =
      Booked-Recorded (retries + 1) (with_extractor tokens_extractor env) closing s.books _ _
        (run_rotation_generic-Booked request f max_rpm s retries env tokens_extractor closing)
