-- ===== src/Streams.antt =====
-- The streaming loops of poolgate/services/provider.py, `stream` and `async_stream`, from the
-- acquisition of the first key on. What the provider's client streams in an attempt is the
-- environment's: whether a chunk was delivered, and how the stream ended.
use pool_gate.Common.{
  ℕ, zero, suc, ◌+◌, ◌≡◌, refl, subst, Bool, true, false, Option, none, some, Option-cases, inl,
  inr, get_elem?, ltb,
}
use pool_gate.Float.{FloatOps}
use pool_gate.Result.{Result, ok, err, index_error}
use pool_gate.Retry.{Exception, is_rate_limit}
use pool_gate.Pool.Key.{ApiKeyState}
use pool_gate.Pool.Scheduler.{RequestScheduler, acquire_key, release_key, mark_key_failure}
use pool_gate.Books.{Books, Request, Moment, book_success}
use pool_gate.Rotation.{
  Reply, answered, raised, Attempt, Service, Outcome, responded, passed_on, end_of, exception_of,
  Verdict, ends, goes_on, leaves, give_up,
}
use pool_gate.Rotation.Accounts.{
  Booked, Recorded, Fair, Fair-Booked, give_up-Booked, Booked-Recorded,
}

module _ {ℓ} {R : Type ℓ} (request : Request) where
  -- After the stream on the key at a place: `yielded` is whether a chunk had been delivered.
  unfoldable pub stream_conclude :
      Service → ℕ → Attempt R → ℕ → ApiKeyState → Bool → Reply R → Verdict R
  stream_conclude s index a i k yielded (answered r tokens_in tokens_out) =
      ends (responded r) (record {
        scheduler = release_key s.scheduler a.ends_at i a.latency tokens_in tokens_out;
        books =
            book_success s.books request (end_of a) k.key_id a.latency tokens_in tokens_out
              (ltb 0 index);
      })
  stream_conclude s index a i k true (raised exc) =
      ends (passed_on exc)
        (record s { scheduler = mark_key_failure s.scheduler a.ends_at i (is_rate_limit exc) })
  stream_conclude s index a i k false (raised exc) =
      goes_on exc
        (record s { scheduler = mark_key_failure s.scheduler a.ends_at i (is_rate_limit exc) })

  -- The stream with the key at a place.
  unfoldable pub stream_with : Service → ℕ → Attempt R → ℕ → (ApiKeyState → Bool) → Verdict R
  stream_with s index a i yields = elim (get_elem? s.scheduler.keys i) [
    | none ↦ ends (passed_on (exception_of index_error)) s
    | some k ↦ stream_conclude s index a i k (yields k) (a.call k)
  ]

  -- A key is acquired outside the `try`, so that what `acquire_key` raises is passed on.
  unfoldable pub stream_from :
      Books → ℕ → Attempt R → (ApiKeyState → Bool) → Result ℕ × RequestScheduler → Verdict R
  stream_from books index a yields (ok i, scheduler) =
      stream_with (record { scheduler = scheduler; books = books }) index a i yields
  stream_from books index a yields (err e, scheduler) =
      ends (passed_on (exception_of e)) (record { scheduler = scheduler; books = books })

  module _ (f : FloatOps) (max_rpm : Option ℕ) (attempts : ℕ) (env : ℕ → Attempt R)
      (yields : ℕ → ApiKeyState → Bool) (closing : Moment) where
    -- The body of the loop.
    unfoldable pub stream_once : Service → ℕ → Verdict R
    stream_once s index =
        stream_from s.books index (env index) (yields index)
          (acquire_key f s.scheduler (env index).starts_at max_rpm)

    -- The loop, with the attempts that are left and the index of the next.
    unfoldable pub stream_loop : ℕ → ℕ → Service → Option Exception → Outcome R × Service
    stream_loop zero index s last_exc = give_up request f max_rpm attempts env closing s last_exc
    stream_loop (suc left) index s last_exc = elim (stream_once s index) [
      | ends outcome s' ↦ (outcome, s')
      | goes_on exc s' ↦ stream_loop left (index + 1) s' (some exc)
      | leaves exc s' ↦ give_up request f max_rpm attempts env closing s' (some exc)
    ]

  -- `stream`
  unfoldable pub stream :
      FloatOps
      → Option ℕ
      → Service
      → ℕ
      → (ℕ → Attempt R)
      → (ℕ → ApiKeyState → Bool)
      → Moment
      → Outcome R × Service
  stream f max_rpm s retries env yields closing =
      stream_loop f max_rpm (retries + 1) env yields closing (retries + 1) 0 s none

  -- `async_stream`: the same loop over an asynchronous stream.
  unfoldable pub async_stream :
      FloatOps
      → Option ℕ
      → Service
      → ℕ
      → (ℕ → Attempt R)
      → (ℕ → ApiKeyState → Bool)
      → Moment
      → Outcome R × Service
  async_stream f max_rpm s retries env yields closing =
      stream_loop f max_rpm (retries + 1) env yields closing (retries + 1) 0 s none

module _ {ℓ} {R : Type ℓ} (request : Request) where
  stream_conclude-Fair :
      (s : Service) (index : ℕ) (a : Attempt R) (i : ℕ) (k : ApiKeyState) (yielded : Bool)
      (reply : Reply R)
      → a.call k ≡ reply
      → Fair request index a s.books (stream_conclude request s index a i k yielded reply)
  unfolding stream_conclude
  stream_conclude-Fair s index a i k yielded (answered r x y) e = (k, x, y, e, refl)
  stream_conclude-Fair s index a i k true (raised exc) e = record { lower = refl }
  stream_conclude-Fair s index a i k false (raised exc) e = record { lower = refl }

  stream_from-Fair :
      (b : Books) (index : ℕ) (a : Attempt R) (yields : ApiKeyState → Bool)
      (got : Result ℕ × RequestScheduler)
      → Fair request index a b (stream_from request b index a yields got)
  unfolding stream_from stream_with
  stream_from-Fair b index a yields (err e, scheduler) = record { lower = refl }
  stream_from-Fair b index a yields (ok i, scheduler) =
      elim (Option-cases (get_elem? scheduler.keys i)) [
        | inl e ↦ rw (e, stream_with) (record { lower = refl })
        | inr (k, e) ↦
            rw (e, stream_with)
              (stream_conclude-Fair (record { scheduler = scheduler; books = b }) index a i k
                (yields k) (a.call k) refl)
      ]

  module _ (f : FloatOps) (max_rpm : Option ℕ) (attempts : ℕ) (env : ℕ → Attempt R)
      (yields : ℕ → ApiKeyState → Bool) (closing : Moment) where
    stream_once-Fair :
        (s : Service) (index : ℕ)
        → Fair request index
            (env index)
            s.books
            (stream_once request f max_rpm attempts env yields closing s index)
    unfolding stream_once
    stream_once-Fair s index = stream_from-Fair s.books index (env index) (yields index) _

    abbrev After : Books → Outcome R × Service → Type ℓ
    After b result = Booked request attempts env closing b result.0 result.1.books

    stream_loop-Booked :
        (left index : ℕ) (b : Books) (s : Service) (last_exc : Option Exception)
        → s.books ≡ b
        → After b (stream_loop request f max_rpm attempts env yields closing left index s last_exc)
    unfolding stream_loop
    stream_loop-Booked zero index b s last_exc e =
        give_up-Booked request f max_rpm attempts env closing b s last_exc e
    stream_loop-Booked (suc left) index b s last_exc e =
        go (stream_once request f max_rpm attempts env yields closing s index) refl
          (subst
            (λ (x : Books).
              Fair request index (env index) x
                (stream_once request f max_rpm attempts env yields closing s index))
            e (stream_once-Fair s index))
          (λ s' exc fair. stream_loop-Booked left (index + 1) b s' (some exc) fair)
      where
        go :
            (v : Verdict R)
            → stream_once request f max_rpm attempts env yields closing s index ≡ v
            → Fair request index (env index) b v
            → ((s' : Service) (exc : Exception)
                → s'.books ≡ b
                → After b (
                    stream_loop request f max_rpm attempts env yields closing left
                      (index + 1)
                      s'
                      (some exc)))
            → After b (
                stream_loop request f max_rpm attempts env yields closing
                  (suc left)
                  index
                  s
                  last_exc)
        go (ends outcome s') e fair next =
            rw (e, stream_loop)
              (Fair-Booked request f max_rpm attempts env closing index b outcome s' fair)
        go (goes_on exc s') e fair next = rw (e, stream_loop) (next s' exc fair.lower)
        go (leaves exc s') e fair next =
            rw (e, stream_loop)
              (give_up-Booked request f max_rpm attempts env closing b s' (some exc) fair.lower)

  -- A streamed request is recorded exactly once as well: one success, that of the attempt whose stream
  -- came to its end, with the tokens that it reported; one failure if the attempts run out before any
  -- output; and nothing if an exception is passed on, as after the first chunk.
  pub stream-Booked :
      (f : FloatOps) (max_rpm : Option ℕ) (s : Service) (retries : ℕ) (env : ℕ → Attempt R)
      (yields : ℕ → ApiKeyState → Bool) (closing : Moment)
      → let result = stream request f max_rpm s retries env yields closing in
        Booked request (retries + 1) env closing s.books result.0 result.1.books
  unfolding stream
  stream-Booked f max_rpm s retries env yields closing =
      stream_loop-Booked f max_rpm (retries + 1) env yields closing (retries + 1) 0 s.books s none
        refl

  -- A streamed request is counted once as well: as a success if the stream comes to its end, as a
  -- failure if its attempts run out before any output, and not at all if an exception is passed on,
  -- as after the first chunk.
  pub stream-Recorded :
      (f : FloatOps) (max_rpm : Option ℕ) (s : Service) (retries : ℕ) (env : ℕ → Attempt R)
      (yields : ℕ → ApiKeyState → Bool) (closing : Moment)
      → let result = stream request f max_rpm s retries env yields closing in
        Recorded s.books.tracking.usage_tracker result.0 result.1.books.tracking.usage_tracker
  stream-Recorded f max_rpm s retries env yields closing =
      Booked-Recorded request (retries + 1) env closing s.books _ _
        (stream-Booked f max_rpm s retries env yields closing)
