-- ===== src/Provider/Structured/Rounds.antt =====
-- The rounds of a structured call, and what they leave in the usage tracker.
use mathlib.Core.Logic.{Lift}
use pool_gate.Common.{
  ℕ, zero, suc, ◌+◌, ◌<◌, ◌≡◌, refl, sym, subst, Option, none, some, List, arith, ◌⊎◌, inl, inr,
}
use pool_gate.Text.{Text}
use pool_gate.Books.{Request, Moment}
use pool_gate.Tracking.Usage.{UsageTracker}
use pool_gate.Pool.Key.{ApiKeyState}
use pool_gate.Rotation.{
  Attempt, Service, Outcome, answered, responded, exhausted_retries, passed_on,
}
use pool_gate.Rotation.Accounts.{Booked, Booked-Recorded}
use pool_gate.Provider.Response.{GroqResponse}
use pool_gate.Provider.{Loop}
use pool_gate.Provider.Handled.{Records}
use pool_gate.Provider.Messages.{Message, extract_json}
use pool_gate.Provider.Structured.{
  Structured, parsed, unparsed, exhausted, raised_on, refused_call, after_round, repaired,
  structured_loop,
}

abbrev pub usage_of : Service → UsageTracker
usage_of s = s.books.tracking.usage_tracker

-- The lifetime counters are these many successes and failures more.
abbrev pub Counted : UsageTracker → ℕ → ℕ → UsageTracker → Type 0
Counted u successes failures u' =
    (u'.lifetime.successful_requests ≡ u.lifetime.successful_requests + successes)
    × (u'.lifetime.failed_requests ≡ u.lifetime.failed_requests + failures)
    × (u'.lifetime.total_requests ≡ u.lifetime.total_requests + successes + failures)

module _ {ℓ} {T : Type ℓ} (validate : Text → T ⊎ Text)
    (seen : (ℕ → Attempt GroqResponse) → ℕ → Attempt GroqResponse)
    (client : ℕ → List Message → ℕ → Attempt GroqResponse) (first : List Message) where
  -- The client answered an attempt of this round, with these messages, by this response.
  abbrev pub Gave : ℕ → List Message → GroqResponse → Type 0
  Gave n messages r =
      (index : ℕ) × (k : ApiKeyState) × (x : ℕ) × (y : ℕ) × ((seen (client n messages) index).call k
        ≡ answered r x y)

  -- The messages and the last raw answer that a round starts with: those of the call at first, and
  -- then those repaired after a response of the round before that the schema does not take.
  pub data Reached : ℕ → List Message → Option Text → Type ℓ where
    start : Reached zero first none
    again :
        {n : ℕ} {messages : List Message} {raw : Option Text} (r : GroqResponse) (error : Text)
        → Reached n messages raw
        → Gave n messages r
        → validate (extract_json r.text) ≡ inr error
        → Reached (n + 1) (repaired messages r.text error) (some r.text)

  -- How a call with these many rounds may end. A value is what the schema makes of the JSON extracted
  -- from the response of the round that was reached; it and the earlier rounds are successes. An answer
  -- that never parses takes all the rounds, and the error has the last of them.
  abbrev pub Rounds : ℕ → UsageTracker → Structured T → UsageTracker → Type ℓ
  Rounds total u (parsed value) u' =
      (n : ℕ) × (n < total)
      × (messages : List Message) × (raw : Option Text) × Reached n messages raw
      × (r : GroqResponse) × Gave n messages r
      × (validate (extract_json r.text) ≡ inl value)
      × Counted u (n + 1) 0 u'
  Rounds total u (unparsed raw) u' =
      (messages : List Message) × Reached total messages raw × Counted u total 0 u'
  Rounds total u (exhausted last_exc) u' =
      (n : ℕ) × (n < total)
      × (messages : List Message) × (raw : Option Text) × Reached n messages raw
      × Counted u n 1 u'
  Rounds total u (raised_on exc) u' =
      (n : ℕ) × (n < total)
      × (messages : List Message) × (raw : Option Text) × Reached n messages raw
      × Counted u n 0 u'
  Rounds total u (refused_call e) u' = Lift {0, ℓ} ⊥

  module _ (run : Loop GroqResponse) (once : Records run seen) (request : Request) (retries : ℕ)
      (closing : ℕ → Moment) where
    abbrev After : ℕ → UsageTracker → Structured T × Service → Type ℓ
    After total u result = Rounds total u result.0 (usage_of result.1)

    -- After a round that was reached, if what follows a response is as stated.
    after_round-Rounds :
        (total n : ℕ) (u : UsageTracker) (s : Service) (messages : List Message) (raw : Option Text)
        (next : List Message → Option Text → Service → Structured T × Service)
        (round : Outcome GroqResponse × Service)
        → n < total
        → Reached n messages raw
        → Counted u n 0 (usage_of s)
        → Booked request
            (retries + 1)
            (seen (client n messages))
            (closing n)
            s.books
            round.0
            round.1.books
        → ((ms : List Message) (raw' : Option Text) (s' : Service)
            → Reached (n + 1) ms raw'
            → Counted u (n + 1) 0 (usage_of s')
            → After total u (next ms raw' s'))
        → After total u
            (after_round run validate request retries client closing next messages round)
    unfolding after_round
    after_round-Rounds total n u s messages raw next (exhausted_retries last_exc, s') lt reached c
          booked rest =
        let h =
          Booked-Recorded request (retries + 1) (seen (client n messages)) (closing n) s.books
            s'.books (exhausted_retries last_exc) booked in
        (
          n,
          lt,
          messages,
          raw,
          reached,
          (omega (arith, c.0, h.1), omega (arith, c.1, h.2), omega (arith, c.2, h.0)),
        )
    after_round-Rounds total n u s messages raw next (passed_on exc, s') lt reached c booked rest =
        (
          n,
          lt,
          messages,
          raw,
          reached,
          subst (Counted u n 0)
              (sym (
                Booked-Recorded request (retries + 1) (seen (client n messages)) (closing n) s.books
                  s'.books (passed_on exc) booked))
              c,
        )
    after_round-Rounds total n u s messages raw next (responded r, s') lt reached c booked rest =
        go (validate (extract_json r.text)) refl
      where
        gave : Gave n messages r
        gave = let (index, (k, x, y, called, e)) = booked in (index, k, x, y, called)

        counted : Counted u (n + 1) 0 (usage_of s')
        counted =
            let h =
              Booked-Recorded request (retries + 1) (seen (client n messages)) (closing n) s.books
                s'.books (responded r) booked in
            (omega (arith, c.0, h.1), omega (arith, c.1, h.2), omega (arith, c.2, h.0))

        go :
            (v : T ⊎ Text)
            → validate (extract_json r.text) ≡ v
            → After total u (
                after_round run validate request retries client closing next messages
                  (responded r, s'))
        go (inl value) e = rw (e, after_round) (n, lt, messages, raw, reached, r, gave, e, counted)
        go (inr error) e =
            rw (e, after_round)
              (rest (repaired messages r.text error) (some r.text) s' (again r error reached gave e)
                counted)

    -- From a round that was reached, with the rounds that are left.
    loop-Rounds :
        (left n total : ℕ) (u : UsageTracker) (messages : List Message) (raw : Option Text)
        (s : Service)
        → n + left ≡ total
        → Reached n messages raw
        → Counted u n 0 (usage_of s)
        → After total u
            (structured_loop run validate request retries client closing left n messages raw s)
    unfolding structured_loop
    loop-Rounds zero n total u messages raw s e reached c =
        subst (λ (m : ℕ). (ms : List Message) × Reached m ms raw × Counted u m 0 (usage_of s))
          (omega arith) (messages, reached, c)
    loop-Rounds (suc left) n total u messages raw s e reached c =
        after_round-Rounds total n u s messages raw
          (structured_loop run validate request retries client closing left (n + 1))
          (run request s retries (client n messages) (closing n)) (omega arith) reached c
          (once request s retries (client n messages) (closing n))
          (λ ms raw' s' reached' c'.
            loop-Rounds left (n + 1) total u ms raw' s' (omega arith) reached' c')

    -- The loop of a structured call of these many rounds. Each round after the first starts with the
    -- messages repaired after a response that the client gave in the round before, and that the schema
    -- does not take. Where the loop returns a value, the value is what the schema makes of the JSON
    -- extracted from a response that the client gave in a round so reached; that round and those before
    -- are one success each in the usage tracker, and no failure. Where no answer parses, all the rounds
    -- were so reached and are successes, and the raw answer is that of the last. Where a rotation raises,
    -- it does so in a round so reached; the earlier ones are successes, and it is one failure if its
    -- attempts ran out and none if it passed an exception on. The loop never ends by refusing the call.
    pub structured_loop-Rounds :
        (total : ℕ) (s : Service)
        → After total
            (usage_of s)
            (structured_loop run validate request retries client closing total 0 first none s)
    structured_loop-Rounds total s =
        loop-Rounds total 0 total (usage_of s) first none s (omega arith) start
          (omega arith, omega arith, omega arith)
