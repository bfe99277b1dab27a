-- ===== src/Rotation/Open.antt =====
-- The open requests of the keys, over a request.
use pool_gate.Common.{
  ℕ, zero, suc, ◌+◌, ◌≡◌, refl, sym, ap, subst, ◌∙◌, Bool, true, false, Option, none, some, List,
  [], ◌∷◌, arith, inl, inr, get_elem?, set, map, get_elem?-set_self, lt-length_of_get_elem?,
}
use pool_gate.Float.{FloatOps}
use pool_gate.Result.{Result, ok, err, no_available_api_key}
use pool_gate.Retry.{Exception, is_auth_error, is_rate_limit}
use pool_gate.Pool.Key.{
  ApiKeyState, Clock, record_request_start, record_request_end, record_failure, mark_failed,
  reset_cooldown,
}
use pool_gate.Pool.Strategy.{PoolConfig}
use pool_gate.Pool.Scheduler.{
  RequestScheduler, acquire_key, release_key, mark_key_failure, on_key, failed_key, revive,
}
use pool_gate.Pool.Scheduler.Gather.{Distinct, Distinct-set, Distinct-revived, revived}
use pool_gate.Pool.Scheduler.Acquire.{acquire_key_outcome}
use pool_gate.Books.{Books, Request, Moment}
use pool_gate.Rotation.{
  Reply, answered, raised, Attempt, Service, is_passed_on, Verdict, ends, goes_on, leaves, handle,
  conclude, call_with, after_acquire, attempt_once, give_up, loop, run_with_rotation, fail_held,
  disable_held,
}

-- The open requests of each key.
abbrev pub opens : List ApiKeyState → List ℕ
opens = map (λ k. k.active_requests)

-- The calls raise nothing that disables a key.
abbrev pub IsMild {ℓ} : {R : Type ℓ} → (ℕ → Attempt R) → Type ℓ
IsMild env =
    (index : ℕ) (k : ApiKeyState) (exc : Exception)
    → (env index).call k ≡ raised exc
    → (is_passed_on exc.class ≡ false) × (is_auth_error exc ≡ false)

-- The ids are distinct, and the open requests are these.
pub record Stands (before : List ℕ) (s : Service) : Type 0 where
  pub distinct : Distinct s.scheduler.keys
  pub same : opens s.scheduler.keys ≡ before

abbrev StandsAfter {ℓ} : {R : Type ℓ} → List ℕ → Verdict R → Type 0
StandsAfter before (ends outcome s) = Stands before s
StandsAfter before (goes_on exc s) = Stands before s
StandsAfter before (leaves exc s) = Stands before s

opens-revived : (now : Clock) (keys : List ApiKeyState) → opens (revived now keys) ≡ opens keys
unfolding revive reset_cooldown
opens-revived now [] = refl
opens-revived now (k ∷ keys) = ground (arith, opens-revived now keys)

opens-set-set :
    (keys : List ApiKeyState) (i : ℕ) (k a b : ApiKeyState)
    → get_elem? keys i ≡ some k
    → b.active_requests ≡ k.active_requests
    → opens (set (set keys i a) i b) ≡ opens keys
opens-set-set [] i k a b h e = cc
opens-set-set (x ∷ keys) zero k a b h e = cc
opens-set-set (x ∷ keys) (suc i) k a b h e =
    ap (λ (os : List ℕ). x.active_requests ∷ os) (opens-set-set keys i k a b h e)

-- A method that closes the request that was just opened.
settled :
    (books : Books) (s : RequestScheduler) (keys : List ApiKeyState) (i : ℕ) (k a : ApiKeyState)
    (method : ApiKeyState → ApiKeyState)
    → get_elem? keys i ≡ some k
    → s.keys ≡ set keys i a
    → a.key_id ≡ k.key_id
    → (method a).key_id ≡ k.key_id
    → (method a).active_requests ≡ k.active_requests
    → Distinct keys
    → Stands (opens keys) (record { scheduler = on_key s i method; books = books })
unfolding on_key
settled books s keys i k a method at written id_a id_b closed d =
    let there : get_elem? (set keys i a) i ≡ some a =
      get_elem?-set_self keys i a (lt-length_of_get_elem? keys i at) in
    let there' : get_elem? s.keys i ≡ some a =
      ap (λ (l : List ApiKeyState). get_elem? l i) written ∙ there in
    let e : set s.keys i (method a) ≡ set (set keys i a) i (method a) =
      ap (λ (l : List ApiKeyState). set l i (method a)) written in
    rw (there', on_key)
      (record {
        distinct = subst Distinct (sym e) (
            Distinct-set (set keys i a) i a (method a) there (id_b ∙ sym id_a)
              (Distinct-set keys i k a at id_a d));
        same = ap opens e ∙ opens-set-set keys i k a (method a) at closed;
      })

-- The key is the same, with the open requests it had.
abbrev Closed : ApiKeyState → ApiKeyState → Type 0
Closed k l = (l.key_id ≡ k.key_id) × (l.active_requests ≡ k.active_requests)

start-same : (k : ApiKeyState) (now : Clock) → (record_request_start k now).key_id ≡ k.key_id
unfolding record_request_start
start-same k now = refl

end-Closed :
    (k : ApiKeyState) (now until : Clock) (latency x y : ℕ)
    → Closed k (record_request_end (record_request_start k now) until latency x y)
unfolding record_request_start record_request_end
end-Closed k now until latency x y = (refl, omega arith)

failed-Closed :
    (config : PoolConfig) (k : ApiKeyState) (now until : Clock) (limit : Bool)
    → Closed k (failed_key config until limit (record_request_start k now))
unfolding record_request_start failed_key record_failure mark_failed
failed-Closed config k now until true = (refl, omega arith)
failed-Closed config k now until false = ground arith

module _ {ℓ} {R : Type ℓ} (request : Request) where
  -- The call and what follows it, after the request was opened on a key.
  call_with-Stands :
      (books : Books) (s : RequestScheduler) (keys : List ApiKeyState) (i : ℕ) (k : ApiKeyState)
      (now : Clock) (index : ℕ) (a : Attempt R) (reply : Reply R)
      → get_elem? keys i ≡ some k
      → s.keys ≡ set keys i (record_request_start k now)
      → Distinct keys
      → ((exc : Exception)
          → reply ≡ raised exc
          → (is_passed_on exc.class ≡ false) × (is_auth_error exc ≡ false))
      → StandsAfter (opens keys) (
          conclude request
            (record { scheduler = s; books = books })
            index
            a
            i
            (record_request_start k now)
            reply)
  unfolding conclude handle release_key fail_held mark_key_failure
  call_with-Stands books s keys i k now index a (answered r x y) at written d mild =
      settled _ s keys i k (record_request_start k now)
        (λ l. record_request_end l a.ends_at a.latency x y) at written (start-same k now)
        (end-Closed k now a.ends_at a.latency x y).0 (end-Closed k now a.ends_at a.latency x y).1 d
  call_with-Stands books s keys i k now index a (raised exc) at written d mild =
      let (not_passed, not_auth) = mild exc refl in
      let closed = failed-Closed s.config k now a.ends_at (is_rate_limit exc) in
      rw (not_passed, handle)
        (rw (not_auth, handle)
          (settled books s keys i k (record_request_start k now)
            (failed_key s.config a.ends_at (is_rate_limit exc)) at written (start-same k now)
            closed.0 closed.1 d))

  refused-Stands :
      (books : Books) (s : RequestScheduler) (index : ℕ) (a : Attempt R)
      → Distinct s.keys
      → StandsAfter
          (opens s.keys)
          (after_acquire request books index a (err no_available_api_key, s))
  unfolding after_acquire handle disable_held
  refused-Stands books s index a d = record { distinct = d; same = refl }

  acquired-Stands :
      (books : Books) (s : RequestScheduler) (keys : List ApiKeyState) (i : ℕ) (k : ApiKeyState)
      (index : ℕ) (a : Attempt R)
      → get_elem? keys i ≡ some k
      → s.keys ≡ set keys i (record_request_start k a.starts_at)
      → Distinct keys
      → ((k : ApiKeyState) (exc : Exception)
          → a.call k ≡ raised exc
          → (is_passed_on exc.class ≡ false) × (is_auth_error exc ≡ false))
      → StandsAfter (opens keys) (after_acquire request books index a (ok i, s))
  unfolding after_acquire call_with
  acquired-Stands books s keys i k index a at written d mild =
      let k' = record_request_start k a.starts_at in
      let there : get_elem? s.keys i ≡ some k' =
        ap (λ (l : List ApiKeyState). get_elem? l i) written
        ∙ get_elem?-set_self keys i k' (lt-length_of_get_elem? keys i at) in
      rw (there, call_with)
        (call_with-Stands books s keys i k a.starts_at index a (a.call k') at written d (mild k'))

  attempt_once-Stands :
      (f : FloatOps) (max_rpm : Option ℕ) (s : Service) (index : ℕ) (a : Attempt R)
      → Distinct s.scheduler.keys
      → ((k : ApiKeyState) (exc : Exception)
          → a.call k ≡ raised exc
          → (is_passed_on exc.class ≡ false) × (is_auth_error exc ≡ false))
      → StandsAfter (opens s.scheduler.keys) (attempt_once request f max_rpm s index a)
  unfolding attempt_once
  attempt_once-Stands f max_rpm s index a d mild =
      let (keys, how, outcome) = acquire_key_outcome f s.scheduler a.starts_at max_rpm d in
      let d' : Distinct keys = elim how [
        | inl (same, _) ↦ subst Distinct (sym same) d
        | inr (same, _) ↦
            subst Distinct (sym same) (Distinct-revived a.starts_at s.scheduler.keys d)
      ] in
      let os : opens keys ≡ opens s.scheduler.keys = elim how [
        | inl (same, _) ↦ ap opens same
        | inr (same, _) ↦ ap opens same ∙ opens-revived a.starts_at s.scheduler.keys
      ] in
      subst
        (λ (l : List ℕ).
          StandsAfter l
            (after_acquire request s.books index a (acquire_key f s.scheduler a.starts_at max_rpm)))
        os
        (elim outcome [
          | inl (_, e) ↦
              subst
                (λ (x : Result ℕ × RequestScheduler).
                  StandsAfter (opens keys) (after_acquire request s.books index a x))
                (sym e) (refused-Stands s.books (record s.scheduler { keys = keys }) index a d')
          | inr (r, strategy, e, (at, ready)) ↦
              subst
                (λ (x : Result ℕ × RequestScheduler).
                  StandsAfter (opens keys) (after_acquire request s.books index a x))
                (sym e) (acquired-Stands s.books _ keys r.0 r.1 index a at refl d' mild)
        ])

  module _ (f : FloatOps) (max_rpm : Option ℕ) (attempts : ℕ) (env : ℕ → Attempt R)
      (closing : Moment) (mild : IsMild env) where
    loop-Stands :
        (left index : ℕ) (before : List ℕ) (s : Service) (last_exc : Option Exception)
        → Stands before s
        → Stands before (loop request f max_rpm attempts env closing left index s last_exc).1
    unfolding loop give_up
    loop-Stands zero index before s last_exc h = record { distinct = h.distinct; same = h.same }
    loop-Stands (suc left) index before s last_exc h =
        go (attempt_once request f max_rpm s index (env index)) refl
          (subst
            (λ (l : List ℕ). StandsAfter l (attempt_once request f max_rpm s index (env index)))
            h.same (attempt_once-Stands f max_rpm s index (env index) h.distinct (mild index)))
          (λ s' exc h'. loop-Stands left (index + 1) before s' (some exc) h')
      where
        go :
            (v : Verdict R)
            → attempt_once request f max_rpm s index (env index) ≡ v
            → StandsAfter before v
            → ((s' : Service) (exc : Exception)
                → Stands before s'
                → Stands before
                    (loop request f max_rpm attempts env closing left (index + 1) s' (some exc)).1)
            → Stands before
                (loop request f max_rpm attempts env closing (suc left) index s last_exc).1
        go (ends outcome s') e h' next = rw (e, loop) h'
        go (goes_on exc s') e h' next = rw (e, loop) (next s' exc h')
        go (leaves exc s') e h' next =
            rw (e, loop) (record { distinct = h'.distinct; same = h'.same })

  -- A request whose calls raise no authentication error, and nothing that is passed on, leaves every
  -- key with the open requests it had, however many attempts it makes and however it ends, if the ids
  -- are distinct; they stay so.
  pub run_with_rotation-Stands :
      (f : FloatOps) (max_rpm : Option ℕ) (s : Service) (retries : ℕ) (env : ℕ → Attempt R)
      (closing : Moment)
      → IsMild env
      → Distinct s.scheduler.keys
      → Stands
          (opens s.scheduler.keys)
          (run_with_rotation request f max_rpm s retries env closing).1
  unfolding run_with_rotation
  run_with_rotation-Stands f max_rpm s retries env closing mild d =
      loop-Stands f max_rpm (retries + 1) env closing mild (retries + 1) 0 (opens s.scheduler.keys)
        s none (record { distinct = d; same = refl })
