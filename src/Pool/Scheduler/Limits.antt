-- ===== src/Pool/Scheduler/Limits.antt =====
-- No key has more open requests than its limit, over any sequence of the scheduler's methods.
use pool_gate.Common.{
  ℕ, ◌≤◌, ◌≡◌, refl, sym, subst, Bool, true, false, Option, List, [], ◌∷◌, arith, All, All_at,
  All-set, get_elem?, set, inl, inr, Option-cases,
}
use pool_gate.Float.{FloatOps}
use pool_gate.Result.{Result}
use pool_gate.Pool.Key.{
  Clock, ApiKeyState, record_request_start, record_request_end, record_failure, mark_disabled,
  mark_failed, reset_cooldown,
}
use pool_gate.Pool.Key.Availability.{is_available_lem}
use pool_gate.Pool.Strategy.{PoolConfig, Strategy}
use pool_gate.Pool.Scheduler.{
  RequestScheduler, acquire_key, release_key, mark_key_failure, mark_key_disabled, set_strategy,
  on_key, failed_key, revive,
}
use pool_gate.Pool.Scheduler.Gather.{Distinct, Distinct-set, Distinct-revived, revived}
use pool_gate.Pool.Scheduler.Acquire.{Gathered, acquire_key_outcome}

abbrev pub HasRoom : ApiKeyState → Type 0
HasRoom k = k.active_requests ≤ k.max_parallel_requests

-- The ids are distinct, and no key has more open requests than its limit.
pub record IsBounded (s : RequestScheduler) : Type 0 where
  pub distinct : Distinct s.keys
  pub room : All HasRoom s.keys

revived_room :
    (now : Clock) (keys : List ApiKeyState) → All HasRoom keys → All HasRoom (revived now keys)
unfolding revive reset_cooldown
revived_room now [] h = tt
revived_room now (k ∷ keys) h = (ground (arith, h.0), revived_room now keys h.1)

-- A method that keeps the id and opens no request.
record Closes (method : ApiKeyState → ApiKeyState) : Type 0 where
  same_id : (k : ApiKeyState) → (method k).key_id ≡ k.key_id
  keeps_room : (k : ApiKeyState) → HasRoom k → HasRoom (method k)

on_key-IsBounded :
    (s : RequestScheduler) (i : ℕ) (method : ApiKeyState → ApiKeyState)
    → Closes method
    → IsBounded s
    → IsBounded (on_key s i method)
unfolding on_key
on_key-IsBounded s i method c h = elim (Option-cases (get_elem? s.keys i)) [
  | inl e ↦ rw (e, on_key) h
  | inr (k, e) ↦
      rw (e, on_key)
        (record {
          distinct = Distinct-set s.keys i k (method k) e (c.same_id k) h.distinct;
          room =
              All-set HasRoom s.keys i (method k) h.room
                (c.keeps_room k (All_at HasRoom s.keys i h.room e));
        })
]

pub data Call : Type 0 where
  acquires : Clock → Option ℕ → Call
  releases : Clock → ℕ → ℕ → ℕ → ℕ → Call
  fails : Clock → ℕ → Bool → Call
  disables : ℕ → Call
  switches : Strategy → Call

module _ (f : FloatOps) where
  unfoldable pub step : RequestScheduler → Call → RequestScheduler
  step s (acquires now max_rpm) = (acquire_key f s now max_rpm).1
  step s (releases now i latency tokens_in tokens_out) =
      release_key s now i latency tokens_in tokens_out
  step s (fails now i is_rate_limit) = mark_key_failure s now i is_rate_limit
  step s (disables i) = mark_key_disabled s i
  step s (switches strategy) = set_strategy s strategy

  unfoldable pub run : RequestScheduler → List Call → RequestScheduler
  run s [] = s
  run s (c ∷ cs) = run (step s c) cs

Gathered-IsBounded :
    (s : RequestScheduler) (keys : List ApiKeyState) (now : Clock)
    → Gathered keys s.keys now
    → IsBounded s
    → IsBounded (record s { keys = keys })
Gathered-IsBounded s keys now (inl (same, _)) h = record {
  distinct = subst Distinct (sym same) h.distinct;
  room = subst (All HasRoom) (sym same) h.room;
}
Gathered-IsBounded s keys now (inr (same, _)) h = record {
  distinct = subst Distinct (sym same) (Distinct-revived now s.keys h.distinct);
  room = subst (All HasRoom) (sym same) (revived_room now s.keys h.room);
}

acquire_key-IsBounded :
    (f : FloatOps) (s : RequestScheduler) (now : Clock) (max_rpm : Option ℕ)
    → IsBounded s
    → IsBounded (acquire_key f s now max_rpm).1
acquire_key-IsBounded f s now max_rpm h =
    let (keys, how, outcome) = acquire_key_outcome f s now max_rpm h.distinct in
    let g = Gathered-IsBounded s keys now how h in
    elim outcome [
      | inl (_, e) ↦ subst (λ (x : Result ℕ × RequestScheduler). IsBounded x.1) (sym e) g
      | inr (r, strategy, e, (at, ready)) ↦
          let (_, _, free) = is_available_lem r.1 now ready in
          let bounded : IsBounded (record s {
            keys = set keys r.0 (record_request_start r.1 now);
            strategy = strategy;
          }) =
            record {
              distinct =
                  Distinct-set keys r.0 r.1 (record_request_start r.1 now) at
                    (unfold record_request_start in refl) g.distinct;
              room =
                  All-set HasRoom keys r.0 (record_request_start r.1 now) g.room
                    (unfold record_request_start in omega arith);
            } in
          subst (λ (x : Result ℕ × RequestScheduler). IsBounded x.1) (sym e) bounded
    ]

end_Closes : (now : Clock) (latency i o : ℕ) → Closes (λ k. record_request_end k now latency i o)
unfolding record_request_end
end_Closes now latency i o = record { same_id = λ k. refl; keeps_room = λ k h. omega arith }

failed_key-Closes :
    (config : PoolConfig) (now : Clock) (limit : Bool) → Closes (failed_key config now limit)
unfolding failed_key record_failure mark_failed
failed_key-Closes config now true = record { same_id = λ k. refl; keeps_room = λ k h. omega arith }
failed_key-Closes config now false = record {
  same_id = λ k. ground arith;
  keeps_room = λ k h. ground arith;
}

mark_disabled-Closes : Closes mark_disabled
unfolding mark_disabled
mark_disabled-Closes = record { same_id = λ k. refl; keeps_room = λ k h. h }

step-IsBounded :
    (f : FloatOps) (s : RequestScheduler) (c : Call) → IsBounded s → IsBounded (step f s c)
unfolding step release_key mark_key_failure mark_key_disabled set_strategy
step-IsBounded f s (acquires now max_rpm) h = acquire_key-IsBounded f s now max_rpm h
step-IsBounded f s (releases now i latency x y) h =
    on_key-IsBounded s i _ (end_Closes now latency x y) h
step-IsBounded f s (fails now i limit) h =
    on_key-IsBounded s i _ (failed_key-Closes s.config now limit) h
step-IsBounded f s (disables i) h = on_key-IsBounded s i _ mark_disabled-Closes h
step-IsBounded f s (switches strategy) h = record { distinct = h.distinct; room = h.room }

-- Whatever methods are called, in whatever order and at whatever times, no key ever has more open
-- requests than its `max_parallel_requests`, if it was so at first and the ids are distinct; they
-- stay distinct.
pub run-IsBounded :
    (f : FloatOps) (cs : List Call) (s : RequestScheduler) → IsBounded s → IsBounded (run f s cs)
unfolding run
run-IsBounded f [] s h = h
run-IsBounded f (c ∷ cs) s h = run-IsBounded f cs (step f s c) (step-IsBounded f s c h)
