-- ===== src/Tracking/Request/Scopes.antt =====
-- A scope is counted as if it had a counter of its own.
use pool_gate.Common.{
  ℕ, ◌-◌, ◌*◌, ◌≤◌, ◌≡◌, refl, sym, ap, ◌∙◌, String, true, false, none, some, List, [], ◌∷◌, arith,
  str_eq, if◌then◌else◌, ◌⊎◌, Bool-cases, Option-cases, inl, inr, eq_iff, All, second,
}
use pool_gate.Dict.{get, get_or}
use pool_gate.Dict.Laws.{get_or-put, get_or-get}
use pool_gate.Window.Rolling.{RollingWindowCounter, add, count_since, get_sum}
use pool_gate.Window.Rolling
use pool_gate.Window.Rolling.Counts.{adds, sums, added, weight_since, count_since-added}
use pool_gate.Window.Rolling.Counts
use pool_gate.Tracking.Request.{
  RequestTracker, new, day, minute, record_request, count_scope, requests_per_minute,
  requests_per_day,
}

pub data Call : Type 0 where
  records : String → ℕ → Call
  -- `requests_per_minute` and `requests_per_day`
  reads_minute : String → ℕ → Call
  reads_day : String → ℕ → Call

unfoldable pub step : RequestTracker → Call → RequestTracker
step t (records scope now) = record_request t scope now
step t (reads_minute scope now) = (requests_per_minute t scope now).1
step t (reads_day scope now) = (requests_per_day t scope now).1

unfoldable pub run : RequestTracker → List Call → RequestTracker
run t [] = t
run t (c ∷ cs) = run (step t c) cs

abbrev pub scope_of : Call → String
scope_of (records scope now) = scope
scope_of (reads_minute scope now) = scope
scope_of (reads_day scope now) = scope

abbrev pub at : Call → ℕ
at (records scope now) = now
at (reads_minute scope now) = now
at (reads_day scope now) = now

-- The call that a scope's own counter gets.
abbrev pub own_call : Call → Counts.Call
own_call (records scope now) = adds 1 now
own_call (reads_minute scope now) = sums minute now
own_call (reads_day scope now) = sums day now

-- The calls about one scope, as its own counter gets them.
unfoldable pub calls_of : String → List Call → List Counts.Call
calls_of scope [] = []
calls_of scope (c ∷ cs) =
    let rest = calls_of scope cs in if str_eq (scope_of c) scope then own_call c ∷ rest else rest

abbrev pub counter_of : RequestTracker → String → RollingWindowCounter
counter_of t scope = get_or t.scopes scope (Rolling.new day)

get_or_of_none :
    (t : RequestTracker) (scope : String)
    → get t.scopes scope ≡ none
    → counter_of t scope ≡ Rolling.new day
get_or_of_none t scope e = get_or-get t.scopes scope (Rolling.new day) ∙ rw e refl

get_or_of_some :
    (t : RequestTracker) (scope : String) (c : RollingWindowCounter)
    → get t.scopes scope ≡ some c
    → counter_of t scope ≡ c
get_or_of_some t scope c e = get_or-get t.scopes scope (Rolling.new day) ∙ rw e refl

-- A read leaves a counter without entries as it was.
count_since-new :
    (seconds now : ℕ) → count_since (Rolling.new day) seconds now ≡ (0, Rolling.new day)
unfolding count_since Rolling.evict Rolling.new
count_since-new seconds now = refl

same_text : (a b : String) → str_eq a b ≡ true → a ≡ b
same_text a b h = ground (arith, eq_iff a b)

-- What a read of one scope leaves of the counters.
count_scope-counter_of :
    (t : RequestTracker) (scope other : String) (seconds now : ℕ)
    → counter_of (count_scope t scope seconds now).1 other ≡ (
        if str_eq scope other
        then (count_since (counter_of t other) seconds now).1
        else counter_of t other)
unfolding count_scope get_or count_since
count_scope-counter_of t scope other seconds now = elim (Option-cases (get t.scopes scope)) [
  | inl e ↦ rw (e, count_scope) (unread (Bool-cases (str_eq scope other)) e)
  | inr (c, e) ↦
      rw (e, count_scope)
        (get_or-put t.scopes scope other (count_since c seconds now).1 (Rolling.new day)
          ∙ counted (Bool-cases (str_eq scope other)) c e)
]
  where
    unread :
        (str_eq scope other ≡ true) ⊎ (str_eq scope other ≡ false)
        → get t.scopes scope ≡ none
        → counter_of t other ≡ (
            if str_eq scope other
            then (count_since (counter_of t other) seconds now).1
            else counter_of t other)
    unread (inr h) e = rw h refl
    unread (inl h) e =
        let absent : counter_of t other ≡ Rolling.new day =
          ap (counter_of t) (sym (same_text scope other h)) ∙ get_or_of_none t scope e in
        rw h (
          absent
          ∙ sym (
              ap (λ (c : RollingWindowCounter). (count_since c seconds now).1) absent
              ∙ ap (λ (r : ℕ × RollingWindowCounter). r.1) (count_since-new seconds now)))

    counted :
        (str_eq scope other ≡ true) ⊎ (str_eq scope other ≡ false)
        → (c : RollingWindowCounter) → get t.scopes scope ≡ some c
        → (if str_eq scope other then (count_since c seconds now).1 else counter_of t other) ≡ (
            if str_eq scope other
            then (count_since (counter_of t other) seconds now).1
            else counter_of t other)
    counted (inr h) c e = rw h refl
    counted (inl h) c e =
        let present : counter_of t other ≡ c =
          ap (counter_of t) (sym (same_text scope other h)) ∙ get_or_of_some t scope c e in
        rw h (ap (λ (c : RollingWindowCounter). (count_since c seconds now).1) (sym present))

step-counter_of :
    (t : RequestTracker) (c : Call) (scope : String)
    → counter_of (step t c) scope ≡ (
        if str_eq (scope_of c) scope
        then Counts.step (counter_of t scope) (own_call c)
        else counter_of t scope)
unfolding step Counts.step get_sum requests_per_minute requests_per_day record_request
step-counter_of t (reads_minute s now) scope = count_scope-counter_of t s scope minute now
step-counter_of t (reads_day s now) scope = count_scope-counter_of t s scope day now
step-counter_of t (records s now) scope =
    get_or-put t.scopes s scope (add (counter_of t s) 1 now) (Rolling.new day)
    ∙ (elim (Bool-cases (str_eq s scope)) [
      | inl h ↦ rw h (ap (λ (k : String). add (counter_of t k) 1 now) (same_text s scope h))
      | inr h ↦ rw h refl
    ])

-- Over any calls about any scopes, the counter of a scope goes through what a counter of its own
-- would, had it had only the calls about that scope.
pub counter_of-run :
    (cs : List Call) (t : RequestTracker) (scope : String)
    → counter_of (run t cs) scope ≡ Counts.run (counter_of t scope) (calls_of scope cs)
unfolding run Counts.run calls_of
counter_of-run [] t scope = refl
counter_of-run (c ∷ cs) t scope = elim (Bool-cases (str_eq (scope_of c) scope)) [
  | inl h ↦
      rw (h, calls_of)
        (counter_of-run cs (step t c) scope
          ∙ ap (λ (r : RollingWindowCounter). Counts.run r (calls_of scope cs))
              (step-counter_of t c scope ∙ rw h refl))
  | inr h ↦
      rw (h, calls_of)
        (counter_of-run cs (step t c) scope
          ∙ ap (λ (r : RollingWindowCounter). Counts.run r (calls_of scope cs))
              (step-counter_of t c scope ∙ rw h refl))
]

calls_of-before :
    (cs : List Call) (scope : String) (now : ℕ)
    → All (λ c. at c ≤ now) cs
    → All (λ k. Counts.at k ≤ now) (calls_of scope cs)
unfolding calls_of
calls_of-before [] scope now h = tt
calls_of-before (records s t ∷ cs) scope now h =
    ground (arith, h.0, calls_of-before cs scope now h.1)
calls_of-before (reads_minute s t ∷ cs) scope now h =
    ground (arith, h.0, calls_of-before cs scope now h.1)
calls_of-before (reads_day s t ∷ cs) scope now h =
    ground (arith, h.0, calls_of-before cs scope now h.1)

count_scope-count_since :
    (t : RequestTracker) (scope : String) (seconds now : ℕ)
    → (count_scope t scope seconds now).0 ≡ (count_since (counter_of t scope) seconds now).0
unfolding count_scope count_since
count_scope-count_since t scope seconds now = elim (Option-cases (get t.scopes scope)) [
  | inl e ↦
      rw (e, count_scope)
        (sym (
          ap (λ (c : RollingWindowCounter). (count_since c seconds now).0)
            (get_or_of_none t scope e)
          ∙ ap (λ (r : ℕ × RollingWindowCounter). r.0) (count_since-new seconds now)))
  | inr (c, e) ↦
      rw (e, count_scope)
        (ap (λ (c : RollingWindowCounter). (count_since c seconds now).0)
          (sym (get_or_of_some t scope c e)))
]

-- `requests_per_minute` of a scope returns how many requests were recorded for it in the last
-- minute, whatever was recorded and read for it and other scopes before `now`.
pub requests_per_minute-added :
    (cs : List Call) (scope : String) (now : ℕ)
    → All (λ c. at c ≤ now) cs
    → (requests_per_minute (run new cs) scope now).0
      ≡ weight_since (now - minute * second) (added [] (calls_of scope cs))
unfolding requests_per_minute get_or
requests_per_minute-added cs scope now h =
    count_scope-count_since (run new cs) scope minute now
    ∙ ap (λ (c : RollingWindowCounter). (count_since c minute now).0) (counter_of-run cs new scope)
    ∙ count_since-added day minute now (calls_of scope cs) (omega arith)
        (calls_of-before cs scope now h)
