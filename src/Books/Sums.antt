-- ===== src/Books/Sums.antt =====
-- Sums over the sessions that a manager holds.
use pool_gate.Common.{
  ℕ, ◌+◌, ◌*◌, ◌≤◌, ◌≡◌, refl, sym, subst, ap, ◌∙◌, String, Option, none, some, List, [], ◌∷◌,
  arith, str_eq, Bool-cases, Option-cases, inl, inr, sum_of, second,
}
use pool_gate.Dict.{Dict, get, get_or, put, remove}
use pool_gate.Dict.Laws.{IsDict, put-IsDict, remove-IsDict, get_or-get}
use pool_gate.Dict.Sums.{sum_of-put}
use pool_gate.Result.{Result}
use pool_gate.Session.Expiry.{find_or_create_absent, find_or_create_expired, find_or_create_alive}
use pool_gate.Books.Counted.{get_session_absent, get_session_expired, get_session_alive}
use pool_gate.Session.{
  SessionUsageTracker, SessionManager, new_session, is_expired, create, find_or_create,
  get_or_create, remove_all,
}
use pool_gate.Books.{on_found, on_session}

-- `sum(count(s) for s in sessions.values())`
abbrev pub over : (SessionUsageTracker → ℕ) → SessionManager → ℕ
over count m = sum_of (λ e. count e.1) m.sessions

-- The keys stand once, and the sum is at most so many more.
abbrev pub Within : (SessionUsageTracker → ℕ) → SessionManager → ℕ → SessionManager → Type 0
Within count m n m' = (IsDict m.sessions → IsDict m'.sessions) × (over count m' ≤ over count m + n)

sum_of-remove :
    (h : SessionUsageTracker → ℕ) (d : Dict SessionUsageTracker) (k : String)
    → sum_of (λ e. h e.1) (remove d k) ≤ sum_of (λ e. h e.1) d
unfolding remove
sum_of-remove h [] k = omega arith
sum_of-remove h ((j, s) ∷ d) k = elim (Bool-cases (str_eq j k)) [
  | inl e ↦ rw e (omega arith)
  | inr e ↦ rw e (omega (arith, sum_of-remove h d k))
]

module _ (count : SessionUsageTracker → ℕ)
    (fresh : (id : String) (now expires : ℕ) → count (new_session id now expires) ≡ 0) where
  create-Within :
      (m : SessionManager) (id : String) (now : ℕ) → Within count m 0 (create m id now).1
  unfolding create
  create-Within m id now =
      let s = new_session id now (now + m.ttl_seconds * second) in
      (
        put-IsDict m.sessions id s,
        omega (
          arith,
          sum_of-put count m.sessions id s s (fresh id now _),
          fresh id now (now + m.ttl_seconds * second),
        ),
      )

  removed-Within :
      (m : SessionManager) (id : String)
      → Within count m 0 (record m { sessions = remove m.sessions id })
  removed-Within m id =
      (remove-IsDict m.sessions id, omega (arith, sum_of-remove count m.sessions id))

  same-Within : (m : SessionManager) → Within count m 0 m
  same-Within m = (λ d. d, omega arith)

  find_or_create-Within :
      (m : SessionManager) (id : String) (now : ℕ) → Within count m 0 (find_or_create m id now).1
  find_or_create-Within m id now = elim (Option-cases (get m.sessions id)) [
    | inl e ↦ of_result (find_or_create_absent m id now e) (create-Within m id now)
    | inr (s, e) ↦ elim (Bool-cases (is_expired s now)) [
      | inl x ↦ of_result (find_or_create_expired m id now s e x) (removed-Within m id)
      | inr x ↦ of_result (find_or_create_alive m id now s e x) (same-Within m)
    ]
  ]
    where
      of_result :
          {r r' : Result SessionUsageTracker × SessionManager}
          → r ≡ r'
          → Within count m 0 r'.1
          → Within count m 0 r.1
      of_result e w =
          subst (λ (r : Result SessionUsageTracker × SessionManager). Within count m 0 r.1) (sym e)
            w

  pub get_or_create-Within :
      (m : SessionManager) (session_id : Option String) (drawn : String) (now : ℕ)
      → Within count m 0 (get_or_create m session_id drawn now).1
  unfolding get_or_create
  get_or_create-Within m none drawn now = create-Within m drawn now
  get_or_create-Within m (some id) drawn now = elim (Bool-cases (str_eq id "")) [
    | inl e ↦ rw e (create-Within m drawn now)
    | inr e ↦ rw e (find_or_create-Within m id now)
  ]

  pub remove_all-Within :
      (m : SessionManager) (ids : List String)
      → Within count m 0 (record m { sessions = remove_all m.sessions ids })
  unfolding remove_all
  remove_all-Within m [] = same-Within m
  remove_all-Within m (id ∷ ids) =
      let a = removed-Within m id in
      let b = remove_all-Within (record m { sessions = remove m.sessions id }) ids in
      (λ d. b.0 (a.0 d), omega (arith, a.1, b.1))

  module _ (m : SessionManager) (id : String) (now n : ℕ)
      (method : SessionUsageTracker → SessionUsageTracker)
      (adds : (s : SessionUsageTracker) → count (method s) ≤ count s + n) where
    -- The session that is there is replaced.
    replaced-Within :
        (s : SessionUsageTracker)
        → get m.sessions id ≡ some s
        → Within count m n (record m { sessions = put m.sessions id (method s) })
    replaced-Within s e =
        let none_left = new_session "" 0 0 in
        let old : get_or m.sessions id none_left ≡ s =
          get_or-get m.sessions id none_left ∙ rw e refl in
        (
          put-IsDict m.sessions id (method s),
          omega (
            arith,
            sum_of-put count m.sessions id (method s) none_left (fresh "" 0 0),
            ap count old,
            adds s,
          ),
        )

    -- A method of a session that adds at most so much to its count.
    pub on_session-Within : Within count m n (on_session m id now method)
    unfolding on_session
    on_session-Within = elim (Option-cases (get m.sessions id)) [
      | inl e ↦ of_found (get_session_absent m id now e) (λ d. d, omega arith)
      | inr (s, e) ↦ elim (Bool-cases (is_expired s now)) [
        | inl x ↦
            of_found (get_session_expired m id now s e x)
              (let a = removed-Within m id in (a.0, omega (arith, a.1)))
        | inr x ↦ of_found (get_session_alive m id now s e x) (replaced-Within s e)
      ]
    ]
      where
        of_found :
            {r r' : Option SessionUsageTracker × SessionManager}
            → r ≡ r'
            → Within count m n (on_found id method r')
            → Within count m n (on_found id method r)
        of_found e w =
            subst
              (λ (r : Option SessionUsageTracker × SessionManager).
                Within count m n (on_found id method r))
              (sym e) w
