-- ===== src/Session/Expiry.antt =====
-- The life of a session: how it is found, created and expired.
use pool_gate.Common.{
  ℕ, ◌+◌, ◌*◌, ◌≡◌, refl, sym, subst, ap, ◌∙◌, String, true, false, Option, none, some, List, [],
  ◌∷◌, arith, str_eq, not, if◌then◌else◌, Bool-cases, Option-cases, inl, inr, All, keep_if, length,
  second, eq_iff, ◌⊎◌, Bool,
}
use pool_gate.Dict.{Dict, get, has, remove}
use pool_gate.Dict.Laws.{IsDict, get-put, get-remove}
use pool_gate.Result.{Result, ok, err, session_expired}
use pool_gate.Session.{
  SessionUsageTracker, SessionManager, new_session, is_expired, create, find_or_create,
  get_or_create, expired_ids, remove_all, expire_old_sessions, active_count,
}

-- The id that a call of `get_or_create` is about.
abbrev pub id_of : Option String → String → String
id_of none drawn = drawn
id_of (some session_id) drawn = if str_eq session_id "" then drawn else session_id

abbrev pub held : SessionManager → String → Option SessionUsageTracker
held m id = get m.sessions id

-- A session that is returned is alive and stands in the manager; where the exception is raised, the
-- session had expired, and is gone.
abbrev pub Found :
    SessionManager → String → ℕ → Result SessionUsageTracker → SessionManager → Type 0
Found m id now (ok s) m' = (is_expired s now ≡ false) × (held m' id ≡ some s)
Found m id now (err e) m' =
    (e ≡ session_expired id)
    × (held m' id ≡ none)
    × ((s : SessionUsageTracker) × (held m id ≡ some s) × (is_expired s now ≡ true))

-- Whether an id is given: one that is empty is not.
abbrev pub is_given : Option String → Bool
is_given none = false
is_given (some session_id) = not (str_eq session_id "")

-- Where the session comes from: it is the one of a given id, and then the manager is as it was; or it is
-- created with a whole time to live and no requests, which happens to a given id only if it has none.
-- Only a given id is refused.
abbrev pub Origin :
    SessionManager → Bool → String → ℕ → Result SessionUsageTracker → SessionManager → Type 0
Origin m given id now (ok s) m' =
    ((given ≡ true) × (held m id ≡ some s) × (m' ≡ m))
    ⊎ ((s ≡ new_session id now (now + m.ttl_seconds * second)) × (given ≡ true → held m id ≡ none))
Origin m given id now (err e) m' = given ≡ true

abbrev OthersKept : SessionManager → String → SessionManager → Type 0
OthersKept m id m' = (j : String) → str_eq id j ≡ false → held m' j ≡ held m j

create_outcome :
    (m : SessionManager) (id : String) (now : ℕ)
    → Found m id now (create m id now).0 (create m id now).1 × OthersKept m id (create m id now).1
unfolding create is_expired new_session
create_outcome m id now =
    let s = new_session id now (now + m.ttl_seconds * second) in
    (
      (ground arith, get-put m.sessions id id s ∙ ground (arith, eq_iff id id)),
      λ j h. get-put m.sessions id j s ∙ rw h refl,
    )

abbrev Outcome : SessionManager → String → ℕ → Result SessionUsageTracker × SessionManager → Type 0
Outcome m id now r = Found m id now r.0 r.1 × OthersKept m id r.1

same_text : (k : String) → str_eq k k ≡ true
same_text k = ground (arith, eq_iff k k)

pub find_or_create_absent :
    (m : SessionManager) (id : String) (now : ℕ)
    → held m id ≡ none
    → find_or_create m id now ≡ create m id now
unfolding find_or_create
find_or_create_absent m id now e = rw (e, find_or_create) refl

pub find_or_create_expired :
    (m : SessionManager) (id : String) (now : ℕ) (s : SessionUsageTracker)
    → held m id ≡ some s
    → is_expired s now ≡ true
    → find_or_create m id now
      ≡ (err (session_expired id), record m { sessions = remove m.sessions id })
unfolding find_or_create
find_or_create_expired m id now s e x = rw (e, find_or_create) (rw x refl)

pub find_or_create_alive :
    (m : SessionManager) (id : String) (now : ℕ) (s : SessionUsageTracker)
    → held m id ≡ some s
    → is_expired s now ≡ false
    → find_or_create m id now ≡ (ok s, m)
unfolding find_or_create
find_or_create_alive m id now s e x = rw (e, find_or_create) (rw x refl)

find_or_create_outcome :
    (m : SessionManager) (id : String) (now : ℕ)
    → IsDict m.sessions
    → Outcome m id now (find_or_create m id now)
find_or_create_outcome m id now d = elim (Option-cases (held m id)) [
  | inl e ↦
      subst (Outcome m id now) (sym (find_or_create_absent m id now e)) (create_outcome m id now)
  | inr (s, e) ↦ elim (Bool-cases (is_expired s now)) [
    | inl x ↦ subst (Outcome m id now) (sym (find_or_create_expired m id now s e x)) (
      (refl, get-remove m.sessions id id d ∙ rw (same_text id) refl, (s, e, x)),
      λ j h. get-remove m.sessions id j d ∙ rw h refl,
    )
    | inr x ↦
        subst (Outcome m id now) (sym (find_or_create_alive m id now s e x)) ((x, e), λ j h. refl)
  ]
]

get_or_create_Outcome :
    (m : SessionManager) (session_id : Option String) (drawn : String) (now : ℕ)
    → IsDict m.sessions
    → Outcome m (id_of session_id drawn) now (get_or_create m session_id drawn now)
unfolding get_or_create
get_or_create_Outcome m none drawn now d = create_outcome m drawn now
get_or_create_Outcome m (some session_id) drawn now d = elim (Bool-cases (str_eq session_id "")) [
  | inl e ↦ rw e (create_outcome m drawn now)
  | inr e ↦ rw e (find_or_create_outcome m session_id now d)
]

create-Origin :
    (m : SessionManager) (given : Bool) (id : String) (now : ℕ)
    → (given ≡ true → held m id ≡ none)
    → Origin m given id now (create m id now).0 (create m id now).1
unfolding create
create-Origin m given id now free = inr (refl, free)

find_or_create-Origin :
    (m : SessionManager) (id : String) (now : ℕ)
    → Origin m true id now (find_or_create m id now).0 (find_or_create m id now).1
find_or_create-Origin m id now = elim (Option-cases (held m id)) [
  | inl e ↦ of_result (find_or_create_absent m id now e) (create-Origin m true id now (λ _. e))
  | inr (s, e) ↦ elim (Bool-cases (is_expired s now)) [
    | inl x ↦ of_result (find_or_create_expired m id now s e x) refl
    | inr x ↦ of_result (find_or_create_alive m id now s e x) (inl (refl, e, refl))
  ]
]
  where
    of_result :
        {r r' : Result SessionUsageTracker × SessionManager}
        → r ≡ r'
        → Origin m true id now r'.0 r'.1
        → Origin m true id now r.0 r.1
    of_result e w =
        subst (λ (r : Result SessionUsageTracker × SessionManager). Origin m true id now r.0 r.1)
          (sym e) w

get_or_create-Origin :
    (m : SessionManager) (session_id : Option String) (drawn : String) (now : ℕ)
    → let r = get_or_create m session_id drawn now in
      Origin m (is_given session_id) (id_of session_id drawn) now r.0 r.1
unfolding get_or_create
get_or_create-Origin m none drawn now = create-Origin m false drawn now (λ e. cc)
get_or_create-Origin m (some session_id) drawn now = elim (Bool-cases (str_eq session_id "")) [
  | inl e ↦ rw e (create-Origin m false drawn now (λ h. cc))
  | inr e ↦ rw e (find_or_create-Origin m session_id now)
]

-- A call of `get_or_create` with an id returns the session that the manager has under it, unchanged, if
-- that has not expired; if it has, it raises, and the session is gone; and if there is none, it creates one
-- with no requests and a whole time to live. Without an id it creates one under the drawn id. What is
-- returned has not expired and stands in the manager, and no other session is touched.
pub get_or_create_outcome :
    (m : SessionManager) (session_id : Option String) (drawn other : String) (now : ℕ)
    → IsDict m.sessions
    → let id = id_of session_id drawn in
      let r = get_or_create m session_id drawn now in
      Found m id now r.0 r.1
      × Origin m (is_given session_id) id now r.0 r.1
      × (held r.1 other ≡ (if str_eq id other then held r.1 id else held m other))
get_or_create_outcome m session_id drawn other now d =
    let id = id_of session_id drawn in
    let r = get_or_create m session_id drawn now in
    let (found, kept) = get_or_create_Outcome m session_id drawn now d in
    (
      found,
      get_or_create-Origin m session_id drawn now,
      elim (Bool-cases (str_eq id other)) [
        | inl e ↦ rw e (ap (held r.1) (sym (ground (arith, eq_iff id other))))
        | inr e ↦ rw e (kept other e)
      ],
    )

-- An expired session is refused once: the next call with its id, at any time, creates a session anew,
-- with no requests and a whole time to live.
pub get_or_create_after_expiry :
    (m : SessionManager) (session_id drawn : String) (now later : ℕ) (s : SessionUsageTracker)
    → IsDict m.sessions
    → str_eq session_id "" ≡ false
    → held m session_id ≡ some s
    → is_expired s now ≡ true
    → let (refused, m') = get_or_create m (some session_id) drawn now in
      (refused ≡ err (session_expired session_id))
      × ((get_or_create m' (some session_id) drawn later).0
          ≡ ok (new_session session_id later (later + m.ttl_seconds * second)))
unfolding get_or_create create
get_or_create_after_expiry m session_id drawn now later s d named e x =
    let gone : get (remove m.sessions session_id) session_id ≡ none =
      get-remove m.sessions session_id session_id d ∙ rw (same_text session_id) refl in
    rw (named, get_or_create)
      (rw (find_or_create_expired m session_id now s e x) (
        refl,
        ap (λ (r : Result SessionUsageTracker × SessionManager). r.0)
            (find_or_create_absent _ session_id later gone),
      ))

remove_all-cons :
    (ids : List String) (k : String) (s : SessionUsageTracker) (d : Dict SessionUsageTracker)
    → All (λ i. str_eq k i ≡ false) ids
    → remove_all ((k, s) ∷ d) ids ≡ (k, s) ∷ remove_all d ids
unfolding remove_all remove
remove_all-cons [] k s d h = refl
remove_all-cons (i ∷ ids) k s d h = rw h.0 (remove_all-cons ids k s (remove d i) h.1)

expired_ids_other :
    (d : Dict SessionUsageTracker) (k : String) (now : ℕ)
    → has d k ≡ false
    → All (λ i. str_eq k i ≡ false) (expired_ids d now)
unfolding expired_ids has
expired_ids_other [] k now h = tt
expired_ids_other ((j, s) ∷ d) k now h =
    ground (arith, eq_iff j k, eq_iff k j, expired_ids_other d k now)

remove_head :
    (k : String) (s : SessionUsageTracker) (d : Dict SessionUsageTracker)
    → remove ((k, s) ∷ d) k ≡ d
unfolding remove
remove_head k s d = rw (same_text k) refl

remove_all-expired_ids :
    (d : Dict SessionUsageTracker) (now : ℕ)
    → IsDict d
    → remove_all d (expired_ids d now) ≡ keep_if (λ e. not (is_expired e.1 now)) d
unfolding expired_ids remove_all
remove_all-expired_ids [] now h = refl
remove_all-expired_ids ((k, s) ∷ d) now h = elim (Bool-cases (is_expired s now)) [
  | inl x ↦ rw x (
      ap (λ (r : Dict SessionUsageTracker). remove_all r (expired_ids d now)) (remove_head k s d)
      ∙ remove_all-expired_ids d now h.1)
  | inr x ↦ rw x (
      remove_all-cons (expired_ids d now) k s d (expired_ids_other d k now h.0)
      ∙ ap (λ (r : Dict SessionUsageTracker). (k, s) ∷ r) (remove_all-expired_ids d now h.1))
]

kept_and_expired :
    (d : Dict SessionUsageTracker) (now : ℕ)
    → length (expired_ids d now) + length (keep_if (λ e. not (is_expired e.1 now)) d) ≡ length d
unfolding expired_ids
kept_and_expired [] now = omega arith
kept_and_expired ((k, s) ∷ d) now = elim (Bool-cases (is_expired s now)) [
  | inl x ↦ rw x (omega (arith, kept_and_expired d now))
  | inr x ↦ rw x (omega (arith, kept_and_expired d now))
]

-- `expire_old_sessions` keeps exactly the sessions that have not expired, in their order, as a filter
-- would, and returns how many it removed; `active_count` says before it how many are left.
pub expire_old_sessions-keep_if :
    (m : SessionManager) (now : ℕ)
    → IsDict m.sessions
    → let (removed, m') = expire_old_sessions m now in
      (m'.sessions ≡ keep_if (λ e. not (is_expired e.1 now)) m.sessions)
      × (removed + active_count m now ≡ length m.sessions)
      × (length m'.sessions ≡ active_count m now)
unfolding expire_old_sessions active_count
expire_old_sessions-keep_if m now d =
    let e = remove_all-expired_ids m.sessions now d in
    (e, kept_and_expired m.sessions now, ap length e)
