-- ===== src/Tests/Sessions.antt =====
-- The theorems of the sessions and of the health at concrete inputs.
use pool_gate.Common.{◌≡◌, refl, ◌+◌, true, false, none, some, List, [], ◌∷◌, not, keep_if, length}
use pool_gate.Dict.{has, get}
use pool_gate.Dict.Laws.{IsDict}
use pool_gate.Session.{
  SessionManager, new_session, is_expired, get_or_create, expire_old_sessions, active_count,
}
use pool_gate.Health.{Says, snapshot, snapshot-Says}
use pool_gate.Session.Accounts.{Call, succeeds, fails, IsBalanced, run, run-IsBalanced}
use pool_gate.Session.Expiry.{
  Found, Origin, held, get_or_create_outcome, expire_old_sessions-keep_if,
}

-- Two sessions, of which the first ends at 100 and the second at 900.
abbrev manager : SessionManager
manager = record {
  ttl_seconds = 3600;
  sessions = ("one", new_session "one" 0 100) ∷ ("two", new_session "two" 0 900) ∷ [];
}

manager-IsDict : IsDict manager.sessions
unfolding has
manager-IsDict = (refl, (refl, tt))

get_or_create_outcome_example :
    Found manager "one" 500
      (get_or_create manager (some "one") "three" 500).0
      (get_or_create manager (some "one") "three" 500).1
    × Origin manager true "one" 500
        (get_or_create manager (some "one") "three" 500).0
        (get_or_create manager (some "one") "three" 500).1
    × (held (get_or_create manager (some "one") "three" 500).1 "two" ≡ held manager "two")
get_or_create_outcome_example =
    get_or_create_outcome manager (some "one") "three" "two" 500 manager-IsDict

one_expired : is_expired (new_session "one" 0 100) 500 ≡ true
unfolding is_expired new_session
one_expired = refl

one_held : held manager "one" ≡ some (new_session "one" 0 100)
unfolding get
one_held = refl

expire_old_sessions-keep_if_example :
    ((expire_old_sessions manager 500).1.sessions
      ≡ keep_if (λ e. not (is_expired e.1 500)) manager.sessions)
    × ((expire_old_sessions manager 500).0 + active_count manager 500 ≡ 2)
    × (length (expire_old_sessions manager 500).1.sessions ≡ active_count manager 500)
expire_old_sessions-keep_if_example = expire_old_sessions-keep_if manager 500 manager-IsDict

abbrev calls : List Call
calls = succeeds "llama" 3 4 250 false 10 ∷ fails true 20 ∷ succeeds "gemma" 1 1 90 true 30 ∷ []

run-IsBalanced_example : IsBalanced (run (new_session "one" 0 100) calls)
run-IsBalanced_example = run-IsBalanced calls "one" 0 100

snapshot-Says_example :
    Says
      (snapshot (some "active" ∷ some "disabled" ∷ none ∷ [])).status
      (some "active" ∷ some "disabled" ∷ none ∷ [])
snapshot-Says_example = snapshot-Says (some "active" ∷ some "disabled" ∷ none ∷ [])
