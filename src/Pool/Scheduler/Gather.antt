-- ===== src/Pool/Scheduler/Gather.antt =====
-- The candidates that `_gather_candidates` finds, and the keys that it leaves.
use pool_gate.Common.{
  ℕ, zero, suc, ◌+◌, ◌≡◌, ◌≢◌, refl, sym, subst, ap, ◌∙◌, true, some, List, [], ◌∷◌, map, keep_if,
  arith, All, get_elem?, set, Bool-cases, inl, inr, ◌⊎◌, str_eq, eq_iff,
}
use pool_gate.Pool.Key.{Clock, ApiKeyState, is_available, reset_cooldown}
use pool_gate.Pool.Strategy.{Ref, is_candidate}
use pool_gate.Pool.Strategy.Chosen.{Candidates, Candidates-self}
use pool_gate.Pool.Scheduler.{refs, usable, candidates_of, revive, gather_candidates}

-- The key stands at its place, and may be used.
abbrev pub Usable : List ApiKeyState → Clock → Ref → Type 0
Usable keys now r = (get_elem? keys r.0 ≡ some r.1) × (is_available r.1 now ≡ true)

-- No two keys have one id.
abbrev pub Distinct : List ApiKeyState → Type 0
Distinct keys =
    (i j : ℕ) (k l : ApiKeyState)
    → get_elem? keys i ≡ some k
    → get_elem? keys j ≡ some l
    → k.key_id ≡ l.key_id
    → i ≡ j

-- The references from a place on lie in the list that has these keys there.
refs-place :
    (all : List ApiKeyState) (i : ℕ) (ks : List ApiKeyState)
    → ((j : ℕ) → get_elem? all (i + j) ≡ get_elem? ks j)
    → All (λ r. get_elem? all r.0 ≡ some r.1) (refs i ks)
unfolding refs
refs-place all i [] h = tt
refs-place all i (k ∷ ks) h = (
  subst (λ n. get_elem? all n ≡ some k) (omega arith) (h 0),
  refs-place all (i + 1) ks
      (λ j. subst (λ n. get_elem? all n ≡ get_elem? ks j) (omega arith) (h (suc j))),
)

usable_kept :
    (keys : List ApiKeyState) (now : Clock) (rs : List Ref)
    → All (λ r. get_elem? keys r.0 ≡ some r.1) rs
    → All (Usable keys now) (keep_if (usable now) rs)
unfolding usable
usable_kept keys now [] h = tt
usable_kept keys now ((i, k) ∷ rs) h = ground (arith, h.0, usable_kept keys now rs h.1)

pub candidates_of-Usable :
    (keys : List ApiKeyState) (now : Clock) → All (Usable keys now) (candidates_of keys now)
unfolding candidates_of
candidates_of-Usable keys now =
    usable_kept keys now (refs 0 keys)
      (refs-place keys 0 keys (λ j. ap (get_elem? keys) (omega arith)))

kept_listed :
    (all rs : List Ref) (now : Clock) → Candidates all rs → Candidates all (keep_if (usable now) rs)
kept_listed all [] now h = tt
kept_listed all (r ∷ rs) now h = elim (Bool-cases (usable now r)) [
  | inl e ↦ rw e (h.0, kept_listed all rs now h.1)
  | inr e ↦ rw e (kept_listed all rs now h.1)
]

-- The candidates stand in the list of all keys.
pub candidates_of-listed :
    (keys : List ApiKeyState) (now : Clock) → Candidates (refs 0 keys) (candidates_of keys now)
unfolding candidates_of
candidates_of-listed keys now =
    kept_listed (refs 0 keys) (refs 0 keys) now (Candidates-self (refs 0 keys))

abbrev pub revived : Clock → List ApiKeyState → List ApiKeyState
revived now keys = map (revive now) keys

-- The keys that are left are those that were there, or, if none of them could be used, those after
-- the revival; the candidates are the usable ones among them.
pub gather_cases :
    (keys : List ApiKeyState) (now : Clock)
    → (keys' : List ApiKeyState) × (gather_candidates keys now ≡ (candidates_of keys' now, keys'))
      × (((keys' ≡ keys) × (candidates_of keys now ≢ []))
          ⊎ ((keys' ≡ revived now keys) × (candidates_of keys now ≡ [])))
unfolding gather_candidates
gather_cases keys now = go (candidates_of keys now) refl
  where
    go :
        (cs : List Ref)
        → candidates_of keys now ≡ cs
        → (keys' : List ApiKeyState) × (gather_candidates keys now
            ≡ (candidates_of keys' now, keys'))
          × (((keys' ≡ keys) × (candidates_of keys now ≢ []))
              ⊎ ((keys' ≡ revived now keys) × (candidates_of keys now ≡ [])))
    go [] e = (revived now keys, rw (e, gather_candidates), inr (refl, e))
    go (c ∷ cs) e = (keys, rw (e, gather_candidates), inl (refl, λ none_left. cc))

-- The keys of `k` and `l` are the same key, at another time.
SameKeys-set :
    (keys : List ApiKeyState) (i : ℕ) (k v : ApiKeyState)
    → get_elem? keys i ≡ some k
    → v.key_id ≡ k.key_id
    → (j : ℕ) (l : ApiKeyState) → get_elem? (set keys i v) j ≡ some l
    → (l' : ApiKeyState) × (get_elem? keys j ≡ some l') × (l'.key_id ≡ l.key_id)
SameKeys-set [] i k v e same j l h = cc
SameKeys-set (x ∷ keys) zero k v e same zero l h = (x, refl, ground arith)
SameKeys-set (x ∷ keys) zero k v e same (suc j) l h = (l, h, refl)
SameKeys-set (x ∷ keys) (suc i) k v e same zero l h = (x, refl, ground arith)
SameKeys-set (x ∷ keys) (suc i) k v e same (suc j) l h = SameKeys-set keys i k v e same j l h

pub Distinct-set :
    (keys : List ApiKeyState) (i : ℕ) (k v : ApiKeyState)
    → get_elem? keys i ≡ some k
    → v.key_id ≡ k.key_id
    → Distinct keys
    → Distinct (set keys i v)
Distinct-set keys i k v e same d = λ a b x y hx hy id.
    let (x', ex, ix) = SameKeys-set keys i k v e same a x hx in
    let (y', ey, iy) = SameKeys-set keys i k v e same b y hy in d a b x' y' ex ey (ix ∙ id ∙ sym iy)

revived-place :
    (now : Clock) (keys : List ApiKeyState) (j : ℕ) (l : ApiKeyState)
    → get_elem? (revived now keys) j ≡ some l
    → (l' : ApiKeyState) × (get_elem? keys j ≡ some l') × (l'.key_id ≡ l.key_id)
unfolding revive reset_cooldown
revived-place now [] j l h = cc
revived-place now (x ∷ keys) zero l h = (x, refl, ground arith)
revived-place now (x ∷ keys) (suc j) l h = revived-place now keys j l h

pub Distinct-revived :
    (now : Clock) (keys : List ApiKeyState) → Distinct keys → Distinct (revived now keys)
Distinct-revived now keys d = λ a b x y hx hy id.
    let (x', ex, ix) = revived-place now keys a x hx in
    let (y', ey, iy) = revived-place now keys b y hy in d a b x' y' ex ey (ix ∙ id ∙ sym iy)

-- With distinct ids, a key of the list that has the id of a usable one is usable.
pub Usable-by_id :
    (keys : List ApiKeyState) (now : Clock) (cs : List Ref) (r : Ref)
    → Distinct keys
    → All (Usable keys now) cs
    → get_elem? keys r.0 ≡ some r.1
    → is_candidate cs r.1.key_id ≡ true
    → is_available r.1 now ≡ true
unfolding is_candidate
Usable-by_id keys now [] r d h e c = cc
Usable-by_id keys now ((i, k) ∷ cs) r d h e c = elim (Bool-cases (str_eq k.key_id r.1.key_id)) [
  | inl same ↦
      let place : i ≡ r.0 = d i r.0 k r.1 h.0.0 e ((eq_iff k.key_id r.1.key_id).0 same) in
      ground (arith, h.0.0, h.0.1)
  | inr other ↦ Usable-by_id keys now cs r d h.1 e (ground arith)
]

pub refs-All : (keys : List ApiKeyState) → All (λ r. get_elem? keys r.0 ≡ some r.1) (refs 0 keys)
refs-All keys = refs-place keys 0 keys (λ j. ap (get_elem? keys) (omega arith))
