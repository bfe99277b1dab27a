-- ===== src/Window/Recent.antt =====
-- What both windows share: the `popleft` loop of their `_evict` methods over entries with a time,
-- and the plain filter that it computes on entries in order of time.
use pool_gate.Common.{
  ℕ, ◌≤◌, ◌≡◌, refl, List, [], ◌∷◌, ◌++◌, if◌then◌else◌, ltb, leb, arith, All, keep_if,
}

module _ {ℓ} {A : Type ℓ} (time : A → ℕ) where
  -- `while entries and entries[0].timestamp < cutoff: entries.popleft()`
  unfoldable pub drop_before : ℕ → List A → List A
  drop_before cutoff [] = []
  drop_before cutoff (e ∷ es) =
      let rest = drop_before cutoff es in if ltb (time e) cutoff then rest else e ∷ es

  -- The entries at or after the cutoff, by a filter over all of them.
  abbrev pub recent : ℕ → List A → List A
  recent cutoff = keep_if (λ e. leb cutoff (time e))

  -- The entries are in order of time, none before `from`.
  abbrev pub InOrder : ℕ → List A → Type 0
  InOrder from [] = Unit
  InOrder from (e ∷ es) = (from ≤ time e) × InOrder (time e) es

  pub InOrder-mono : (m n : ℕ) (es : List A) → m ≤ n → InOrder n es → InOrder m es
  InOrder-mono m n [] h o = tt
  InOrder-mono m n (e ∷ es) h o = (omega (arith, o.0), o.1)

  recent_all : (cutoff : ℕ) (es : List A) → InOrder cutoff es → recent cutoff es ≡ es
  recent_all cutoff [] o = refl
  recent_all cutoff (e ∷ es) o =
      ground (arith, o.0, recent_all cutoff es (InOrder-mono cutoff (time e) es o.0 o.1))

  -- On entries in order of time the loop keeps exactly the recent ones.
  pub drop_before-recent :
      (cutoff from : ℕ) (es : List A) → InOrder from es → drop_before cutoff es ≡ recent cutoff es
  unfolding drop_before
  drop_before-recent cutoff from [] o = refl
  drop_before-recent cutoff from (e ∷ es) o = ground (
    arith,
    drop_before-recent cutoff (time e) es o.1,
    λ (h : cutoff ≤ time e). recent_all cutoff es (InOrder-mono cutoff (time e) es h o.1),
  )

  pub recent-recent : (c d : ℕ) (es : List A) → c ≤ d → recent d (recent c es) ≡ recent d es
  recent-recent c d [] h = refl
  recent-recent c d (e ∷ es) h = ground (arith, recent-recent c d es h)

  pub recent-append : (c : ℕ) (xs ys : List A) → recent c (xs ++ ys) ≡ recent c xs ++ recent c ys
  recent-append c [] ys = refl
  recent-append c (x ∷ xs) ys = ground (arith, recent-append c xs ys)

  pub recent-InOrder : (c from : ℕ) (es : List A) → InOrder from es → InOrder from (recent c es)
  recent-InOrder c from [] o = tt
  recent-InOrder c from (e ∷ es) o =
      ground
        (arith, o.0, recent-InOrder c (time e) es o.1, InOrder-mono from (time e) (recent c es) o.0)

  -- All entries are at or before `now`.
  abbrev pub Until : ℕ → List A → Type 0
  Until now es = All (λ e. time e ≤ now) es

  pub Until-mono : (m n : ℕ) (es : List A) → m ≤ n → Until m es → Until n es
  Until-mono m n [] h u = tt
  Until-mono m n (e ∷ es) h u = (omega (arith, u.0), Until-mono m n es h u.1)

  pub Until-append :
      (n : ℕ) (xs : List A) (e : A) → Until n xs → time e ≤ n → Until n (xs ++ e ∷ [])
  Until-append n [] e u h = (h, tt)
  Until-append n (x ∷ xs) e u h = (u.0, Until-append n xs e u.1 h)

  pub InOrder-append :
      (from : ℕ) (xs : List A) (e : A)
      → InOrder from xs
      → Until (time e) xs
      → from ≤ time e
      → InOrder from (xs ++ e ∷ [])
  InOrder-append from [] e o u h = (h, tt)
  InOrder-append from (x ∷ xs) e o u h = (o.0, InOrder-append (time x) xs e o.1 u.1 u.0)

  -- What the loop drops lies before every later cutoff, in whatever order the entries stand.
  pub recent-drop_before :
      (d c : ℕ) (es : List A) → d ≤ c → recent c (drop_before d es) ≡ recent c es
  unfolding drop_before
  recent-drop_before d c [] h = refl
  recent-drop_before d c (e ∷ es) h = ground (arith, recent-drop_before d c es h)
