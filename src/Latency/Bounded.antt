-- ===== src/Latency/Bounded.antt =====
-- The tracker holds the latest samples.
use pool_gate.Common.{
  ℕ, zero, suc, ◌+◌, ◌-◌, ◌≤◌, ◌≡◌, refl, sym, ap, ◌∙◌, List, [], ◌∷◌, ◌++◌, foldl, arith, length,
  drop, length-append, lt→ltb,
}
use mathlib.Core.List.{append-nil, append_assoc}
use native.Mathlib.Decide.{dec_lt}
use pool_gate.Latency.{LatencyTracker, new, append, pop_left, record_sample}

drop-append_one :
    (k : ℕ) (xs : List ℕ) (x : ℕ) → k ≤ length xs → drop k (xs ++ x ∷ []) ≡ drop k xs ++ x ∷ []
drop-append_one zero xs x h = refl
drop-append_one (suc k) [] x h = absurd (omega arith)
drop-append_one (suc k) (y ∷ xs) x h = drop-append_one k xs x (omega arith)

pop_left-drop : (k : ℕ) (xs : List ℕ) → pop_left (drop k xs) ≡ drop (suc k) xs
pop_left-drop zero [] = refl
pop_left-drop zero (x ∷ xs) = refl
pop_left-drop (suc k) [] = refl
pop_left-drop (suc k) (x ∷ xs) = pop_left-drop k xs

length-drop : (k : ℕ) (xs : List ℕ) → length (drop k xs) ≡ length xs - k
length-drop zero xs = omega arith
length-drop (suc k) [] = omega arith
length-drop (suc k) (x ∷ xs) = omega (arith, length-drop k xs)

drop_all : (k : ℕ) (xs : List ℕ) → length xs ≤ k → drop k xs ≡ []
drop_all zero [] h = refl
drop_all zero (x ∷ xs) h = absurd (omega arith)
drop_all (suc k) [] h = refl
drop_all (suc k) (x ∷ xs) h = drop_all k xs (omega arith)

-- The last `n` elements.
abbrev pub latest : ℕ → List ℕ → List ℕ
latest n xs = drop (length xs - n) xs

append-latest :
    (n : ℕ) (past : List ℕ) (x : ℕ) → append n (latest n past) x ≡ latest n (past ++ x ∷ [])
unfolding append
append-latest zero past x = sym (drop_all _ (past ++ x ∷ []) (omega arith))
append-latest (suc n) past x = elim (dec_lt (length past) (suc n)) [
  | yes room ↦
      let e : length past - suc n ≡ 0 = omega arith in
      let e' : length (past ++ x ∷ []) - suc n ≡ 0 = omega (arith, length-append past (x ∷ [])) in
      rw (e, e', lt→ltb (length past) (suc n) room) refl
  | no full ↦ full_case (length past - suc n) (omega arith)
]
  where
    full_case :
        (k : ℕ)
        → length past ≡ suc n + k
        → append (suc n) (latest (suc n) past) x ≡ latest (suc n) (past ++ x ∷ [])
    full_case k e =
        let a : length past - suc n ≡ k = omega arith in
        let b : length (past ++ x ∷ []) - suc n ≡ suc k =
          omega (arith, length-append past (x ∷ [])) in
        rw (a, b)
          (ground (
            arith,
            length-drop k past,
            pop_left-drop k past,
            drop-append_one (suc k) past x (omega (arith, e)),
          ))

tracker : ℕ → List ℕ → LatencyTracker
tracker n past = record { max_samples = n; samples = latest n past }

record_sample-tracker :
    (n : ℕ) (past : List ℕ) (x : ℕ) → record_sample (tracker n past) x ≡ tracker n (past ++ x ∷ [])
unfolding record_sample tracker
record_sample-tracker n past x =
    ap (λ xs. record { max_samples = n; samples = xs }) (append-latest n past x)

foldl-tracker :
    (n : ℕ) (past xs : List ℕ) → foldl record_sample (tracker n past) xs ≡ tracker n (past ++ xs)
foldl-tracker n past [] = rw append-nil
foldl-tracker n past (x ∷ xs) =
    rw (record_sample-tracker n past x)
      (foldl-tracker n (past ++ x ∷ []) xs ∙ ap (tracker n) (append_assoc past (x ∷ []) xs))

-- A tracker that recorded these latencies, oldest first, holds the last `max_samples` of them.
pub foldl-record_sample :
    (n : ℕ) (latencies : List ℕ)
    → (foldl record_sample (new n) latencies).samples ≡ latest n latencies
unfolding new tracker
foldl-record_sample n latencies =
    let e : new n ≡ tracker n [] =
      ap (λ xs. record { max_samples = n; samples = xs })
        (sym (drop_all (0 - n) [] (omega arith))) in
    rw e (ap (λ (s : LatencyTracker). s.samples) (foldl-tracker n [] latencies))
