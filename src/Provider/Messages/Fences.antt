-- ===== src/Provider/Messages/Fences.antt =====
-- What is taken out of an answer in a code fence.
use pool_gate.Common.{
  ◌≡◌, refl, ap, ◌∙◌, true, false, not, List, [], ◌∷◌, ◌++◌, keep_if, drop, All, arith,
}
use pool_gate.Text.{
  Text, is_space, is_line_break, strip, rstrip, lstrip, split_lines, join_lines, starts_with,
  text_eq,
}
use pool_gate.Text.Strip.{IsTight, IsTight-cons, IsTight-append, strip_tight}
use pool_gate.Text.Lines.{IsLine, split_lines-cons, split_lines-last}
use pool_gate.Provider.Messages.{fence, without_fence, extract_json}

-- Lines, each ended, and then the closing fence.
abbrev pub closed : List Text → Text
closed [] = fence
closed (l ∷ ls) = l ++ 10 ∷ closed ls

-- An answer in a fence that opens with a tag such as `json`.
abbrev pub fenced : Text → List Text → Text
fenced tag ls = fence ++ (tag ++ 10 ∷ closed ls)

-- A line of the body: without a break, and no fence itself.
abbrev pub IsBody : Text → Type 0
IsBody l = IsLine l × (text_eq (strip l) fence ≡ false)

fence-IsTight : IsTight fence
unfolding rstrip is_space
fence-IsTight = record { kept = refl; some_char = omega arith }

closed-IsTight : (ls : List Text) → IsTight (closed ls)
closed-IsTight [] = fence-IsTight
closed-IsTight (l ∷ ls) =
    IsTight-append l (10 ∷ closed ls) (IsTight-cons 10 (closed ls) (closed-IsTight ls))

split_closed : (ls : List Text) → All IsBody ls → split_lines false (closed ls) ≡ ls ++ fence ∷ []
unfolding is_line_break
split_closed [] h = split_lines-last b'`' (b'`' ∷ b'`' ∷ []) (refl, (refl, (refl, tt)))
split_closed (l ∷ ls) h =
    split_lines-cons l (closed ls) h.0.0 ∙ ap (λ (r : List Text). l ∷ r) (split_closed ls h.1)

without_fences :
    (ls : List Text)
    → All IsBody ls
    → keep_if (λ l. not (text_eq (strip l) fence)) (ls ++ fence ∷ []) ≡ ls
unfolding text_eq strip lstrip rstrip is_space
without_fences [] h = refl
without_fences (l ∷ ls) h = rw (h.0.1) (ap (λ (r : List Text). l ∷ r) (without_fences ls h.1))

fence_starts : (t : Text) → starts_with fence (fence ++ t) ≡ true
unfolding starts_with
fence_starts t = refl

fenced_stripped : (tag : Text) (ls : List Text) → strip (fenced tag ls) ≡ fenced tag ls
unfolding is_space
fenced_stripped tag ls = strip_tight b'`' (b'`' ∷ b'`' ∷ (tag ++ 10 ∷ closed ls)) refl (
    IsTight-append fence (tag ++ 10 ∷ closed ls)
      (IsTight-append tag (10 ∷ closed ls) (IsTight-cons 10 (closed ls) (closed-IsTight ls))))

split_fenced :
    (tag : Text) (ls : List Text)
    → IsLine tag
    → All IsBody ls
    → split_lines false (fenced tag ls) ≡ (fence ++ tag) ∷ (ls ++ fence ∷ [])
unfolding is_line_break
split_fenced tag ls t h =
    split_lines-cons (fence ++ tag) (closed ls) (refl, (refl, (refl, t)))
    ∙ ap (λ (r : List Text). (fence ++ tag) ∷ r) (split_closed ls h)

-- An answer that the model puts into a code fence, with a tag or without, is read as the lines of its
-- body, stripped: the fences and the tag go, and no line of the body.
pub extract_json-fenced :
    (tag : Text) (ls : List Text)
    → IsLine tag
    → All IsBody ls
    → extract_json (fenced tag ls) ≡ strip (join_lines ls)
unfolding extract_json without_fence
extract_json-fenced tag ls t h =
    ap without_fence (fenced_stripped tag ls)
    ∙ rw (fence_starts (tag ++ 10 ∷ closed ls)) (
        ap
          (λ (r : List Text).
            strip (join_lines (keep_if (λ l. not (text_eq (strip l) fence)) (drop 1 r))))
          (split_fenced tag ls t h)
        ∙ ap (λ (r : List Text). strip (join_lines r)) (without_fences ls h))
