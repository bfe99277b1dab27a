-- ===== src/Text/Lines.antt =====
-- How a text of lines is split again.
use pool_gate.Common.{ℕ, ◌≡◌, refl, ap, false, [], ◌∷◌, ◌++◌, All}
use pool_gate.Text.{Text, is_line_break, split_lines, on_first}

-- A line without a break in it.
abbrev pub IsLine : Text → Type 0
IsLine = All (λ c. is_line_break c ≡ false)

-- A line that is ended by a line feed is the first that is split off.
pub split_lines-cons :
    (l rest : Text) → IsLine l → split_lines false (l ++ 10 ∷ rest) ≡ l ∷ split_lines false rest
unfolding split_lines
split_lines-cons [] rest h = unfold is_line_break in refl
split_lines-cons (c ∷ l) rest h = rw (h.0) (ap (on_first c) (split_lines-cons l rest h.1))

-- The last line needs no line feed.
pub split_lines-last :
    (c : ℕ) (l : Text) → IsLine (c ∷ l) → split_lines false (c ∷ l) ≡ (c ∷ l) ∷ []
unfolding split_lines
split_lines-last c [] h = rw (h.0) refl
split_lines-last c (d ∷ l) h = rw (h.0) (ap (on_first c) (split_lines-last d l h.1))
