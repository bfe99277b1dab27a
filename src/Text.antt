-- ===== src/Text.antt =====
-- Python's text methods that the services use, over code points: `str.strip`, `str.rstrip`,
-- `str.splitlines`, `str.startswith` and `"\n".join`.
pub mod Strip
pub mod Lines
use Prim.Native.Char.{code}
use Prim.Native.String.{String}
use pool_gate.Common.{
  ℕ, Bool, true, false, ◌&&◌, ◌||◌, ◌==◌, leb, if◌then◌else◌, List, [], ◌∷◌, ◌++◌,
}

abbrev pub Text : Type 0
Text = List ℕ

-- The code points of a literal.
abbrev pub codes : String → Text
codes String.[] = []
codes (String.◌∷◌ c s) = code c ∷ codes s

-- `str.isspace` of one character.
unfoldable pub is_space : ℕ → Bool
is_space c =
    (leb 9 c && leb c 13)
    || (leb 28 c && leb c 32)
    || c == 0x85
    || c == 0xa0
    || c == 0x1680
    || (leb 0x2000 c && leb c 0x200a)
    || c == 0x2028
    || c == 0x2029
    || c == 0x202f
    || c == 0x205f
    || c == 0x3000

-- Where `str.splitlines` ends a line.
unfoldable pub is_line_break : ℕ → Bool
is_line_break c =
    (leb 10 c && leb c 13) || (leb 28 c && leb c 30) || c == 0x85 || c == 0x2028 || c == 0x2029

unfoldable pub lstrip : Text → Text
lstrip [] = []
lstrip (c ∷ cs) = let rest = lstrip cs in if is_space c then rest else c ∷ cs

-- A character before what is left of the rest: dropped at the end, if it is a space.
abbrev pub unless_last : ℕ → Text → Text
unless_last c [] = if is_space c then [] else c ∷ []
unless_last c (d ∷ ds) = c ∷ d ∷ ds

unfoldable pub rstrip : Text → Text
rstrip [] = []
rstrip (c ∷ cs) = unless_last c (rstrip cs)

unfoldable pub strip : Text → Text
strip t = rstrip (lstrip t)

abbrev pub on_first : ℕ → List Text → List Text
on_first c [] = (c ∷ []) ∷ []
on_first c (l ∷ ls) = (c ∷ l) ∷ ls

-- `splitlines`, after a carriage return or not: a line feed after one belongs to it.
unfoldable pub split_lines : Bool → Text → List Text
split_lines after_cr [] = []
split_lines after_cr (c ∷ cs) =
    let same = split_lines false cs in
    let next = split_lines (c == 13) cs in
    if after_cr && c == 10 then same else if is_line_break c then [] ∷ next else on_first c same

-- `"\n".join(lines)`
unfoldable pub join_lines : List Text → Text
join_lines [] = []
join_lines (l ∷ []) = l
join_lines (l ∷ m ∷ ls) = l ++ 10 ∷ join_lines (m ∷ ls)

unfoldable pub starts_with : Text → Text → Bool
starts_with [] t = true
starts_with (p ∷ ps) [] = false
starts_with (p ∷ ps) (c ∷ cs) = p == c && starts_with ps cs

unfoldable pub text_eq : Text → Text → Bool
text_eq [] [] = true
text_eq [] (d ∷ ds) = false
text_eq (c ∷ cs) [] = false
text_eq (c ∷ cs) (d ∷ ds) = c == d && text_eq cs ds
