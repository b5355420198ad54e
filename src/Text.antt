-- ===== src/Text.antt =====
-- Texts that the program takes apart: lists of the codes of their characters.
pub mod Lines
use Prim.Native.Char.{code}
use Prim.Native.String.{String}
use freephite.Base.{ℕ, List, [], ◌∷◌, ◌++◌, ◌==◌, if◌then◌else◌}

abbrev pub Text : Type 0
Text = List ℕ

-- The text of a literal of the program.
abbrev pub codes : String → Text
codes String.[] = []
codes (String.◌∷◌ c s) = code c ∷ codes s

abbrev pub newline : ℕ
newline = 10

-- `text.split('\n')`: a list with at least one line
abbrev pub extend_first : ℕ → List Text → List Text
extend_first c [] = (c ∷ []) ∷ []
extend_first c (l ∷ ls) = (c ∷ l) ∷ ls

unfoldable pub split_lines : Text → List Text
split_lines [] = [] ∷ []
split_lines (c ∷ t) =
    let rest = split_lines t in if c == newline then [] ∷ rest else extend_first c rest

-- `lines.join('\n')`
unfoldable pub join_lines : List Text → Text
join_lines [] = []
join_lines (l ∷ []) = l
join_lines (l ∷ l' ∷ ls) = l ++ newline ∷ join_lines (l' ∷ ls)
