-- ===== src/Text/Lines.antt =====
-- Lines that are joined and split again.
use freephite.Base.{false, List, [], ◌∷◌, ◌++◌, ◌≡◌, refl, ◌∙◌, ap, arith, includes}
use freephite.Text.{Text, newline, split_lines, join_lines}

-- No line has a line break.
abbrev pub AllLines : List Text → Type 0
AllLines [] = Unit {0}
AllLines (l ∷ ls) = (includes newline l ≡ false) × AllLines ls

split_lines_once : (l : Text) → includes newline l ≡ false → split_lines l ≡ l ∷ []
unfolding split_lines includes
split_lines_once [] h = refl
split_lines_once (c ∷ l) h = ground (arith, split_lines_once l)

split_lines-break :
    (l t : Text) → includes newline l ≡ false → split_lines (l ++ newline ∷ t) ≡ l ∷ split_lines t
unfolding split_lines includes
split_lines-break [] t h = refl
split_lines-break (c ∷ l) t h = ground (arith, split_lines-break l t)

-- Splitting undoes joining, for at least one line.
pub split_lines-join_lines :
    (l : Text) (ls : List Text) → AllLines (l ∷ ls) → split_lines (join_lines (l ∷ ls)) ≡ l ∷ ls
unfolding join_lines
split_lines-join_lines l [] (h, hs) = split_lines_once l h
split_lines-join_lines l (l' ∷ ls) (h, hs) =
    split_lines-break l (join_lines (l' ∷ ls)) h ∙ ap (λ r. l ∷ r) (split_lines-join_lines l' ls hs)
