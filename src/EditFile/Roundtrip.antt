-- ===== src/EditFile/Roundtrip.antt =====
-- A file that is not edited is parsed to the branches from which it was made.
use freephite.Base.{
  ℕ, List, [], ◌∷◌, ◌++◌, map, filter, false, not, ◌≡◌, refl, ap, ◌∙◌, arith, includes,
}
use freephite.Text.{Text, newline, split_lines, join_lines}
use freephite.Text.Lines.{AllLines, split_lines-join_lines}
use freephite.EditFile.{
  hash_mark, comments, create_stack_edit_file, strip_comment, is_blank, parse_edit_file,
}
use mathlib.Core.List.{reverse, reverse-append, reverse-reverse, reverse-cons}

-- A name that a line of the file can hold.
pub record IsLineName (n : Text) : Type 0 where
  pub not_blank : is_blank n ≡ false
  pub no_break : includes newline n ≡ false
  pub no_hash : includes hash_mark n ≡ false

abbrev pub AllNames : List Text → Type 0
AllNames [] = Unit {0}
AllNames (n ∷ ns) = IsLineName n × AllNames ns

strip_comment_plain : (n : Text) → includes hash_mark n ≡ false → strip_comment n ≡ n
unfolding strip_comment includes
strip_comment_plain [] h = refl
strip_comment_plain (c ∷ n) h = ground (arith, strip_comment_plain n)

abbrev kept : List Text → List Text
kept ls = filter (λ l. not (is_blank l)) (map strip_comment ls)

kept-names : (ns : List Text) → AllNames ns → kept ns ≡ ns
kept-names [] h = refl
kept-names (n ∷ ns) (h, hs) =
    rw (strip_comment_plain n h.no_hash) (rw (h.not_blank) (ap (λ r. n ∷ r) (kept-names ns hs)))

AllLines-append : (ls ls' : List Text) → AllLines ls → AllLines ls' → AllLines (ls ++ ls')
AllLines-append [] ls' h h' = h'
AllLines-append (l ∷ ls) ls' (h, hs) h' = (h, AllLines-append ls ls' hs h')

reverse-AllLines : (ns : List Text) → AllNames ns → AllLines (reverse ns)
reverse-AllLines [] h = tt
reverse-AllLines (n ∷ ns) (h, hs) =
    rw reverse-cons
      (AllLines-append (reverse ns) (n ∷ []) (reverse-AllLines ns hs) (h.no_break, tt))

includes-append_false :
    (c : ℕ) (s t : Text) → includes c s ≡ false → includes c t ≡ false → includes c (s ++ t) ≡ false
unfolding includes
includes-append_false c [] t h h' = h'
includes-append_false c (x ∷ s) t h h' = ground (arith, includes-append_false c s t)

comments-AllLines : (trunk : Text) → includes newline trunk ≡ false → AllLines (comments trunk)
unfolding includes
comments-AllLines trunk h = (includes-append_false newline trunk _ h refl, (refl, (refl, tt)))

kept-comments : (trunk : Text) (ns : List Text) → kept (reverse (comments trunk) ++ ns) ≡ kept ns
unfolding strip_comment
kept-comments trunk ns = refl

-- Joining at least the comments and splitting again gives the lines.
lines_back :
    (ls : List Text) (trunk : Text)
    → AllLines (ls ++ comments trunk)
    → split_lines (join_lines (ls ++ comments trunk)) ≡ ls ++ comments trunk
lines_back [] trunk h = split_lines-join_lines _ _ h
lines_back (l ∷ ls) trunk h = split_lines-join_lines l (ls ++ comments trunk) h

-- Where no name is empty or holds a line break or a hash mark, and the trunk's name holds no line
-- break, parsing the file that has been made of the names gives the names back, in their order.
pub parse_edit_file-create_stack_edit_file :
    (trunk : Text) (names : List Text)
    → includes newline trunk ≡ false
    → AllNames names
    → parse_edit_file (create_stack_edit_file trunk names) ≡ names
unfolding parse_edit_file create_stack_edit_file
parse_edit_file-create_stack_edit_file trunk names t h =
    ap (λ ls. kept (reverse ls))
      (lines_back (reverse names) trunk (
        AllLines-append (reverse names) (comments trunk) (reverse-AllLines names h)
          (comments-AllLines trunk t)))
    ∙ ap kept (reverse-append (reverse names) (comments trunk))
    ∙ ap (λ ns. kept (reverse (comments trunk) ++ ns)) (reverse-reverse names)
    ∙ kept-comments trunk names
    ∙ kept-names names h
