-- ===== src/EditFile.antt =====
-- apps/cli/src/actions/edit/stack_edit_file.ts: the file in which the user reorders a stack.
pub mod Roundtrip
use freephite.Base.{
  ℕ, List, [], ◌∷◌, ◌++◌, map, filter, Bool, true, false, not, ◌==◌, if◌then◌else◌,
}
use freephite.Text.{Text, codes, split_lines, join_lines}
use mathlib.Core.List.{reverse}

abbrev pub hash_mark : ℕ
hash_mark = 35

-- `# ${trunk} (trunk, shown for orientation)` and `FILE_FOOTER`
abbrev pub comments : Text → List Text
comments trunk =
    (codes "# " ++ trunk ++ codes " (trunk, shown for orientation)")
    ∷ codes "#"
    ∷ codes "# Stack will be rearranged on trunk to match the above order."
    ∷ []

-- `createStackEditFile`: the contents of the file
unfoldable pub create_stack_edit_file : Text → List Text → Text
create_stack_edit_file trunk names = join_lines (reverse names ++ comments trunk)

-- `line.substring(0, line.includes('#') ? line.indexOf('#') : line.length)`
unfoldable pub strip_comment : Text → Text
strip_comment [] = []
strip_comment (c ∷ l) = if c == hash_mark then [] else c ∷ strip_comment l

abbrev pub is_blank : Text → Bool
is_blank [] = true
is_blank (c ∷ l) = false

-- `parseEditFile`
unfoldable pub parse_edit_file : Text → List Text
unfolding strip_comment
parse_edit_file contents =
    filter (λ l. not (is_blank l)) (map strip_comment (reverse (split_lines contents)))
