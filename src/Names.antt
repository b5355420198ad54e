-- ===== src/Names.antt =====
-- apps/cli/src/lib/utils/branch_name.ts: the name of a new branch, from what the user types.
pub mod Bounds
use freephite.Base.{
  ℕ, zero, suc, Bool, true, false, ◌||◌, ◌&&◌, Option, none, some, List, [], ◌∷◌, ◌++◌, ◌==◌, leb,
  if◌then◌else◌,
}
use freephite.Text.{Text}

-- What the functions read of the user's configuration. `branchReplacement` is '_' where it is not set,
-- and `branchDate` true.
pub record NameConfig : Type 0 where
  pub branch_prefix : Text
  pub branch_replacement : Text
  pub branch_date : Bool

abbrev pub max_branch_name_byte_length : ℕ
max_branch_name_byte_length = 234

-- `[-_/.a-zA-Z0-9]`
unfoldable pub is_supported : ℕ → Bool
is_supported c =
    c == 45
    || c == 95
    || c == 47
    || c == 46
    || (leb 97 c && leb c 122)
    || (leb 65 c && leb c 90)
    || (leb 48 c && leb c 57)

-- `/` or `.`
abbrev pub is_ignored : ℕ → Bool
is_ignored c = c == 47 || c == 46

abbrev drop_if_last : ℕ → Text → Text
drop_if_last c [] = if is_ignored c then [] else c ∷ []
drop_if_last c (x ∷ t) = c ∷ x ∷ t

-- `input.replace(/[/.]*$/, '')`
unfoldable pub remove_unsupported_trailing_characters : Text → Text
remove_unsupported_trailing_characters [] = []
remove_unsupported_trailing_characters (c ∷ t) =
    drop_if_last c (remove_unsupported_trailing_characters t)

-- `text.replace(/[^-_/.a-zA-Z0-9]+/g, replacement)`: each run is replaced once.
unfoldable pub replace_runs : Text → Bool → Text → Text
replace_runs r in_run [] = []
replace_runs r in_run (c ∷ t) = elim (is_supported c) [
  | true ↦ c ∷ replace_runs r false t
  | false ↦ elim in_run [ true ↦ replace_runs r true t | false ↦ r ++ replace_runs r true t ]
]

unfoldable pub replace_unsupported_characters : Text → NameConfig → Text
unfolding remove_unsupported_trailing_characters replace_runs
replace_unsupported_characters input config =
    replace_runs config.branch_replacement false (remove_unsupported_trailing_characters input)

-- `text.slice(0, n)`
unfoldable pub slice_to : ℕ → Text → Text
slice_to zero t = []
slice_to (suc n) [] = []
slice_to (suc n) (c ∷ t) = c ∷ slice_to n t

abbrev pub is_empty_text : Option Text → Bool
is_empty_text none = true
is_empty_text (some []) = true
is_empty_text (some (c ∷ t)) = false

abbrev pub or_empty : Option Text → Text
or_empty none = []
or_empty (some t) = t

-- `newBranchName`, given today's date as it is printed
unfoldable pub new_branch_name : Option Text → Option Text → Text → NameConfig → Option Text
unfolding replace_unsupported_characters slice_to
new_branch_name branch_name commit_message today config = elim (is_empty_text branch_name) [
  | false ↦
      let name = replace_unsupported_characters (or_empty branch_name) config in
      some (slice_to max_branch_name_byte_length (config.branch_prefix ++ name))
  | true ↦ elim (is_empty_text commit_message) [
    | true ↦ none
    | false ↦
        let date = if config.branch_date then today else [] in
        let message = replace_unsupported_characters (or_empty commit_message) config in
        some (slice_to max_branch_name_byte_length (config.branch_prefix ++ date ++ message))
  ]
]

-- `setBranchPrefix`
unfoldable pub set_branch_prefix : Text → NameConfig → NameConfig
unfolding replace_unsupported_characters
set_branch_prefix new_prefix config = record config {
  branch_prefix = replace_unsupported_characters new_prefix config;
}
