-- ===== src/Examples/Texts.antt =====
-- Names and files of a stack that are made from concrete texts.
use freephite.Base.{true, Option, none, some, List, [], ◌∷◌, ◌≡◌, refl, includes}
use freephite.Text.{Text, codes}
use freephite.Names.{NameConfig, new_branch_name, is_supported}
use freephite.Names.Bounds.{IsNamed, new_branch_name-IsNamed}
use freephite.EditFile.{create_stack_edit_file, parse_edit_file}
use freephite.EditFile.Roundtrip.{AllNames, parse_edit_file-create_stack_edit_file}

abbrev small_config : NameConfig
small_config = record {
  branch_prefix = codes "jl/";
  branch_replacement = codes "_";
  branch_date = true;
}

abbrev message : Option Text
message = some (codes "Fix: a bug (really)...")

new_branch_name-IsNamed_example :
    IsNamed none message (new_branch_name none message (codes "11-26-") small_config)
unfolding is_supported
new_branch_name-IsNamed_example =
    new_branch_name-IsNamed none message (codes "11-26-") small_config (refl, (refl, (refl, tt)))
      (refl, tt) (refl, (refl, (refl, (refl, (refl, (refl, tt))))))

abbrev stack_names : List Text
stack_names = codes "first" ∷ codes "second" ∷ []

abbrev names_good : AllNames stack_names
unfolding includes
names_good = (
  record { not_blank = refl; no_break = refl; no_hash = refl },
  (record { not_blank = refl; no_break = refl; no_hash = refl }, tt),
)

parse_edit_file-create_stack_edit_file_example :
    parse_edit_file (create_stack_edit_file (codes "main") stack_names) ≡ stack_names
unfolding includes
parse_edit_file-create_stack_edit_file_example =
    parse_edit_file-create_stack_edit_file (codes "main") stack_names refl names_good
