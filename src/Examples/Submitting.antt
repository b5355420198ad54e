-- ===== src/Examples/Submitting.antt =====
-- Submissions of the small stack: what is prepared, a dry run, the tree of a comment, and a split.
use freephite.Base.{
  ℕ, true, false, none, some, List, [], ◌∷◌, ◌≡◌, refl, arith, ◌<◌, leb, lookup, includes,
  if◌then◌else◌,
}
use freephite.Base.Action.{ok, pure, ◌>>=◌, on_error, for_each}
use mathlib.Core.Logic.{◌↔◌}
use freephite.Metadata.{Name, widen}
use freephite.Engine.State.{
  valid_meta, valid_or_trunk_meta, is_branch_fixed, is_trunk, assert_branch, branch_exists, on_git,
  get_parent,
}
use freephite.Engine.Queries.{scope_stack, get_parent_precondition, is_branch_empty, get_pr_info}
use freephite.Actions.Submit.{
  filter_action, validate_branches_to_submit, validate_base_revisions, validate_bases,
  validate_no_empty_branches, validate_no_merged_or_closed_branches, pr_numbers, await_pr_info,
  upsert_pr_info_for_branches,
}
use freephite.Actions.Submit.Prepare.{PrepareArgs, get_pr_action}
use freephite.Actions.Submit.Requests.{SubmitPrompts}
use freephite.Actions.Submit.Prepare.Skips.{IsUpToDate, get_pr_action_iff}
use freephite.Actions.Submit.Run.{SubmitArgs, SubmitServer, submit_branches}
use freephite.Actions.Submit.DryRun.{submit_branches_dry}
use freephite.Actions.Submit.Comment.{Entry, Tree, missing_entry, build_tree}
use freephite.Actions.Submit.Comment.Consistent.{IsConsistent}
use freephite.Actions.Submit.Comment.Built.{Falls, build_tree-IsConsistent}
use freephite.Actions.Split.{SplitPrompts, by_commit, toggle_at, get_branch_points}
use freephite.Actions.Split.Points.{
  IsRising, Chooses, confirms, toggles, get_branch_points-IsRising,
}
use freephite.Examples.{Repo, small_repo, small_action_env, stacked}
use freephite.Examples.Commands.{yes_man, small_server, valid_on}

abbrev careful : PrepareArgs
careful = record {
  edit_pr_fields_inline = some false;
  draft = false;
  publish = false;
  update_only = true;
  dry_run = false;
  always = false;
}

two_found : lookup 2 stacked.branches ≡ some (widen (valid_on 1 10 20 2))
unfolding lookup
two_found = refl

get_pr_action_iff_example :
    ((get_pr_action (small_action_env []) careful 2 stacked).0 ≡ ok none)
    ↔ IsUpToDate (small_action_env []) careful 2 (valid_on 1 10 20 2) stacked
get_pr_action_iff_example =
    get_pr_action_iff (small_action_env []) careful 2 (valid_on 1 10 20 2) stacked two_found refl
      refl

abbrev first_answers : SubmitPrompts Repo
first_answers = record {
  oldest_subject = λ b. pure 1;
  infer_pr_body = λ b. pure 2;
  prompt_title = λ t. pure (some t);
  use_prior_body = pure true;
  skip_body = pure true;
  edit_pr_body = pure;
  get_reviewers = pure [];
  get_pr_draft_status = pure true;
}

abbrev refusing : SubmitServer Repo
refusing = record {
  request_server_to_submit_prs = λ x. pure none;
  populate_remote_shas = pure tt;
  confirm_branch = λ b. pure true;
  confirm_submit = pure true;
}

abbrev dry_args : SubmitArgs
dry_args = record {
  scope = scope_stack;
  prepare = record careful { dry_run = true };
  confirm = true;
  force_push = false;
  select = false;
}

two_validated :
    validate_branches_to_submit (small_action_env []) small_server yes_man (2 ∷ []) stacked
    ≡ (ok (2 ∷ []), stacked)
unfolding validate_branches_to_submit validate_base_revisions validate_bases
    validate_no_empty_branches validate_no_merged_or_closed_branches pr_numbers await_pr_info
    upsert_pr_info_for_branches filter_action get_parent_precondition valid_meta valid_or_trunk_meta
    is_branch_fixed is_trunk is_branch_empty assert_branch branch_exists get_pr_info on_git on_error
    for_each lookup includes ◌>>=◌
two_validated = refl

submit_branches_dry_example :
    submit_branches
      (small_action_env [])
      refusing
      yes_man
      small_server
      first_answers
      dry_args
      (2 ∷ [])
      stacked
    ≡ (ok tt, stacked)
submit_branches_dry_example =
    submit_branches_dry (small_action_env []) refusing yes_man small_server first_answers dry_args
      (2 ∷ []) (2 ∷ []) stacked stacked small_repo refl refl two_validated refl
      ((valid_on 1 10 20 2, two_found), tt)

-- The user splits at the second of three commits.
abbrev one_toggle : SplitPrompts Repo
one_toggle = record {
  toggle = λ bs. pure (elim bs [ true ∷ false ∷ rest ↦ some 1 | _ ↦ none ]);
  next_branch_name = λ b names. pure b;
  style = λ b. pure by_commit;
}

second_chosen :
    Chooses
      (small_action_env [])
      one_toggle
      small_repo
      (true ∷ false ∷ false ∷ [])
      1
      (true ∷ true ∷ false ∷ [])
      small_repo
unfolding toggle_at
second_chosen = toggles 1 refl (confirms refl)

get_branch_points-IsRising_example :
    (rest : List ℕ) × (get_branch_points (small_action_env []) one_toggle 5 3 stacked
      ≡ (ok (0 ∷ rest), stacked))
    × IsRising 1 3 rest
get_branch_points-IsRising_example =
    get_branch_points-IsRising (small_action_env []) one_toggle 5 1 3 (true ∷ true ∷ false ∷ [])
      stacked small_repo (omega arith) second_chosen (omega arith)

abbrev submitted_prs : List Entry
submitted_prs =
    record { number = some 7; base = 2; ref = 3 }
    ∷ record { number = some 8; base = 3; ref = 4 }
    ∷ []

abbrev height : Name → ℕ
height b = if leb b 4 then b else 0

height-Falls : Falls stacked height
unfolding missing_entry get_pr_info get_parent lookup
height-Falls b e h = ground arith

height_bounded : (b : Name) → height b < 5
height_bounded b = ground arith

build_tree-IsConsistent_example :
    (tree : Tree) × (build_tree stacked 5 1 submitted_prs ≡ some tree) × IsConsistent tree
unfolding lookup
build_tree-IsConsistent_example =
    build_tree-IsConsistent stacked height 5 1 submitted_prs (refl, refl, (refl, refl, tt))
      (omega arith, (omega arith, tt)) height-Falls height_bounded
