-- ===== src/Actions/Submit/Prepare.antt =====
-- `getPRAction` of apps/cli/src/actions/submit/prepare_branches.ts: which branches get a request.
pub mod Skips
use freephite.Base.{
  ℕ, Bool, true, false, not, ◌||◌, ◌&&◌, Option, none, some, List, [], ◌∷◌, ◌++◌, is_value,
  if◌then◌else◌, truthy,
}
use freephite.Base.Action.{Result, ok, err, Action, pure, raise, gets, ◌>>=◌, ◌>>◌}
use freephite.Metadata.{Name, Sha, PrInfo, empty_pr_info}
use freephite.Engine.State.{Engine, on_git}
use freephite.Engine.Queries.{
  get_parent_precondition, get_pr_info, get_revision, branch_matches_remote,
}
use freephite.Engine.Tracking.{upsert_pr_info}
use freephite.Actions.Context.{ActionEnv}
use freephite.Actions.Submit.{number_of}

-- The arguments of `getPRInfoForBranches` but for the branches and the reviewers; an
-- `editPRFieldsInline` that is missing asks as it goes.
pub record PrepareArgs : Type 0 where
  pub edit_pr_fields_inline : Option Bool
  pub draft : Bool
  pub publish : Bool
  pub update_only : Bool
  pub dry_run : Bool
  pub always : Bool

-- `TPRSubmissionAction`
pub data SubmissionAction : Type 0 where
  create_action : Name → SubmissionAction
  update_action : Name → ℕ → SubmissionAction

-- The statuses of `getPRAction`.
pub data PrStatus : Type 0 where
  noop create_status restack_status change_status draft_status publish_status : PrStatus

abbrev pub is_true : Option Bool → Bool
is_true none = false
is_true (some b) = b

abbrev pub is_false : Option Bool → Bool
is_false none = false
is_false (some b) = not b

-- The status of a branch with a pull request, given whether the remote has the branch as it is here.
unfoldable pub change_of : PrepareArgs → PrInfo → Bool → PrStatus
change_of args info same =
    if not same || is_true args.edit_pr_fields_inline
    then change_status
    else if args.draft && not (is_true info.is_draft)
    then draft_status
    else if args.publish && not (is_false info.is_draft)
    then publish_status
    else noop

abbrev pub is_noop : PrStatus → Bool
is_noop noop = true
is_noop status = false

abbrev action_for : Name → Option ℕ → SubmissionAction
action_for b none = create_action b
action_for b (some n) = update_action b n

module _ {W : Type 0} (env : ActionEnv W) where
  status_of_pr : PrepareArgs → Name → Name → PrInfo → Action (Engine W) PrStatus
  unfolding change_of
  status_of_pr args b p info =
      if not (is_value info.base p)
      then pure restack_status
      else do same ← branch_matches_remote env.env b; pure (change_of args info same)

  -- The status in `getPRAction`, given what is known of a pull request with a number
  unfoldable pub pr_status : PrepareArgs → Name → Name → Option PrInfo → Action (Engine W) PrStatus
  unfolding status_of_pr
  pr_status args b p none = pure (if args.update_only then noop else create_status)
  pr_status args b p (some info) = elim info.number [
    | none ↦ pure (if args.update_only then noop else create_status)
    | some n ↦ status_of_pr args b p info
  ]

  -- `getPRAction`
  unfoldable pub get_pr_action : PrepareArgs → Name → Action (Engine W) (Option SubmissionAction)
  unfolding pr_status
  get_pr_action args b = do
    p ← get_parent_precondition b
    info ← gets (get_pr_info b)
    status ← pr_status args b p info
    pure (
        if not args.always && (args.dry_run || is_noop status)
        then none
        else some (action_for b (number_of info)))
