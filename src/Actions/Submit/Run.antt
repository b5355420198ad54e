-- ===== src/Actions/Submit/Run.antt =====
-- apps/cli/src/actions/submit/submit_action.ts and `submitPullRequest` of submit_prs.ts: the submission
-- of a stack, up to the comments on its pull requests. An error of the push is passed on as it is.
use freephite.Base.{
  ℕ, Bool, true, false, not, ◌||◌, ◌&&◌, Option, none, some, List, [], ◌∷◌, if◌then◌else◌,
}
use freephite.Base.Action.{exit_failed, killed, Action, pure, raise, gets, raise_if, ◌>>=◌, ◌>>◌}
use freephite.Metadata.{Name, PrInfo, empty_pr_info, open_pr, review_required}
use freephite.Engine.State.{Engine, on_git, is_trunk}
use freephite.Engine.Queries.{ScopeSpec, get_relative_stack, current_branch_precondition}
use freephite.Engine.Remote.{push_branch}
use freephite.Engine.Tracking.{upsert_pr_info}
use freephite.Actions.Context.{ActionEnv, Prompts}
use freephite.Actions.Submit.{Server, filter_action, validate_branches_to_submit}
use freephite.Actions.Submit.Prepare.{PrepareArgs, SubmissionAction, create_action, update_action}
use freephite.Actions.Submit.Requests.{Submission, SubmitPrompts, get_pr_info_for_branches}

-- The options of `submitAction` that are not those of `getPRInfoForBranches`.
pub record SubmitArgs : Type 0 where
  pub scope : ScopeSpec
  pub prepare : PrepareArgs
  pub confirm : Bool
  pub force_push : Bool
  pub select : Bool

-- The server's answer to a request that succeeds: the number and the address of the pull request.
pub record Submitted : Type 0 where
  pub pr_number : ℕ
  pub pr_url : ℕ

-- `requestServerToSubmitPRs`, `none` for an error, and `populateRemoteShas`
pub record SubmitServer (W : Type 0) : Type 0 where
  pub request_server_to_submit_prs : Submission → Action W (Option Submitted)
  pub populate_remote_shas : Action W (Unit {0})
  pub confirm_branch : Name → Action W Bool
  pub confirm_submit : Action W Bool

abbrev pub head_of : SubmissionAction → Name
head_of (create_action b) = b
head_of (update_action b n) = b

-- What `submitPullRequest` stores of a request and its answer.
unfoldable pub submitted_info : Submission → Submitted → PrInfo
submitted_info x answer = elim x.action [
  | create_action b ↦ record empty_pr_info {
    number = some answer.pr_number;
    url = some answer.pr_url;
    base = some x.base;
    state = some open_pr;
    title = x.fields.title;
    body = x.fields.body;
    review_decision = some review_required;
  }
  | update_action b n ↦ record empty_pr_info {
    number = some answer.pr_number;
    url = some answer.pr_url;
    base = some x.base;
    state = some open_pr;
  }
]

module _ {W : Type 0} (env : ActionEnv W) (server : SubmitServer W) where
  unfoldable pub submit_pull_request : Submission → Action (Engine W) (Unit {0})
  unfolding submitted_info
  submit_pull_request x = do
    answer ← on_git (server.request_server_to_submit_prs x)
    elim answer [
      | none ↦ raise exit_failed
      | some a ↦ upsert_pr_info env.env (head_of x.action) (submitted_info x a)
    ]

  -- The loop that pushes and submits.
  unfoldable pub submit_all : Bool → List Submission → Action (Engine W) (Unit {0})
  unfolding submit_pull_request
  submit_all force_push [] = pure tt
  submit_all force_push (x ∷ rest) = do
    push_branch env.env (head_of x.action) force_push
    submit_pull_request x
    submit_all force_push rest

  -- `shouldAbort`
  unfoldable pub should_abort : SubmitArgs → Bool → Action (Engine W) Bool
  should_abort args has_any_prs =
      if args.prepare.dry_run || not has_any_prs
      then pure true
      else if env.interactive && args.confirm
      then (do goes_on ← on_git server.confirm_submit; if goes_on then pure false else raise killed)
      else pure false

  -- `editPRFieldsInline` as it reaches the preparation
  abbrev pub prepared_args : PrepareArgs → PrepareArgs
  prepared_args args =
      if args.dry_run || not env.interactive
      then record args { edit_pr_fields_inline = some false }
      else args

  abbrev pub has_any : List Submission → Bool
  has_any [] = false
  has_any (x ∷ xs) = true

  -- What `submitAction` does with the branches.
  unfoldable pub submit_branches :
      Prompts W → Server W → SubmitPrompts W → SubmitArgs → List Name → Action (Engine W) (Unit {0})
  unfolding submit_all should_abort validate_branches_to_submit
  submit_branches ask infos prompts args bs = do
    validate_branches_to_submit env infos ask bs
    on_git server.populate_remote_shas
    submissions ← get_pr_info_for_branches env prompts (prepared_args args.prepare) bs
    aborts ← should_abort args (has_any submissions)
    if aborts then pure tt else submit_all args.force_push submissions

  -- `submitAction`, up to its comments
  unfoldable pub submit_action :
      Prompts W → Server W → SubmitPrompts W → SubmitArgs → Action (Engine W) (Unit {0})
  unfolding submit_branches filter_action
  submit_action ask infos prompts args = do
    raise_if (args.prepare.draft && args.prepare.publish) exit_failed
    current ← current_branch_precondition
    stack ← get_relative_stack env.env current args.scope
    names ← filter_action (λ b. gets λ s. not (is_trunk b s)) stack
    selected ←
        if args.select
        then filter_action (λ b. on_git (server.confirm_branch b)) names
        else pure names
    submit_branches ask infos prompts args selected
