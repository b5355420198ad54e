-- ===== src/Actions/Changes.antt =====
-- apps/cli/src/actions/commit_amend.ts, commit_create.ts and rename_branch.ts: changes of the current
-- branch.
use freephite.Base.{
  Bool, true, false, not, ◌&&◌, Option, none, some, ◌==◌, if◌then◌else◌, truthy, is_some,
}
use freephite.Base.Action.{
  preconditions_failed, exit_failed, blocked_during_rebase, Action, pure, raise_if, ◌>>=◌, ◌>>◌,
}
use freephite.Metadata.{Name, PrInfo}
use freephite.Git.{CommitOpts}
use freephite.Engine.State.{Engine, on_git}
use freephite.Engine.Queries.{current_branch_precondition, is_branch_empty, get_pr_info}
use freephite.Engine.Tracking.{rename_current_branch}
use freephite.Engine.Commits.{commit}
use freephite.Actions.Context.{ActionEnv, Context, on_engine, engine_gets}
use freephite.Actions.Stack.{restack_above_current}

abbrev pub has_number : Option PrInfo → Bool
has_number none = false
has_number (some info) = is_some (truthy info.number)

module _ {W : Type 0} (env : ActionEnv W) where
  -- `addAll` and the options that both commands pass to `commit`
  abbrev stage_and_commit : Bool → CommitOpts → Action (Engine W) (Unit {0})
  stage_and_commit add_all opts = do
    if add_all then on_git env.add_all else pure tt
    commit env.env (record opts { patch = not add_all && opts.patch })

  -- `commitAmendAction`; of the options `message`, `no_edit` and `patch` are the command's
  unfoldable pub commit_amend_action : Bool → CommitOpts → Action (Context W) (Unit {0})
  unfolding restack_above_current
  commit_amend_action add_all opts = do
    current ← on_engine current_branch_precondition
    empty ← on_engine (is_branch_empty env.env current)
    raise_if empty preconditions_failed
    rebasing ← engine_gets λ s. env.env.git.rebase_in_progress s.repository
    raise_if rebasing blocked_during_rebase
    on_engine (stage_and_commit add_all (record opts { amend = true }))
    restack_above_current env

  -- `commitCreateAction`, with `ensureSomeStagedChangesPrecondition`
  unfoldable pub commit_create_action : Bool → CommitOpts → Action (Context W) (Unit {0})
  unfolding restack_above_current
  commit_create_action add_all opts = do
    rebasing ← engine_gets λ s. env.env.git.rebase_in_progress s.repository
    raise_if rebasing blocked_during_rebase
    if add_all then on_engine (on_git env.add_all) else pure tt
    staged ← engine_gets λ s. env.detect_staged_changes s.repository
    raise_if (not staged) preconditions_failed
    on_engine (commit env.env (record opts { amend = false; patch = not add_all && opts.patch }))
    restack_above_current env

  -- `renameCurrentBranch` of rename_branch.ts, given what the prompt returns and
  -- `replaceUnsupportedCharacters`
  unfoldable pub rename_action :
      (Name → Action W Name) → (Name → Name) → Option Name → Bool → Action (Engine W) (Unit {0})
  rename_action prompt_name replace given force = do
    old ← current_branch_precondition
    b ← elim (if env.interactive then truthy given else none) [
      | some b ↦ pure b
      | none ↦ on_git (prompt_name old)
    ]
    if old == b then pure tt else do
      submitted ← λ s. pure (has_number (get_pr_info old s)) s
      raise_if (submitted && not force) exit_failed
      rename_current_branch env.env (replace b)
