-- ===== src/Actions/Stack.antt =====
-- The actions that edit the stack around the current branch: apps/cli/src/actions/ fold_branch.ts,
-- delete_branch.ts, current_branch_onto.ts, squash.ts, edit_branch.ts, unbranch.ts, untrack_branch.ts,
-- create_branch.ts and `reorderBranches` of edit/edit_downstack.ts.
pub mod Reorder
use freephite.Base.{
  ℕ, Bool, true, not, ◌&&◌, ◌||◌, Option, none, some, List, [], ◌∷◌, ◌++◌, ◌==◌, if◌then◌else◌,
  truthy, filter,
}
use freephite.Base.Action.{
  exit_failed, rebase_conflict, Action, pure, raise, gets, raise_if, ◌>>=◌, ◌>>◌, for_each,
  on_error,
}
use freephite.Metadata.{Name, closed_pr, merged_pr}
use freephite.Git.{CommitOpts}
use freephite.Engine.State.{Engine, on_git, assert_trunk, is_trunk, is_branch_tracked, get_children}
use freephite.Engine.Update.{set_parent}
use freephite.Engine.Queries.{
  get_relative_stack, scope_upstack, scope_upstack_exclusive, current_branch_precondition,
  get_parent_precondition, get_pr_info, is_merged_into_trunk, is_branch_empty,
}
use freephite.Engine.Tracking.{
  untrack_branch, checkout_new_branch, fold_current_branch, delete_branch,
}
use freephite.Engine.Commits.{commit, squash_current_branch, unbranch}
use freephite.Engine.Rebase.{conflict, rebase_interactive}
use freephite.Actions.Context.{ActionEnv, Context, on_engine, engine_gets, persist_continuation}
use freephite.Actions.Restack.{restack_branches}

module _ {W : Type 0} (env : ActionEnv W) where
  -- `restackBranches(getRelativeStack(currentBranchPrecondition, UPSTACK_EXCLUSIVE))`
  unfoldable pub restack_above_current : Action (Context W) (Unit {0})
  restack_above_current = do
    current ← on_engine current_branch_precondition
    above ← on_engine (get_relative_stack env.env current scope_upstack_exclusive)
    restack_branches env above

  -- `foldCurrentBranch` of fold_branch.ts
  unfoldable pub fold_action : Bool → Action (Context W) (Unit {0})
  unfolding restack_above_current
  fold_action keep = do
    current ← on_engine current_branch_precondition
    on_engine (get_parent_precondition current)
    on_engine (fold_current_branch env.env keep)
    restack_above_current

  merged_or_empty : Name → Action (Engine W) Bool
  merged_or_empty b = do
    merged ← is_merged_into_trunk env.env b
    if merged then pure true else is_branch_empty env.env b

  -- `isSafeToDelete(…).result`
  unfoldable pub is_safe_to_delete : Name → Action (Engine W) Bool
  unfolding merged_or_empty
  is_safe_to_delete b = do
    info ← gets (get_pr_info b)
    elim info [
      | none ↦ merged_or_empty b
      | some i ↦ elim i.state [
        | some closed_pr ↦ pure true
        | some merged_pr ↦ elim i.base [ some base ↦ pure true | none ↦ do assert_trunk; pure true ]
        | _ ↦ merged_or_empty b
      ]
    ]

  unfoldable pub delete_branch_action : Name → Bool → Action (Context W) (Unit {0})
  unfolding is_safe_to_delete
  delete_branch_action b force = do
    at_trunk ← engine_gets (is_trunk b)
    raise_if at_trunk exit_failed
    safe ← if force then pure true else on_engine (is_safe_to_delete b)
    raise_if (not safe) exit_failed
    to_restack ← on_engine (get_relative_stack env.env b scope_upstack_exclusive)
    on_engine (delete_branch env.env b)
    restack_branches env to_restack

  -- `currentBranchOnto`, behind the check for uncommitted changes
  unfoldable pub current_branch_onto : Name → Action (Context W) (Unit {0})
  current_branch_onto onto = do
    current ← on_engine current_branch_precondition
    on_engine (set_parent env.env current onto)
    stack ← on_engine (get_relative_stack env.env current scope_upstack)
    restack_branches env stack

  -- `squashCurrentBranch` of squash.ts
  unfoldable pub squash_action : Option ℕ → Bool → Action (Context W) (Unit {0})
  unfolding restack_above_current
  squash_action message no_edit = do
    on_engine (squash_current_branch env.env message no_edit)
    restack_above_current

  unfoldable pub edit_branch_action : Action (Context W) (Unit {0})
  unfolding restack_above_current
  edit_branch_action = do
    current ← on_engine current_branch_precondition
    result ← on_engine (rebase_interactive env.env current)
    elim result [
      | conflict base ↦ do
        above ← on_engine (get_relative_stack env.env current scope_upstack_exclusive)
        persist_continuation above [] base
        raise rebase_conflict
      | _ ↦ restack_above_current
    ]

  -- `unbranch` of unbranch.ts
  unfoldable pub unbranch_action : Action (Context W) (Unit {0})
  unbranch_action = do
    current ← on_engine current_branch_precondition
    on_engine (get_parent_precondition current)
    children ← on_engine (get_children current)
    elim children [ [] ↦ on_engine (unbranch env.env) | c ∷ cs ↦ raise exit_failed ]

  -- `untrackBranch` of untrack_branch.ts, with `shouldUntrackBranchWithChildren`
  unfoldable pub untrack_action : Name → Bool → Action (Context W) (Unit {0})
  untrack_action b force = do
    at_trunk ← engine_gets (is_trunk b)
    raise_if at_trunk exit_failed
    tracked ← on_engine (is_branch_tracked b)
    if not tracked then pure tt else do
      children ← on_engine (get_children b)
      agreed ← engine_gets λ s. force || env.interactive && env.confirm s.repository
      elim children [
        | [] ↦ on_engine (untrack_branch env.env b)
        | c ∷ cs ↦ if agreed then on_engine (untrack_branch env.env b) else pure tt
      ]

  -- `reorderBranches`
  unfoldable pub reorder_branches : Name → List Name → Action (Engine W) (Unit {0})
  reorder_branches p [] = pure tt
  reorder_branches p (b ∷ rest) = do set_parent env.env b p; reorder_branches b rest

  -- `getRelativeStack` over several branches, joined
  unfoldable pub stacks_of : List Name → Action (Engine W) (List Name)
  stacks_of [] = pure []
  stacks_of (b ∷ rest) = do
    stack ← get_relative_stack env.env b scope_upstack
    others ← stacks_of rest
    pure (stack ++ others)

  -- The part of `createBranchAction` behind the commit: the siblings move onto the new branch.
  insert_branch : Name → Bool → Action (Context W) (Unit {0})
  unfolding stacks_of
  insert_branch b insert_here = do
    p ← on_engine (get_parent_precondition b)
    children ← on_engine (get_children p)
    let siblings = filter (λ c. not (c == b)) children
    if insert_here
        then (do
          on_engine (for_each (λ c. set_parent env.env c b) siblings)
          stacks ← on_engine (stacks_of siblings)
          restack_branches env stacks)
        else pure tt

  -- `createBranchAction`, from the name that `newBranchName` computes
  unfoldable pub create_branch_action :
      Option Name → Bool → Bool → CommitOpts → Action (Context W) (Unit {0})
  unfolding insert_branch
  create_branch_action name all insert_here opts = elim (truthy name) [
    | none ↦ raise exit_failed
    | some b ↦ do
      on_engine (checkout_new_branch env.env b)
      if all then on_engine (on_git env.add_all) else pure tt
      staged ← engine_gets λ s. env.detect_staged_changes s.repository
      if staged
          then on_engine (
              on_error (commit env.env (record opts { patch = not all && opts.patch }))
                (delete_branch env.env b))
          else pure tt
      insert_branch b insert_here
  ]
