-- ===== src/Actions/Remote.antt =====
-- apps/cli/src/actions/sync/get.ts (`getBranchesFromRemote`), apps/cli/src/actions/continue.ts and
-- `pullTrunk` of apps/cli/src/actions/sync/sync.ts.
use freephite.Base.{
  Bool, false, not, ◌&&◌, ◌||◌, Option, none, some, List, [], ◌∷◌, ◌==◌, if◌then◌else◌, truthy,
}
use freephite.Base.Action.{
  rebase_conflict, killed, no_continue, Action, pure, raise, gets, ◌>>=◌, ◌>>◌,
}
use freephite.Metadata.{Name}
use freephite.Engine.State.{on_git, branch_exists, assert_trunk, is_branch_tracked}
use freephite.Engine.Queries.{
  current_branch_precondition, get_parent_precondition, branch_matches_fetched, get_revision,
}
use freephite.Engine.Rebase.{
  conflict, finished, still_conflicted, continue_rebase, rebase_branch_onto_fetched,
}
use freephite.Engine.Remote.{
  pull_done, pull_unneeded, pull_conflict, pull_trunk, reset_trunk_to_remote, fetch_branch,
  checkout_branch_from_fetched,
}
use freephite.Actions.Context.{
  ActionEnv, Context, on_engine, engine_gets, persist_continuation, clear_continuation,
}
use freephite.Actions.Restack.{restack_branches}
use freephite.Actions.Context.{choose_rebase, choose_overwrite, choose_abort}

module _ {W : Type 0} (env : ActionEnv W) where
  -- `maybeOverwriteBranch`
  maybe_overwrite_branch : Name → Name → Action (Context W) (Unit {0})
  maybe_overwrite_branch b p = do
    agreed ← engine_gets λ s. env.interactive && env.confirm s.repository
    if agreed then on_engine (checkout_branch_from_fetched env.env b p) else raise killed

  -- `handleSameParent`
  handle_same_parent : Name → Name → List Name → Action (Context W) (Unit {0})
  handle_same_parent b p remaining = do
    choice ←
        engine_gets λ s. if env.interactive then env.fetch_choice s.repository else choose_abort
    elim choice [
      | choose_rebase ↦ do
        result ← on_engine (rebase_branch_onto_fetched env.env b)
        elim result [
          | conflict base ↦ do persist_continuation [] remaining base; raise rebase_conflict
          | _ ↦ pure tt
        ]
      | choose_overwrite ↦ on_engine (checkout_branch_from_fetched env.env b p)
      | choose_abort ↦ raise killed
    ]

  -- The body of the loop in `getBranchesFromRemote`.
  sync_branch : Bool → Name → Name → List Name → Action (Context W) (Unit {0})
  unfolding maybe_overwrite_branch handle_same_parent
  sync_branch force b p remaining = do
    on_engine (fetch_branch env.env b p)
    there ← engine_gets (branch_exists b)
    if force || not there then on_engine (checkout_branch_from_fetched env.env b p) else do
      tracked ← on_engine (is_branch_tracked b)
      if not tracked then maybe_overwrite_branch b p else do
        parent ← on_engine (get_parent_precondition b)
        if not (parent == p) then maybe_overwrite_branch b p else do
          same ← on_engine (branch_matches_fetched env.env b)
          if same then pure tt else handle_same_parent b p remaining

  unfoldable pub get_branches_from_remote : List Name → Name → Bool → Action (Context W) (Unit {0})
  unfolding sync_branch
  get_branches_from_remote [] base force = pure tt
  get_branches_from_remote (b ∷ rest) base force = do
    sync_branch force b base rest
    get_branches_from_remote rest b force

  -- What `continueAction` does once the interrupted rebase has ended.
  resume : Option (List Name) → Option (List Name) → Action (Context W) (Unit {0})
  resume to_sync to_restack = do
    elim to_sync [
      | none ↦ pure tt
      | some names ↦ do
        base ← on_engine (current_branch_precondition)
        get_branches_from_remote names base false
    ]
    elim to_restack [ none ↦ pure tt | some names ↦ restack_branches env names ]
    clear_continuation

  unfoldable pub continue_action : Bool → Action (Context W) (Unit {0})
  unfolding resume
  continue_action add_all = do
    rebasing ← engine_gets λ s. env.env.git.rebase_in_progress s.repository
    if not rebasing then (do clear_continuation; raise no_continue) else do
      if add_all then on_engine (on_git env.add_all) else pure tt
      saved ← gets λ s. s.continuation
      elim (truthy saved.rebased_branch_base) [
        | none ↦ do clear_continuation; raise no_continue
        | some base ↦ do
          result ← on_engine (continue_rebase env.env base)
          elim result [
            | still_conflicted ↦ do
              persist_continuation
                  (elim saved.branches_to_restack [ none ↦ [] | some names ↦ names ]) [] base
              raise rebase_conflict
            | finished b ↦ resume saved.branches_to_sync saved.branches_to_restack
          ]
      ]

  -- `pullTrunk` of sync.ts
  unfoldable pub pull_trunk_action : Bool → Action (Context W) (Unit {0})
  pull_trunk_action force = do
    on_engine assert_trunk
    result ← on_engine (pull_trunk env.env)
    elim result [
      | pull_unneeded ↦ pure tt
      | pull_done ↦ do t ← on_engine assert_trunk; on_engine (get_revision t); pure tt
      | pull_conflict ↦ do
        agreed ← engine_gets λ s. force || env.interactive && env.confirm s.repository
        if agreed
            then (do
              on_engine (reset_trunk_to_remote env.env)
              t ← on_engine assert_trunk
              on_engine (get_revision t)
              pure tt)
            else raise killed
    ]
