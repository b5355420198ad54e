-- ===== src/Actions/Sync.antt =====
-- `syncAction` of apps/cli/src/actions/sync/sync.ts and `getAction` of apps/cli/src/actions/sync/get.ts.
use freephite.Base.{
  ℕ, Bool, not, Option, none, some, List, [], ◌++◌, includes, is_some, if◌then◌else◌, truthy,
}
use freephite.Base.Action.{preconditions_failed, Action, pure, raise_if, ◌>>=◌, ◌>>◌}
use freephite.Metadata.{Name}
use freephite.Engine.State.{on_git, assert_trunk, is_trunk, is_branch_tracked, all_branch_names}
use freephite.Engine.Queries.{
  get_relative_stack, scope_stack, get_revision, current_branch_precondition,
}
use freephite.Engine.Remote.{pull_trunk, pull_unneeded}
use freephite.Actions.Context.{ActionEnv, Prompts, Context, on_engine, engine_gets}
use freephite.Actions.Restack.{restack_branches}
use freephite.Actions.Stack.{stacks_of}
use freephite.Actions.Submit.{Server, sync_pr_info}
use freephite.Actions.Remote.{pull_trunk_action, get_branches_from_remote}
use freephite.Actions.Clean.{clean_branches}

-- The options of `syncAction`.
pub record SyncOpts : Type 0 where
  pub pull : Bool
  pub force : Bool
  pub deletes : Bool
  pub restack : Bool

module _ {W : Type 0} (env : ActionEnv W) (server : Server W) (uncommitted : W → Bool) where
  -- What `syncAction` restacks at its end, given the stacks of the branches that were moved.
  unfoldable pub restack_synced : List Name → Action (Context W) (Unit {0})
  restack_synced moved = do
    current ← engine_gets λ s. truthy s.current_branch
    elim current [
      | none ↦ restack_branches env moved
      | some b ↦ do
        at_trunk ← engine_gets (is_trunk b)
        if at_trunk
            then (do
              stack ← on_engine (get_relative_stack env.env b scope_stack)
              restack_branches env stack)
            else (do
              tracked ← on_engine (is_branch_tracked b)
              stack ←
                  if not tracked
                  then pure []
                  else if includes b moved
                  then pure []
                  else on_engine (get_relative_stack env.env b scope_stack)
              restack_branches env (moved ++ stack))
    ]

  -- `syncAction`; `rounds` bounds the rounds of `cleanBranches`
  unfoldable pub sync_action : Prompts W → ℕ → SyncOpts → Action (Context W) (Unit {0})
  unfolding restack_synced pull_trunk_action sync_pr_info clean_branches
  sync_action ask rounds opts = do
    changes ← engine_gets λ s. uncommitted s.repository
    raise_if changes preconditions_failed
    if opts.pull then pull_trunk_action env opts.force else pure tt
    names ← engine_gets all_branch_names
    on_engine (sync_pr_info env server names)
    moved ← if opts.deletes then clean_branches env ask rounds opts.force else pure []
    if not opts.restack
        then pure tt
        else do stacks ← on_engine (stacks_of env moved); restack_synced stacks

  -- `getAction`; `get_downstack_dependencies` asks the server
  unfoldable pub get_action :
      (Name → Name → Action W (List Name)) → Option Name → Bool → Action (Context W) (Unit {0})
  unfolding get_branches_from_remote sync_pr_info
  get_action get_downstack_dependencies named force = do
    changes ← engine_gets λ s. uncommitted s.repository
    raise_if changes preconditions_failed
    on_engine assert_trunk
    pulled ← on_engine (pull_trunk env.env)
    elim pulled [
      | pull_unneeded ↦ pure tt
      | _ ↦ do t ← on_engine assert_trunk; on_engine (get_revision t); pure tt
    ]
    raise_if (not (is_some (truthy server.auth_token))) preconditions_failed
    b ← elim named [ some b ↦ pure b | none ↦ on_engine current_branch_precondition ]
    t ← on_engine assert_trunk
    names ← on_engine (on_git (get_downstack_dependencies b t))
    get_branches_from_remote env names t force
    all ← engine_gets all_branch_names
    on_engine (sync_pr_info env server all)
