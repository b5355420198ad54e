-- ===== src/Actions/Restack.antt =====
-- apps/cli/src/actions/restack.ts
pub mod Conflict
pub mod Settled
use freephite.Base.{true, false, List, [], ◌∷◌}
use freephite.Base.Action.{rebase_conflict, Action, pure, raise, ◌>>=◌, ◌>>◌}
use freephite.Metadata.{Name}
use freephite.Engine.State.{is_trunk}
use freephite.Engine.Queries.{get_parent_precondition}
use freephite.Engine.Rebase.{Restacked, conflict, done, unneeded, restack_branch}
use freephite.Actions.Context.{ActionEnv, Context, on_engine, engine_gets, persist_continuation}

module _ {W : Type 0} (env : ActionEnv W) where
  -- What the loop does with the outcome of one branch, given the branches behind it and the loop
  -- over them.
  unfoldable pub after_restack :
      Name → List Name → Action (Context W) (Unit {0}) → Restacked → Action (Context W) (Unit {0})
  after_restack b rest loop done = do on_engine (get_parent_precondition b); loop
  after_restack b rest loop unneeded = do on_engine (get_parent_precondition b); loop
  after_restack b rest loop (conflict base) = do
    persist_continuation rest [] base
    on_engine (get_parent_precondition b)
    raise rebase_conflict

  unfoldable pub restack_branches : List Name → Action (Context W) (Unit {0})
  unfolding after_restack
  restack_branches [] = pure tt
  restack_branches (b ∷ rest) =
      let loop = restack_branches rest in
      do
        at_trunk ← engine_gets (is_trunk b)
        elim at_trunk [
          | true ↦ loop
          | false ↦ do
            result ← on_engine (restack_branch env.env b)
            after_restack b rest loop result
        ]
