-- ===== src/Engine/Rebase.antt =====
-- The methods of the engine that rebase a branch.
pub mod Fixed
use freephite.Base.{Option, if◌then◌else◌, none, some, truthy}
use freephite.Base.Action.{
  bad_trunk_operation, preconditions_failed, Action, pure, raise, gets, ◌>>=◌, ◌>>◌,
}
use freephite.Metadata.{Validation, Name, Sha, valid}
use freephite.Git.{branch, sha, RebaseResult, rebase_done, rebase_conflicted}
use freephite.Engine.State.{
  Env, Engine, on_git, read_git, set_current_branch, get_meta, assert_branch, valid_or_trunk_meta,
  valid_meta, is_branch_fixed,
}
use freephite.Engine.Update.{handle_successful_rebase}

-- The result of `restackBranch`, `rebaseInteractive` and `rebaseBranchOntoFetched`: a conflict
-- comes with `rebasedBranchBase`.
pub data Restacked : Type 0 where
  conflict : Sha → Restacked
  done unneeded : Restacked

-- The result of `continueRebase`.
pub data Continued : Type 0 where
  finished : Name → Continued
  still_conflicted : Continued

module _ {W : Type 0} (env : Env W) where
  -- What follows every rebase: a conflict is reported with the new base, and otherwise the
  -- metadata takes the new base.
  unfoldable pub finish_rebase : Name → Sha → RebaseResult → Action (Engine W) Restacked
  finish_rebase b base rebase_conflicted = pure (conflict base)
  finish_rebase b base rebase_done = do handle_successful_rebase env b base; pure done

  -- The part of `restackBranch` behind the check that the branch has to be rebased.
  unfoldable pub restack_unfixed : Name → Validation → Action (Engine W) Restacked
  restack_unfixed b (valid p r) = do
    assert_branch p
    parent ← get_meta p
    result ← on_git (env.git.rebase (branch p) r b env.restack_committer_date_is_author_date)
    finish_rebase b parent.branch_revision result
  restack_unfixed b v = raise bad_trunk_operation

  unfoldable pub restack_branch : Name → Action (Engine W) Restacked
  restack_branch b = do
    m ← valid_or_trunk_meta b
    fixed ← is_branch_fixed b
    if fixed then pure unneeded else restack_unfixed b m.validation

  unfoldable pub rebase_interactive : Name → Action (Engine W) Restacked
  rebase_interactive b = do
    m ← valid_meta b
    result ← on_git (env.git.rebase_interactive m.parent_branch_revision b)
    finish_rebase b m.parent_branch_revision result

  -- `continueRebase` once the rebase has ended: git tells which branch it was.
  unfoldable pub record_rebased : Sha → Option Name → Action (Engine W) Continued
  record_rebased base none = raise preconditions_failed
  record_rebased base (some b) = do
    valid_meta b
    handle_successful_rebase env b base
    pure (finished b)

  unfoldable pub finish_continued : Sha → RebaseResult → Action (Engine W) Continued
  finish_continued base rebase_conflicted = pure still_conflicted
  finish_continued base rebase_done = do
    current ← gets λ s. truthy (env.git.get_current_branch_name s.repository)
    record_rebased base current

  unfoldable pub continue_rebase : Sha → Action (Engine W) Continued
  continue_rebase base = do result ← on_git env.git.rebase_continue; finish_continued base result

  unfoldable pub rebase_branch_onto_fetched : Name → Action (Engine W) Restacked
  rebase_branch_onto_fetched b = do
    m ← valid_meta b
    head ← read_git env.git.read_fetch_head
    base ← read_git env.git.read_fetch_base
    on_git (env.git.set_remote_tracking b head)
    set_current_branch (some b)
    result ← on_git (
        env.git.rebase (sha head) m.parent_branch_revision b
          env.restack_committer_date_is_author_date)
    finish_rebase b base result
