-- ===== src/Engine/Commits.antt =====
-- The methods of the engine that make commits on the current branch, split it, or take it away.
use freephite.Base.{
  ℕ, Bool, true, false, not, Option, none, some, List, [], ◌∷◌, ◌==◌, if◌then◌else◌, length,
  includes,
}
use freephite.Base.Action.{preconditions_failed, Action, pure, raise_if, ◌>>=◌, ◌>>◌, on_error}
use freephite.Metadata.{Name, Sha, ValidMeta, widen, PrInfo}
use freephite.Git.{branch, sha, head_ago, CommitOpts}
use freephite.Engine.State.{
  Env, Addr, Engine, on_git, read_git, put_meta, set_current_branch, new_array, for_each_live,
  get_current_branch_or_throw, valid_meta,
}
use freephite.Engine.Update.{plain, update_meta, set_parent, delete_all_branch_data}
use mathlib.Core.List.{reverse, zip, head?}

module _ {W : Type 0} (env : Env W) where
  -- `cache.branches[branchName] = {...cachedMeta, branchRevision: git.getShaOrThrow(branchName)}`
  unfoldable pub refresh_revision : Name → ValidMeta Addr → Action (Engine W) (Unit {0})
  refresh_revision b m = do
    r ← read_git (env.git.get_sha_or_throw (branch b))
    put_meta b (record (widen m) { branch_revision = r })

  unfoldable pub commit : CommitOpts → Action (Engine W) (Unit {0})
  commit opts = do
    b ← get_current_branch_or_throw
    m ← valid_meta b
    on_git (env.git.commit (record opts { no_verify = env.no_verify }))
    refresh_revision b m

  unfoldable pub squash_current_branch : Option ℕ → Bool → Action (Engine W) (Unit {0})
  squash_current_branch message no_edit = do
    b ← get_current_branch_or_throw
    m ← valid_meta b
    commits ← read_git (env.git.get_commit_range (some m.parent_branch_revision) m.branch_revision)
    on_git (env.git.soft_reset (head? (reverse commits)))
    on_error
        (on_git (
          env.git.commit (record {
            amend = true;
            message = message;
            no_edit = no_edit;
            edit = false;
            patch = false;
            no_verify = env.no_verify;
          })))
        (on_git (env.git.soft_reset (some m.branch_revision)))
    refresh_revision b m

  unfoldable pub detach : Action (Engine W) (Unit {0})
  detach = do
    b ← get_current_branch_or_throw
    m ← valid_meta b
    on_git (env.git.switch_branch (sha m.branch_revision) (record plain { detach = true }))

  unfoldable pub unbranch : Action (Engine W) (Unit {0})
  unbranch = do
    b ← get_current_branch_or_throw
    m ← valid_meta b
    on_git (env.git.switch_branch (sha m.branch_revision) (record plain { detach = true }))
    delete_all_branch_data env b
    on_git (env.git.mixed_reset (branch m.parent_branch_name))
    on_git (env.git.switch_branch (branch m.parent_branch_name) plain)

  unfoldable pub detach_and_reset_branch_changes : Action (Engine W) (Unit {0})
  detach_and_reset_branch_changes = do
    b ← get_current_branch_or_throw
    m ← valid_meta b
    on_git (env.git.switch_branch (sha m.branch_revision) (record plain { detach = true }))
    on_git (env.git.tracked_reset m.parent_branch_revision)

  unfoldable pub force_checkout_branch : Name → Action (Engine W) (Unit {0})
  force_checkout_branch b =
      on_git (env.git.switch_branch (branch b) (record plain { force = true }))

  -- The loop over the new branches in `applySplitToCommits`; it returns `lastBranch`.
  pub create_split_branches :
      Name → Option PrInfo → List (Name × ℕ) → Name × Sha → Action (Engine W) (Name × Sha)
  create_split_branches original info [] last = pure last
  create_split_branches original info ((b, point) ∷ rest) (last_name, last_revision) = do
    r ← read_git (env.git.get_sha_or_throw (head_ago point))
    on_git (env.git.force_create_branch b r)
    a ← new_array
    update_meta env b (record {
      parent_branch_name = last_name;
      parent_branch_revision = last_revision;
      branch_revision = r;
      children = a;
      pr_info = if b == original then info else none;
    })
    create_split_branches original info rest (b, r)

  unfoldable pub apply_split_to_commits : Name → List Name → List ℕ → Action (Engine W) (Unit {0})
  unfolding create_split_branches
  apply_split_to_commits b names points = do
    raise_if (not (length names == length points)) preconditions_failed
    m ← valid_meta b
    last ←
        create_split_branches b m.pr_info (zip names (reverse points))
          (m.parent_branch_name, m.parent_branch_revision)
    if last.0 == b then pure tt else for_each_live m.children (λ c. set_parent env c last.0)
    if includes b names then pure tt else delete_all_branch_data env b
    set_current_branch (some last.0)
    on_git (env.git.switch_branch (branch last.0) plain)
