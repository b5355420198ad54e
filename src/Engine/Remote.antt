-- ===== src/Engine/Remote.antt =====
-- The methods of the engine that talk to the remote.
use freephite.Base.{Bool, Option, none, some, ◌==◌, if◌then◌else◌, lookup}
use freephite.Base.Action.{type_error, Action, pure, gets, or_raise, ◌>>=◌, ◌>>◌, finally}
use freephite.Metadata.{Name, Sha, CachedMeta, bad_parent_name, is_trunk_meta}
use freephite.Git.{PullBranch, branch, sha, remote_branch, pull_ok, pull_conflicted}
use freephite.Engine.State.{
  Env, Addr, Engine, on_git, read_git, put_meta, set_current_branch, new_array, assert_branch,
  assert_trunk, get_current_branch_or_throw, valid_or_trunk_meta, valid_meta,
}
use freephite.Engine.Update.{plain, update_meta, validate_new_parent}

pub data Pulled : Type 0 where
  pull_done pull_unneeded pull_conflict : Pulled

module _ {W : Type 0} (env : Env W) where
  unfoldable pub push_branch : Name → Bool → Action (Engine W) (Unit {0})
  push_branch b force = do valid_meta b; on_git (env.git.push_branch b env.no_verify force)

  -- The new revision of trunk enters the cache. Where trunk is not there the object has this property
  -- alone, so it is neither valid nor trunk and has no children.
  unfoldable pub update_trunk : Name → Option (CachedMeta Addr) → Sha → Action (Engine W) (Unit {0})
  update_trunk t none r = do
    a ← new_array
    put_meta t
        (record { validation = bad_parent_name; branch_revision = r; children = a; pr_info = none })
  update_trunk t (some m) r = put_meta t (record m { branch_revision = r })

  unfoldable pub after_pull :
      Name → Name → Option (CachedMeta Addr) → PullBranch → Action (Engine W) Pulled
  after_pull current t old pull_conflicted = do
    on_git (env.git.switch_branch (branch current) plain)
    pure pull_conflict
  after_pull current t old pull_ok = do
    r ← read_git (env.git.get_sha_or_throw (branch t))
    update_trunk t old r
    m ← or_raise old type_error
    pure (if m.branch_revision == r then pull_unneeded else pull_done)

  -- The `try` block of `pullTrunk`.
  unfoldable pub pull_onto_trunk : Name → Name → Option (CachedMeta Addr) → Action (Engine W) Pulled
  pull_onto_trunk current t old = do
    on_git (env.git.switch_branch (branch t) plain)
    result ← on_git (env.git.pull_branch t)
    after_pull current t old result

  unfoldable pub pull_trunk : Action (Engine W) Pulled
  pull_trunk = do
    on_git env.git.prune_remote
    current ← get_current_branch_or_throw
    t ← assert_trunk
    old ← gets λ s. lookup t s.branches
    finally (pull_onto_trunk current t old) (on_git (env.git.switch_branch (branch current) plain))

  -- The `try` block of `resetTrunkToRemote`.
  unfoldable pub reset_trunk : Name → Option (CachedMeta Addr) → Action (Engine W) (Unit {0})
  reset_trunk t old = do
    on_git (env.git.switch_branch (branch t) plain)
    r ← read_git (env.git.get_sha_or_throw (remote_branch t))
    on_git (env.git.hard_reset (some r))
    update_trunk t old r

  unfoldable pub reset_trunk_to_remote : Action (Engine W) (Unit {0})
  reset_trunk_to_remote = do
    current ← get_current_branch_or_throw
    t ← assert_trunk
    old ← gets λ s. lookup t s.branches
    finally (reset_trunk t old) (on_git (env.git.switch_branch (branch current) plain))

  unfoldable pub fetch_branch : Name → Name → Action (Engine W) (Unit {0})
  fetch_branch b p = do
    parent ← valid_or_trunk_meta p
    if is_trunk_meta parent.validation
        then (do
          on_git (env.git.fetch_branch b)
          head ← read_git env.git.read_fetch_head
          base ← read_git (env.git.get_merge_base (sha head) (sha parent.branch_revision))
          on_git (env.git.write_fetch_base base))
        else do
          head ← read_git env.git.read_fetch_head
          on_git (env.git.write_fetch_base head)
          on_git (env.git.fetch_branch b)

  unfoldable pub checkout_branch_from_fetched : Name → Name → Action (Engine W) (Unit {0})
  checkout_branch_from_fetched b p = do
    validate_new_parent env b p
    assert_branch p
    head ← read_git env.git.read_fetch_head
    base ← read_git env.git.read_fetch_base
    on_git (env.git.force_checkout_new_branch b head)
    on_git (env.git.set_remote_tracking b head)
    a ← new_array
    update_meta env b (record {
      parent_branch_name = p;
      parent_branch_revision = base;
      branch_revision = head;
      children = a;
      pr_info = none;
    })
    set_current_branch (some b)
