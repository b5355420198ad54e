-- ===== src/Engine/Update.antt =====
-- The writes of the engine: `updateMeta`, through which all go, and what is built from it.
pub mod Parents
pub mod Succeeds
use freephite.Base.{
  Bool, true, false, ℕ, zero, suc, false, Option, none, some, [], ◌∷◌, ◌++◌, ◌==◌, if◌then◌else◌,
  truthy, is_value, includes, lookup, delete,
}
use freephite.Base.Action.{
  bad_trunk_operation, preconditions_failed, stack_overflow, ok, Action, pure, raise, gets, modify,
  raise_if, ◌>>=◌, ◌>>◌,
}
use freephite.Metadata.{
  CachedMeta, Name, Sha, Meta, Validation, valid, bad_parent_name, bad_parent_revision,
  invalid_parent, ValidMeta, widen, is_valid, is_trunk_meta, parent_of,
}
use freephite.Git.{branch, SwitchOpts}
use freephite.Parse.{Verdict, is_valid_at, is_bad, validate_or_fix_parent_branch_revision}
use freephite.Engine.State.{
  Env, Addr, Engine, on_git, read_git, put_meta, set_current_branch, set_array, get_meta,
  children_of, for_each_live, branch_exists, assert_branch, valid_or_trunk_meta, valid_meta,
  get_recursive_children, remove_child,
}

abbrev pub plain : SwitchOpts
plain = record { new = false; detach = false; force = false }

abbrev pub meta_of : ValidMeta Addr → Meta
meta_of m = record {
  parent_branch_name = some m.parent_branch_name;
  parent_branch_revision = some m.parent_branch_revision;
  pr_info = m.pr_info;
}

-- `{...childCachedMeta, ...result}` for a child whose parent was invalid
abbrev pub revalidated : Name → Option Sha → Verdict → Validation
revalidated p r (is_valid_at r') = valid p r'
revalidated p r is_bad = bad_parent_revision p r

module _ {W : Type 0} where
  -- The branch leaves the children of its old parent, unless that stays or is gone.
  unfoldable pub leave_old_parent : Name → Option Name → Name → Action (Engine W) (Unit {0})
  leave_old_parent b old new = elim (truthy old) [
    | none ↦ pure tt
    | some o ↦
        if o == new
        then pure tt
        else do there ← gets (branch_exists o); if there then remove_child o b else pure tt
  ]

  unfoldable pub join_new_parent : Name → Name → Action (Engine W) (Unit {0})
  join_new_parent b new = do
    parent ← get_meta new
    children ← gets (children_of parent)
    if includes b children then pure tt else set_array parent.children (children ++ b ∷ [])

module _ {W : Type 0} (env : Env W) where
  -- The body of the loop in `revalidateChildren` behind its reads, given the recursive call.
  unfoldable pub revalidate_as :
      (Addr → Action (Engine W) (Unit {0}))
      → Name
      → CachedMeta Addr
      → Validation
      → Action (Engine W) (Unit {0})
  revalidate_as revalidate c m (invalid_parent p r) = do
    parent ← get_meta p
    verdict ←
        on_git
          (validate_or_fix_parent_branch_revision env.git c p r m.pr_info parent.branch_revision)
    put_meta c (record m { validation = revalidated p r verdict })
    revalidate m.children
  revalidate_as revalidate c m _ = pure tt

  unfoldable pub revalidate_child :
      (Addr → Action (Engine W) (Unit {0})) → Name → Action (Engine W) (Unit {0})
  unfolding revalidate_as
  revalidate_child revalidate c = do
    assert_branch c
    m ← get_meta c
    revalidate_as revalidate c m m.validation

  -- `revalidateChildren`; the fuel is the stack that is left.
  unfoldable pub revalidate_children : ℕ → Addr → Action (Engine W) (Unit {0})
  unfolding revalidate_child
  revalidate_children zero a = raise stack_overflow
  revalidate_children (suc depth) a = for_each_live a (revalidate_child (revalidate_children depth))

  -- The validation of `cache.branches[branchName]`, or of the default for a new branch.
  unfoldable pub old_validation : Name → Action (Engine W) Validation
  old_validation b s = elim (lookup b s.branches) [
    | some m ↦ (ok m.validation, s)
    | none ↦ (do read_git (env.git.get_sha_or_throw (branch b)); pure bad_parent_name) s
  ]

  -- The end of `updateMeta`: the write to disk, and the children that can be revalidated.
  unfoldable pub store_meta : Name → ValidMeta Addr → Validation → Action (Engine W) (Unit {0})
  store_meta b new old = do
    on_git (env.git.write_metadata_ref b (meta_of new))
    if is_valid old then pure tt else revalidate_children env.stack_size new.children

  -- `updateMeta`
  unfoldable pub update_meta : Name → ValidMeta Addr → Action (Engine W) (Unit {0})
  update_meta b new = do
    old ← old_validation b
    raise_if (is_trunk_meta old) bad_trunk_operation
    put_meta b (widen new)
    assert_branch new.parent_branch_name
    leave_old_parent b (parent_of old) new.parent_branch_name
    join_new_parent b new.parent_branch_name
    store_meta b new old

  -- `getRecursiveChildren(branchName).includes(parentBranchName)` throws.
  unfoldable pub refuse_descendant : Name → Name → Bool → Action (Engine W) (Unit {0})
  refuse_descendant b p true = do
    below ← get_recursive_children env.stack_size b
    raise_if (includes p below) preconditions_failed
  refuse_descendant b p false = pure tt

  -- `validateNewParent`
  unfoldable pub validate_new_parent : Name → Name → Action (Engine W) (Unit {0})
  validate_new_parent b p =
      if b == p
      then raise preconditions_failed
      else do there ← gets (branch_exists b); refuse_descendant b p there

  -- `setParent`
  unfoldable pub set_parent : Name → Name → Action (Engine W) (Unit {0})
  set_parent b p = do
    validate_new_parent b p
    m ← valid_meta b
    if m.parent_branch_name == p
        then pure tt
        else do valid_or_trunk_meta p; update_meta b (record m { parent_branch_name = p })

  -- `checkoutBranch`
  unfoldable pub checkout_branch : Name → Action (Engine W) (Unit {0})
  checkout_branch b = do
    current ← gets λ s. s.current_branch
    if is_value current b then pure tt else do
      assert_branch b
      on_git (env.git.switch_branch (branch b) plain)
      set_current_branch (some b)

  -- `deleteAllBranchData`
  unfoldable pub delete_all_branch_data : Name → Action (Engine W) (Unit {0})
  delete_all_branch_data b = do
    m ← valid_meta b
    remove_child m.parent_branch_name b
    modify λ s. record s { branches = delete b s.branches }
    on_git (env.git.delete_branch b)
    on_git (env.git.delete_metadata_ref b)

  -- `handleSuccessfulRebase`: after the update it switches back to the current branch.
  unfoldable pub switch_back : Option Name → Action (Engine W) (Unit {0})
  switch_back none = pure tt
  switch_back (some c) = do
    there ← gets (branch_exists c)
    if there then on_git (env.git.switch_branch (branch c) plain) else pure tt

  unfoldable pub handle_successful_rebase : Name → Sha → Action (Engine W) (Unit {0})
  handle_successful_rebase b base = do
    m ← valid_meta b
    r ← read_git (env.git.get_sha_or_throw (branch b))
    update_meta b (record m { branch_revision = r; parent_branch_revision = base })
    current ← gets λ s. truthy s.current_branch
    switch_back current
