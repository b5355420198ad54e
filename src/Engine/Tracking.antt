-- ===== src/Engine/Tracking.antt =====
-- The methods of the engine that change which branches are tracked, and under which parent.
use freephite.Base.{
  Bool, true, false, not, Option, none, some, ◌==◌, if◌then◌else◌, is_value, filter, lookup, delete,
}
use freephite.Base.Action.{ok, Action, pure, gets, reads, modify, ◌>>=◌, ◌>>◌, for_each}
use freephite.Metadata.{
  Name, Sha, Validation, valid, bad_parent_name, bad_parent_revision, invalid_parent, CachedMeta,
  ValidMeta, widen, assert_not_trunk, PrInfo, empty_pr_info,
}
use freephite.Git.{branch}
use freephite.Engine.State.{
  Env, Addr, Engine, on_git, read_git, put_meta, set_current_branch, new_array, get_meta,
  for_each_live, assert_branch, get_current_branch_or_throw, valid_or_trunk_meta, valid_meta,
  remove_child,
}
use freephite.Engine.Update.{
  plain, update_meta, validate_new_parent, set_parent, checkout_branch, delete_all_branch_data,
}
use mathlib.Core.List.{reverse}

-- `{...meta, ...prInfo}`: a field that the update lacks stays; the test says whether it has the field
-- `reviewDecision`, which may be undefined then.
abbrev override {ℓ} : {A : Type ℓ} → Option A → Option A → Option A
override old none = old
override old (some a) = some a

unfoldable pub merge_pr_info : Bool → Option PrInfo → PrInfo → PrInfo
merge_pr_info decided none new = new
merge_pr_info decided (some old) new = record {
  number = override old.number new.number;
  base = override old.base new.base;
  url = override old.url new.url;
  title = override old.title new.title;
  body = override old.body new.body;
  state = override old.state new.state;
  review_decision =
      if decided then new.review_decision else override old.review_decision new.review_decision;
  is_draft = override old.is_draft new.is_draft;
}

-- `{...meta, validationResult: 'INVALID_PARENT'}`
abbrev pub invalidated : Validation → Validation
invalidated (valid p r) = invalid_parent p (some r)
invalidated (invalid_parent p r) = invalid_parent p r
invalidated (bad_parent_revision p r) = invalid_parent p r
invalidated v = v

abbrev pub valid_fields : Name → Sha → CachedMeta Addr → ValidMeta Addr
valid_fields p r m = record {
  parent_branch_name = p;
  parent_branch_revision = r;
  branch_revision = m.branch_revision;
  children = m.children;
  pr_info = m.pr_info;
}

module _ {W : Type 0} (env : Env W) where
  unfoldable pub track_branch : Name → Name → Action (Engine W) (Unit {0})
  track_branch b p = do
    validate_new_parent env b p
    assert_branch b
    valid_or_trunk_meta p
    m ← get_meta b
    base ← read_git (env.git.get_merge_base (branch b) (branch p))
    update_meta env b (valid_fields p base m)

  -- One round of the loop in `untrackBranch`. Its last statement, `childrenToUntrack.concat(…)`,
  -- drops its result.
  unfoldable pub untrack_child : Name → Action (Engine W) (Unit {0})
  untrack_child c = do
    m ← get_meta c
    reads λ s. assert_not_trunk m
    put_meta c (record m { validation = invalidated m.validation })

  unfoldable pub untrack_branch : Name → Action (Engine W) (Unit {0})
  unfolding untrack_child
  untrack_branch b = do
    m ← valid_meta b
    on_git (env.git.delete_metadata_ref b)
    put_meta b (record (widen m) { validation = bad_parent_name })
    children ← gets λ s. s.arrays m.children
    for_each untrack_child (reverse children)

  unfoldable pub write_pr_info :
      (Option PrInfo → PrInfo) → Name → CachedMeta Addr → Validation → Action (Engine W) (Unit {0})
  write_pr_info f b m (valid p r) =
      update_meta env b (record (valid_fields p r m) { pr_info = some (f m.pr_info) })
  write_pr_info f b m v = pure tt

  -- a write of new PR data, if the branch is valid
  unfoldable pub update_pr_info : (Option PrInfo → PrInfo) → Name → Action (Engine W) (Unit {0})
  update_pr_info f b s = elim (lookup b s.branches) [
    | none ↦ (ok tt, s)
    | some m ↦ write_pr_info f b m m.validation s
  ]

  -- `upsertPrInfo`, with the field `reviewDecision` and without it
  unfoldable pub upsert_decided_pr_info : Name → PrInfo → Action (Engine W) (Unit {0})
  upsert_decided_pr_info b info = update_pr_info (λ old. merge_pr_info true old info) b

  unfoldable pub upsert_pr_info : Name → PrInfo → Action (Engine W) (Unit {0})
  upsert_pr_info b info = update_pr_info (λ old. merge_pr_info false old info) b

  unfoldable pub clear_pr_info : Name → Action (Engine W) (Unit {0})
  clear_pr_info b = update_pr_info (λ old. empty_pr_info) b

  unfoldable pub checkout_new_branch : Name → Action (Engine W) (Unit {0})
  checkout_new_branch b = do
    p ← get_current_branch_or_throw
    parent ← valid_or_trunk_meta p
    validate_new_parent env b p
    on_git (env.git.switch_branch (branch b) (record plain { new = true }))
    a ← new_array
    update_meta env b (record {
      parent_branch_name = p;
      parent_branch_revision = parent.branch_revision;
      branch_revision = parent.branch_revision;
      children = a;
      pr_info = none;
    })
    set_current_branch (some b)

  unfoldable pub rename_current_branch : Name → Action (Engine W) (Unit {0})
  rename_current_branch b = do
    current ← get_current_branch_or_throw
    if b == current then pure tt else do
      m ← valid_meta current
      on_git (env.git.move_branch b)
      update_meta env b (record m { pr_info = some empty_pr_info })
      for_each_live m.children (λ c. set_parent env c b)
      remove_child m.parent_branch_name current
      modify λ s. record s { branches = delete current s.branches }
      on_git (env.git.delete_metadata_ref current)
      set_current_branch (some b)

  -- `foldCurrentBranch(true)`: the parent goes, the current branch stays.
  fold_keeping_current :
      Name → ValidMeta Addr → Name → ValidMeta Addr → Action (Engine W) (Unit {0})
  fold_keeping_current current m p parent = do
    update_meta env current (record m {
      parent_branch_name = parent.parent_branch_name;
      parent_branch_revision = parent.parent_branch_revision;
    })
    children ← gets λ s. s.arrays parent.children
    for_each (λ c. set_parent env c current) (filter (λ c. not (c == current)) children)
    delete_all_branch_data env p

  -- `foldCurrentBranch(false)`: the current branch goes, the parent takes its revision.
  fold_keeping_parent : Name → ValidMeta Addr → Name → ValidMeta Addr → Action (Engine W) (Unit {0})
  fold_keeping_parent current m p parent = do
    on_git (env.git.force_checkout_new_branch p m.branch_revision)
    update_meta env p (record parent { branch_revision = m.branch_revision })
    for_each_live m.children (λ c. set_parent env c p)
    checkout_branch env p
    delete_all_branch_data env current

  unfoldable pub fold_current_branch : Bool → Action (Engine W) (Unit {0})
  unfolding fold_keeping_current fold_keeping_parent
  fold_current_branch keep = do
    current ← get_current_branch_or_throw
    m ← valid_meta current
    parent ← valid_meta m.parent_branch_name
    elim keep [
      | true ↦ fold_keeping_current current m m.parent_branch_name parent
      | false ↦ fold_keeping_parent current m m.parent_branch_name parent
    ]

  unfoldable pub delete_branch : Name → Action (Engine W) (Unit {0})
  delete_branch b = do
    m ← valid_meta b
    current ← gets λ s. s.current_branch
    if is_value current b then checkout_branch env m.parent_branch_name else pure tt
    for_each_live m.children (λ c. set_parent env c m.parent_branch_name)
    delete_all_branch_data env b
