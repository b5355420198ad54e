-- ===== src/Engine/Queries.antt =====
-- The queries of the engine, and the lists of branches that a scope stands for
-- (apps/cli/src/lib/engine/scope_spec.ts).
pub mod Stacks
pub mod Descendants
pub mod Recursion
use freephite.Base.{
  Bool, true, false, Option, none, some, List, [], ◌∷◌, ◌++◌, ◌==◌, if◌then◌else◌, is_value, lookup,
}
use freephite.Base.Action.{Action, pure, gets, ◌>>=◌, ◌>>◌}
use freephite.Metadata.{Name, Sha, valid, is_trunk_meta, PrInfo}
use freephite.Git.{Rev, branch, sha, before}
use freephite.Engine.State.{
  Env, Engine, read_git, get_meta, assert_branch, assert_trunk, get_current_branch_or_throw,
  valid_or_trunk_meta, valid_meta, get_recursive_children, get_recursive_parents,
}

-- `TScopeSpec`
pub record ScopeSpec : Type 0 where
  pub recursive_parents : Bool
  pub current_branch : Bool
  pub recursive_children : Bool

-- `SCOPE`
abbrev pub scope_branch : ScopeSpec
scope_branch = record {
  recursive_parents = false;
  current_branch = true;
  recursive_children = false;
}

abbrev pub scope_downstack : ScopeSpec
scope_downstack = record {
  recursive_parents = true;
  current_branch = true;
  recursive_children = false;
}

abbrev pub scope_stack : ScopeSpec
scope_stack = record { recursive_parents = true; current_branch = true; recursive_children = true }

abbrev pub scope_upstack : ScopeSpec
scope_upstack = record {
  recursive_parents = false;
  current_branch = true;
  recursive_children = true;
}

abbrev pub scope_upstack_exclusive : ScopeSpec
scope_upstack_exclusive = record {
  recursive_parents = false;
  current_branch = false;
  recursive_children = true;
}

module _ {W : Type 0} where
  unfoldable pub current_branch_precondition : Action (Engine W) Name
  current_branch_precondition = do b ← get_current_branch_or_throw; valid_or_trunk_meta b; pure b

  unfoldable pub get_parent_precondition : Name → Action (Engine W) Name
  get_parent_precondition b = do m ← valid_meta b; pure m.parent_branch_name

  -- the revision before a branch: `getParentOrPrev`, and the base of its diffs
  unfoldable pub get_parent_or_prev : Name → Action (Engine W) Rev
  get_parent_or_prev b = do
    m ← valid_or_trunk_meta b
    elim m.validation [ valid p r ↦ pure (sha r) | _ ↦ pure (before b) ]

  unfoldable pub get_revision : Name → Action (Engine W) Sha
  get_revision b = do assert_branch b; m ← get_meta b; pure m.branch_revision

  unfoldable pub get_base_revision : Name → Action (Engine W) Sha
  get_base_revision b = do m ← valid_meta b; pure m.parent_branch_revision

  unfoldable pub get_pr_info : Name → Engine W → Option PrInfo
  get_pr_info b s = elim (lookup b s.branches) [
    | none ↦ none
    | some m ↦ if is_trunk_meta m.validation then none else m.pr_info
  ]

module _ {W : Type 0} (env : Env W) where
  abbrev pub when_list : Bool → Action (Engine W) (List Name) → Action (Engine W) (List Name)
  when_list true m = m
  when_list false m = pure []

  unfoldable pub get_relative_stack : Name → ScopeSpec → Action (Engine W) (List Name)
  get_relative_stack b scope = do
    valid_or_trunk_meta b
    above ← when_list scope.recursive_parents (get_recursive_parents env.stack_size b)
    below ← when_list scope.recursive_children (get_recursive_children env.stack_size b)
    pure (above ++ (if scope.current_branch then b ∷ [] else []) ++ below)

  unfoldable pub is_descendant_of : Name → Name → Action (Engine W) Bool
  is_descendant_of b p = do
    assert_branch b
    assert_branch p
    if b == p then pure false else do
      base ← read_git (env.git.get_merge_base (branch b) (branch p))
      parent ← get_meta p
      pure (base == parent.branch_revision)

  -- `getAllCommits` at the format 'SHA'
  unfoldable pub get_all_commits : Name → Action (Engine W) (List Sha)
  get_all_commits b = do
    m ← valid_or_trunk_meta b
    elim m.validation [
      | valid p r ↦ read_git (env.git.get_commit_range (some r) m.branch_revision)
      | _ ↦ read_git (env.git.get_commit_range none m.branch_revision)
    ]

  unfoldable pub is_merged_into_trunk : Name → Action (Engine W) Bool
  is_merged_into_trunk b = do assert_branch b; t ← assert_trunk; read_git (env.git.is_merged b t)

  unfoldable pub is_branch_empty : Name → Action (Engine W) Bool
  is_branch_empty b = do
    assert_branch b
    m ← valid_meta b
    read_git (env.git.is_diff_empty b m.parent_branch_revision)

  unfoldable pub branch_matches_remote : Name → Action (Engine W) Bool
  branch_matches_remote b = do
    m ← valid_or_trunk_meta b
    remote ← gets λ s. env.git.get_remote_sha b s.repository
    pure (is_value remote m.branch_revision)

  unfoldable pub branch_matches_fetched : Name → Action (Engine W) Bool
  branch_matches_fetched b = do
    assert_branch b
    m ← get_meta b
    head ← read_git env.git.read_fetch_head
    pure (m.branch_revision == head)
