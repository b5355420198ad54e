-- ===== src/Parse.antt =====
-- apps/cli/src/lib/engine/parse_branches_and_meta.ts: from the branches of the repository and the
-- stored metadata to the cached metadata of every branch. The fuel of the loop is the program's
-- own counter, `cycleDetector`.
pub mod Revision
pub mod Whole
pub mod Fresh
pub mod Rounds
pub mod Terminates
use freephite.Base.{
  ℕ, zero, suc, ◌+◌, ◌*◌, ◌/◌, Bool, ◌||◌, not, Option, none, some, List, [], ◌∷◌, ◌++◌, map, ◌==◌,
  if◌then◌else◌, truthy, is_value, length, includes, Dict, lookup, insert,
}
use freephite.Base.Action.{preconditions_failed, Action, pure, raise, reads, ◌>>=◌, ◌>>◌}
use freephite.Metadata.{
  Name, Sha, PrInfo, Meta, empty_meta, Validation, valid, invalid_parent, bad_parent_revision,
  bad_parent_name, trunk, CachedMeta, is_valid, is_trunk_meta,
}
use freephite.Git.{Git, branch, sha}

-- `TBranchToParse`
pub record BranchToParse : Type 0 where
  pub branch_name : Name
  pub branch_revision : Sha
  pub meta : Meta

-- The result of `validateOrFixParentBranchRevision`.
pub data Verdict : Type 0 where
  is_valid_at : Sha → Verdict
  is_bad : Verdict

module _ {W : Type 0} (git : Git W) where
  -- `getMergeBase(branchName, revision) === revision`
  pub in_history : Name → Sha → Action W Bool
  in_history b r = do base ← reads (git.get_merge_base (branch b) (sha r)); pure (base == r)

  pub write_parent : Name → Name → Option PrInfo → Sha → Action W Verdict
  write_parent b p info r = do
    git.write_metadata_ref b
        (record { parent_branch_name = some p; parent_branch_revision = some r; pr_info = info })
    pure (is_valid_at r)

  -- The parent is ahead of where the metadata has it, and is still in the branch's history.
  advance_parent : Name → Name → Option PrInfo → Sha → Sha → Action W Verdict
  unfolding in_history write_parent
  advance_parent b p info r current = if r == current then pure (is_valid_at r) else do
    ahead ← in_history b current
    if ahead then write_parent b p info current else pure (is_valid_at r)

  fix_parent : Name → Name → Option PrInfo → Sha → Action W Verdict
  unfolding in_history write_parent
  fix_parent b p info current = do
    found ← in_history b current
    if found then write_parent b p info current else pure is_bad

  unfoldable pub validate_or_fix_parent_branch_revision :
      Name → Name → Option Sha → Option PrInfo → Sha → Action W Verdict
  unfolding in_history write_parent advance_parent fix_parent
  validate_or_fix_parent_branch_revision b p revision info current = elim (truthy revision) [
    | none ↦ fix_parent b p info current
    | some r ↦ do
      found ← in_history b r
      if found then advance_parent b p info r current else fix_parent b p info current
  ]

  -- The names with a live branch; metadata of a branch that is gone is deleted.
  keep_live : Dict Sha → List Name → Action W (List Name)
  keep_live revisions [] = pure []
  keep_live revisions (b ∷ names) = elim (truthy (lookup b revisions)) [
    | some r ↦ do rest ← keep_live revisions names; pure (b ∷ rest)
    | none ↦ do git.delete_metadata_ref b; keep_live revisions names
  ]

  read_branch : List Name → Name × Sha → Action W BranchToParse
  read_branch with_meta (b, r) w =
      let m = if includes b with_meta then git.read_metadata_ref b w else empty_meta in
      pure (record { branch_name = b; branch_revision = r; meta = m }) w

  read_branches : List Name → List (Name × Sha) → Action W (List BranchToParse)
  unfolding read_branch
  read_branches with_meta [] = pure []
  read_branches with_meta (e ∷ es) = do
    current ← read_branch with_meta e
    rest ← read_branches with_meta es
    pure (current ∷ rest)

  unfoldable pub get_all_branches_and_meta : Dict Sha → List Name → Action W (List BranchToParse)
  unfolding keep_live read_branches
  get_all_branches_and_meta revisions metadata_refs = do
    with_meta ← keep_live revisions metadata_refs
    read_branches with_meta revisions

-- `!parentBranchName || parentBranchName === branchName || !allBranchNames.has(parentBranchName)`,
-- with the parent's name where none of these holds.
unfoldable pub usable_parent : List Name → Name → Option Name → Option Name
usable_parent all b parent = elim (truthy parent) [
  | none ↦ none
  | some p ↦ if p == b || not (includes p all) then none else some p
]

abbrev pub parsed_meta : BranchToParse → Validation → CachedMeta (List Name)
parsed_meta e v = record {
  validation = v;
  branch_revision = e.branch_revision;
  children = [];
  pr_info = e.meta.pr_info;
}

-- `parsedBranches[parent].children.push(branchName)`
abbrev pub push_child : Name → CachedMeta (List Name) → CachedMeta (List Name)
push_child b m = record m { children = m.children ++ b ∷ [] }

abbrev pub validation_of : Name → Verdict → Validation
validation_of p (is_valid_at r) = valid p r
validation_of p is_bad = bad_parent_revision p none

abbrev pub Parsed : Type 0
Parsed = Dict (CachedMeta (List Name))

module _ {W : Type 0} (git : Git W) where
  -- The part of the loop's body behind the check that the parent has been parsed.
  pub validation_under : BranchToParse → Name → CachedMeta (List Name) → Action W Validation
  validation_under e p parent =
      if is_valid parent.validation || is_trunk_meta parent.validation
      then (do
        verdict ←
            validate_or_fix_parent_branch_revision git e.branch_name p e.meta.parent_branch_revision
              e.meta.pr_info parent.branch_revision
        pure (validation_of p verdict))
      else pure (invalid_parent p e.meta.parent_branch_revision)

  pub parse_under : BranchToParse → Name → CachedMeta (List Name) → Parsed → Action W Parsed
  unfolding validation_under
  parse_under e p parent parsed = do
    v ← validation_under e p parent
    pure
        (insert e.branch_name (parsed_meta e v) (insert p (push_child e.branch_name parent) parsed))

  -- One round of the loop: the entry is parsed (`some`), or comes back later (`none`).
  pub parse_step : Option Name → List Name → BranchToParse → Parsed → Action W (Option Parsed)
  unfolding usable_parent parse_under
  parse_step trunk_name all e parsed =
      if is_value trunk_name e.branch_name
      then pure
          (some (insert e.branch_name (record (parsed_meta e trunk) { pr_info = none }) parsed))
      else elim (usable_parent all e.branch_name e.meta.parent_branch_name) [
        | none ↦ pure (some (insert e.branch_name (parsed_meta e bad_parent_name) parsed))
        | some p ↦ elim (lookup p parsed) [
          | none ↦ pure none
          | some parent ↦ do parsed' ← parse_under e p parent parsed; pure (some parsed')
        ]
      ]

  pub parse_loop : Option Name → List Name → ℕ → List BranchToParse → Parsed → Action W Parsed
  unfolding parse_step
  parse_loop trunk_name all counter [] parsed = pure parsed
  parse_loop trunk_name all zero (e ∷ queue) parsed = raise preconditions_failed
  parse_loop trunk_name all (suc counter) (e ∷ queue) parsed = do
    step ← parse_step trunk_name all e parsed
    elim step [
      | some parsed' ↦ parse_loop trunk_name all counter queue parsed'
      | none ↦ parse_loop trunk_name all counter (queue ++ e ∷ []) parsed
    ]

  unfoldable pub parse_queue : Option Name → List BranchToParse → Action W Parsed
  unfolding parse_loop
  parse_queue trunk_name queue =
      parse_loop trunk_name (map (λ e. e.branch_name) queue) (length queue * (length queue + 1) / 2)
        queue []

  unfoldable pub parse_branches_and_meta : Option Name → Dict Sha → List Name → Action W Parsed
  unfolding get_all_branches_and_meta parse_queue
  parse_branches_and_meta trunk_name revisions metadata_refs = do
    queue ← get_all_branches_and_meta git revisions metadata_refs
    parse_queue trunk_name queue
