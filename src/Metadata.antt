-- ===== src/Metadata.antt =====
-- The metadata of a branch: apps/cli/src/lib/engine/cached_meta.ts and the types of
-- apps/cli/src/lib/engine/metadata_ref.ts. Branch names, revisions and other strings are only
-- compared, so they are numbers, the empty string 0.
use freephite.Base.{ℕ, Bool, ◌||◌, true, false, Option, none, some}
use freephite.Base.Action.{untracked_branch, bad_trunk_operation, Result, ok, err}

abbrev pub Name : Type 0
Name = ℕ

abbrev pub Sha : Type 0
Sha = ℕ

pub data PrState : Type 0 where
  open_pr closed_pr merged_pr : PrState

pub data ReviewDecision : Type 0 where
  approved review_required changes_requested : ReviewDecision

-- `TBranchPRInfo`; every field may be missing.
pub record PrInfo : Type 0 where
  pub number : Option ℕ
  pub base : Option Name
  pub url : Option ℕ
  pub title : Option ℕ
  pub body : Option ℕ
  pub state : Option PrState
  pub review_decision : Option ReviewDecision
  pub is_draft : Option Bool

abbrev pub empty_pr_info : PrInfo
empty_pr_info = record {
  number = none;
  base = none;
  url = none;
  title = none;
  body = none;
  state = none;
  review_decision = none;
  is_draft = none;
}

-- `TMeta`: what is stored under refs/branch-metadata/
pub record Meta : Type 0 where
  pub parent_branch_name : Option Name
  pub parent_branch_revision : Option Sha
  pub pr_info : Option PrInfo

abbrev pub empty_meta : Meta
empty_meta = record { parent_branch_name = none; parent_branch_revision = none; pr_info = none }

-- The tagged union of `cachedMetaSchema`. A branch with a bad parent revision may still carry the
-- revision that it had before, which a later revalidation reads.
pub data Validation : Type 0 where
  valid : Name → Sha → Validation
  invalid_parent : Name → Option Sha → Validation
  bad_parent_revision : Name → Option Sha → Validation
  bad_parent_name : Validation
  trunk : Validation

-- `TCachedMeta`; `C` is how the array of children is held: a list, or the address of one.
pub record CachedMeta (C : Type 0) : Type 0 where
  pub validation : Validation
  pub branch_revision : Sha
  pub children : C
  pub pr_info : Option PrInfo

-- `TValidCachedMetaExceptTrunk`: the narrowed type, with the fields that it guarantees.
pub record ValidMeta (C : Type 0) : Type 0 where
  pub parent_branch_name : Name
  pub parent_branch_revision : Sha
  pub branch_revision : Sha
  pub children : C
  pub pr_info : Option PrInfo

abbrev pub widen : {C : Type 0} → ValidMeta C → CachedMeta C
widen m = record {
  validation = valid m.parent_branch_name m.parent_branch_revision;
  branch_revision = m.branch_revision;
  children = m.children;
  pr_info = m.pr_info;
}

abbrev pub is_valid : Validation → Bool
is_valid (valid p r) = true
is_valid v = false

abbrev pub is_trunk_meta : Validation → Bool
is_trunk_meta trunk = true
is_trunk_meta v = false

-- The parent that the metadata of a branch names.
abbrev pub parent_of : Validation → Option Name
parent_of (valid p r) = some p
parent_of (invalid_parent p r) = some p
parent_of (bad_parent_revision p r) = some p
parent_of bad_parent_name = none
parent_of trunk = none

abbrev narrow : {C : Type 0} → Name → CachedMeta C → Validation → Result (ValidMeta C)
narrow b m (valid p r) = ok (record {
  parent_branch_name = p;
  parent_branch_revision = r;
  branch_revision = m.branch_revision;
  children = m.children;
  pr_info = m.pr_info;
})
narrow b m trunk = err bad_trunk_operation
narrow b m v = err (untracked_branch b)

-- `assertCachedMetaIsValidAndNotTrunk`
abbrev pub assert_valid_and_not_trunk : {C : Type 0} → Name → CachedMeta C → Result (ValidMeta C)
assert_valid_and_not_trunk b m = narrow b m m.validation

-- `assertCachedMetaIsValidOrTrunk`
abbrev pub assert_valid_or_trunk : {C : Type 0} → Name → CachedMeta C → Result (CachedMeta C)
assert_valid_or_trunk b m = elim (is_valid m.validation || is_trunk_meta m.validation) [
  | true ↦ ok m
  | false ↦ err (untracked_branch b)
]

-- `assertCachedMetaIsNotTrunk`
abbrev pub assert_not_trunk : {C : Type 0} → CachedMeta C → Result (Unit {0})
assert_not_trunk m = elim (is_trunk_meta m.validation) [
  | true ↦ err bad_trunk_operation
  | false ↦ ok tt
]
