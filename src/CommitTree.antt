-- ===== src/CommitTree.antt =====
-- apps/gti-client/src/getCommitTree.ts: the trees of commits that the client shows.
--
-- The recursion over the children has no bound in the source; the model carries a number of
-- levels, and `none` means that it was used up. The commits of the array are different objects,
-- so a Set of them is a list.
pub mod Sorted
pub mod Grown
pub mod Descent
use mathlib.Core.Option
use freephite.Base.{
  ℕ, zero, suc, Bool, true, false, not, Option, none, some, List, [], ◌∷◌, ◌++◌, ◌==◌, ◌||◌,
  if◌then◌else◌, leb, truthy, filter, length, Dict, lookup, insert,
}

-- `BranchInfo`, as far as the trees read it; `date` is its time, that of a valid date.
pub record BranchInfo : Type 0 where
  pub branch : ℕ
  pub parents : List ℕ
  pub date : ℕ
  pub part_of_trunk : Bool
  pub is_head : Bool

-- `CommitTree`
mutual
  pub data CommitTree : Type 0 where
    node : BranchInfo → Forest → CommitTree

  pub data Forest : Type 0 where
    bare : Forest
    tree : CommitTree → Forest → Forest

-- `const [parent] = commit.parents`, where it is not the empty name
abbrev pub parent_of : BranchInfo → Option ℕ
parent_of commit = elim commit.parents [ [] ↦ none | p ∷ ps ↦ truthy (some p) ]

-- The body of `commits.forEach`, for a commit with that parent.
unfoldable pub add_under : Option ℕ → BranchInfo → Dict (List BranchInfo) → Dict (List BranchInfo)
add_under none commit by_parent = by_parent
add_under (some p) commit by_parent = elim (lookup p by_parent) [
  | none ↦ insert p (commit ∷ []) by_parent
  | some set ↦ insert p (set ++ commit ∷ []) by_parent
]

unfoldable pub add_child : BranchInfo → Dict (List BranchInfo) → Dict (List BranchInfo)
add_child commit by_parent = add_under (parent_of commit) commit by_parent

unfoldable pub child_nodes_by_parent :
    List BranchInfo → Dict (List BranchInfo) → Dict (List BranchInfo)
unfolding add_child
child_nodes_by_parent [] by_parent = by_parent
child_nodes_by_parent (c ∷ cs) by_parent = child_nodes_by_parent cs (add_child c by_parent)

-- `childNodesByParent.get(branch) ?? []`
abbrev pub children_of : ℕ → Dict (List BranchInfo) → List BranchInfo
children_of branch by_parent = elim (lookup branch by_parent) [ none ↦ [] | some set ↦ set ]

-- `sort(byTimeDecreasing)`: commits of the same time stay in order.
unfoldable pub place : BranchInfo → List BranchInfo → List BranchInfo
place c [] = c ∷ []
place c (d ∷ ds) = if leb d.date c.date then c ∷ d ∷ ds else d ∷ place c ds

unfoldable pub sort_by_time_decreasing : List BranchInfo → List BranchInfo
unfolding place
sort_by_time_decreasing [] = []
sort_by_time_decreasing (c ∷ cs) = place c (sort_by_time_decreasing cs)

abbrev pub is_draft : BranchInfo → Bool
is_draft child = not child.part_of_trunk

-- `map(makeTree)`, with the call of `makeTree` passed in
unfoldable pub map_trees : (BranchInfo → Option CommitTree) → List BranchInfo → Option Forest
map_trees make [] = some bare
map_trees make (c ∷ cs) = elim (make c) [
  | none ↦ none
  | some t ↦ Option.map (tree t) (map_trees make cs)
]

unfoldable pub make_tree : ℕ → Dict (List BranchInfo) → BranchInfo → Option CommitTree
unfolding map_trees sort_by_time_decreasing
make_tree zero by_parent revision = none
make_tree (suc levels) by_parent revision = Option.map (node revision) (
    map_trees (make_tree levels by_parent)
      (filter is_draft (sort_by_time_decreasing (children_of revision.branch by_parent))))

-- `commit.partOfTrunk || commit.parents.length === 0`
abbrev pub is_initial : BranchInfo → Bool
is_initial commit = commit.part_of_trunk || (length commit.parents == 0)

unfoldable pub get_commit_tree : ℕ → List BranchInfo → Option Forest
unfolding make_tree child_nodes_by_parent
get_commit_tree levels commits =
    map_trees (make_tree levels (child_nodes_by_parent commits []))
      (sort_by_time_decreasing (filter is_initial commits))

-- `walkTreePostorder`, onto what comes after
unfoldable mutual
  pub walk_tree : CommitTree → List CommitTree → List CommitTree
  walk_tree (node info children) rest = walk_tree_postorder children (node info children ∷ rest)

  pub walk_tree_postorder : Forest → List CommitTree → List CommitTree
  walk_tree_postorder bare rest = rest
  walk_tree_postorder (tree t ts) rest = walk_tree t (walk_tree_postorder ts rest)

abbrev pub branch_of : CommitTree → ℕ
branch_of (node info children) = info.branch

-- The loop of `isDescendant`.
unfoldable pub has_branch : ℕ → List CommitTree → Bool
has_branch hash [] = false
has_branch hash (t ∷ ts) = (branch_of t == hash) || has_branch hash ts

unfoldable pub is_descendant : ℕ → CommitTree → Bool
unfolding has_branch walk_tree
is_descendant hash t = has_branch hash (walk_tree_postorder (tree t bare) [])

-- `isTreeLinear`
unfoldable mutual
  pub is_tree_linear : CommitTree → Bool
  is_tree_linear (node info bare) = leb (length info.parents) 1
  is_tree_linear (node info (tree t bare)) =
      let below = is_tree_linear t in if leb (length info.parents) 1 then below else false
  is_tree_linear (node info (tree t (tree t' ts))) = false
