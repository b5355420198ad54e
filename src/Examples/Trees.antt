-- ===== src/Examples/Trees.antt =====
-- A trunk of two commits with drafts on the first, for apps/gti-client/src/getCommitTree.ts and
-- apps/gti-client/src/previews.ts.
use freephite.Base.{
  ℕ, ◌-◌, ◌<◌, Bool, true, false, none, some, List, [], ◌∷◌, ◌≡◌, refl, arith, filter, lookup,
  insert, ◌==◌, if◌then◌else◌,
}
use freephite.ServerApiState.{OperationList, new_operation}
use freephite.CommitTree.{
  BranchInfo, node, Forest, bare, tree, get_commit_tree, is_descendant, add_under,
}
use freephite.CommitTree.Sorted.{All, IsArranged}
use freephite.CommitTree.Grown.{
  Descends, starts, ForestOf, TreeOf, grown, trees, no_trees, get_commit_tree-ForestOf,
}
use freephite.CommitTree.Descent.{Above, is_descendant_iff}
use freephite.ServerApiState.{default_operation_list}
use freephite.Previews.Trees.{
  Applier, preview_node, preview_tree, no_preview, hidden, shown, goto_destination,
  tree_with_previews,
}
use freephite.Previews.Completed.{
  Fetched, any_resolved, to_mark_resolved, mark_operations_completed,
}
use freephite.Previews.Completed.Ends.{mark_operations_completed_ends}

abbrev commit : ℕ → List ℕ → ℕ → Bool → BranchInfo
commit branch parents date trunk = record {
  branch = branch;
  parents = parents;
  date = date;
  part_of_trunk = trunk;
  is_head = false;
}

-- Branch 3 stands on 2, and 2 and 4 on 1.
abbrev commits : List BranchInfo
commits =
    commit 1 [] 10 true
    ∷ commit 2 (1 ∷ []) 20 false
    ∷ commit 3 (2 ∷ []) 30 false
    ∷ commit 4 (1 ∷ []) 40 false
    ∷ []

-- The larger the number of a branch, the lower it stands.
abbrev height : ℕ → ℕ
height branch = 9 - branch

commits_descend : All (Descends height) commits
commits_descend = ground arith

commits_below : All (λ c. height c.branch < 9) commits
commits_below = omega arith

abbrev forest : Forest
forest =
    tree
      (node (commit 1 [] 10 true) (
        tree (node (commit 4 (1 ∷ []) 40 false) bare) (
          tree
            (node (commit 2 (1 ∷ []) 20 false) (tree (node (commit 3 (2 ∷ []) 30 false) bare) bare))
            bare)))
      bare

commits_tree : get_commit_tree 9 commits ≡ some forest
unfolding get_commit_tree lookup insert add_under
commits_tree = refl

get_commit_tree-ForestOf_example :
    (made : Forest) × (cs : List BranchInfo) × (get_commit_tree 9 commits ≡ some made)
    × IsArranged (filter starts commits) cs
    × ForestOf commits cs made
get_commit_tree-ForestOf_example =
    get_commit_tree-ForestOf height 9 commits commits_descend commits_below

two_tree :
    TreeOf commits
      (commit 2 (1 ∷ []) 20 false)
      (node (commit 2 (1 ∷ []) 20 false) (tree (node (commit 3 (2 ∷ []) 30 false) bare) bare))
two_tree =
    grown _ (commit 3 (2 ∷ []) 30 false ∷ []) _
      (record { latest_first = (tt, tt); same_at = λ date. refl })
      (trees _ _ _ _
        (grown (commit 3 (2 ∷ []) 30 false) [] bare
          (record { latest_first = tt; same_at = λ date. refl }) no_trees)
        no_trees)

is_descendant_iff_example :
    (is_descendant 3
          (node (commit 2 (1 ∷ []) 20 false) (tree (node (commit 3 (2 ∷ []) 30 false) bare) bare))
        ≡ true
      → Above commits 3 (commit 2 (1 ∷ []) 20 false))
    × (Above commits 3 (commit 2 (1 ∷ []) 20 false)
        → is_descendant 3
            (node (commit 2 (1 ∷ []) 20 false) (tree (node (commit 3 (2 ∷ []) 30 false) bare) bare))
          ≡ true)
is_descendant_iff_example = is_descendant_iff commits 3 _ _ two_tree

-- An operation that has failed, and one that runs.
abbrev operations : OperationList
operations = record {
  current_operation = some (new_operation (record { id = 2; args = [] }) 5);
  operation_history =
      record (new_operation (record { id = 1; args = [] }) 3) {
        exit_code = some 1;
        end_time = some 4;
      }
      ∷ [];
}

abbrev seen : Fetched
seen = record {
  changes_applier = λ op. some true;
  conflicts_applier = λ op. none;
  commits_applier = λ op. some false;
  changes_start = 2;
  conflicts_start = 2;
  commits_start = 2;
}

mark_operations_completed_ends_example :
    (any_resolved (to_mark_resolved seen (mark_operations_completed seen operations)) ≡ false)
    × (mark_operations_completed seen (mark_operations_completed seen operations)
        ≡ mark_operations_completed seen operations)
mark_operations_completed_ends_example =
    mark_operations_completed_ends seen operations (λ none_runs. cc)

-- An operation that hides branch 3 and marks branch 1 as where the user will go.
abbrev hide_three : Applier
hide_three (preview_node info preview children) inherited =
    if info.branch == 3
    then hidden
    else shown info children (if info.branch == 1 then some goto_destination else inherited) none

previews_hide :
    tree_with_previews 3
      (λ op. some (λ context. some hide_three))
      (λ op. none)
      default_operation_list
      (record { id = 1; args = [] } ∷ [])
      none
      (record {
        trees =
            preview_tree
              (preview_node (commit 1 [] 10 true) none (
                preview_tree
                  (preview_node (commit 3 (1 ∷ []) 30 false) none no_preview)
                  no_preview))
              no_preview;
        head_commit = none;
        tree_map = [];
      })
    ≡ some (record {
      trees =
          preview_tree
            (preview_node (commit 1 [] 10 true) (some goto_destination) no_preview)
            no_preview;
      head_commit = none;
      tree_map =
          (
            1,
            preview_node (commit 1 [] 10 true) (some goto_destination) (
                preview_tree
                  (preview_node (commit 3 (1 ∷ []) 30 false) none no_preview)
                  no_preview),
          )
          ∷ [];
    })
unfolding tree_with_previews insert
previews_hide = refl
