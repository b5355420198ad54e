-- ===== src/Previews/Trees.antt =====
-- apps/gti-client/src/previews.ts, treeWithPreviews: the trees of commits as the operations that
-- ran, run, wait and are previewed will leave them.
--
-- An applier is called on each tree in turn, and what it gives are the children that are walked next,
-- whichever these are: the walk carries a number of levels, and `none` means that it was used up.
use mathlib.Core.Option
use freephite.Base.{
  ℕ, zero, suc, Option, none, some, List, [], ◌∷◌, ◌++◌, if◌then◌else◌, Dict, insert,
}
use freephite.CommitTree.{BranchInfo}
use freephite.ServerApiState.{Operation, OperationList}
use freephite.Previews.{appliers_sources}

pub data CommitPreview : Type 0 where
  rebase_root rebase_descendant rebase_old : CommitPreview
  rebase_optimistic_root rebase_optimistic_descendant : CommitPreview
  goto_destination goto_previous_location : CommitPreview
  hidden_root hidden_descendant : CommitPreview
  stack_edit_root stack_edit_descendant non_actionable_commit : CommitPreview

-- `CommitTreeWithPreviews`; a `CommitTree` is one without preview types.
mutual
  pub data PreviewTree : Type 0 where
    preview_node : BranchInfo → Option CommitPreview → PreviewForest → PreviewTree

  pub data PreviewForest : Type 0 where
    no_preview : PreviewForest
    preview_tree : PreviewTree → PreviewForest → PreviewForest

-- What an applier gives: nothing is shown, or a commit with its children, its preview type and
-- that of its children.
pub data Applied : Type 0 where
  hidden : Applied
  shown : BranchInfo → PreviewForest → Option CommitPreview → Option CommitPreview → Applied

abbrev pub Applier : Type 0
Applier = PreviewTree → Option CommitPreview → Applied

-- `PreviewContext`; the map holds, for each branch, its commit with its children.
pub record PreviewContext : Type 0 where
  pub trees : PreviewForest
  pub head_commit : Option BranchInfo
  pub tree_map : Dict PreviewTree

abbrev pub TreeSource : Type 0
TreeSource = PreviewContext → Option Applier

-- `nextHeadCommit` and `nextTreeMap`
pub record Found : Type 0 where
  pub next_head_commit : Option BranchInfo
  pub next_tree_map : Dict PreviewTree

abbrev see_head : BranchInfo → Found → Found
see_head info found = if info.is_head then record found { next_head_commit = some info } else found

abbrev keep_shown : Option PreviewTree → PreviewForest → PreviewForest
keep_shown none ts = ts
keep_shown (some t) ts = preview_tree t ts

-- `trees.map(process).filter(notEmpty)`, from one tree to the next
unfoldable pub process_trees :
    (PreviewTree → Found → Option (Option PreviewTree × Found))
    → PreviewForest
    → Found
    → Option (PreviewForest × Found)
process_trees process no_preview found = some (no_preview, found)
process_trees process (preview_tree t ts) found = elim (process t found) [
  | none ↦ none
  | some (shown_tree, found') ↦
      Option.map (λ (r : PreviewForest × Found). (keep_shown shown_tree r.0, r.1))
        (process_trees process ts found')
]

-- `processTree` after the applier has been called, with its own call for the children passed in
unfoldable pub process_applied :
    (Option CommitPreview → PreviewTree → Found → Option (Option PreviewTree × Found))
    → Applied
    → Found
    → Option (Option PreviewTree × Found)
unfolding process_trees
process_applied process hidden found = some (none, found)
process_applied process (shown info children preview_type child_preview_type) found =
    Option.map
      (λ (r : PreviewForest × Found). (
        some (preview_node info preview_type r.0),
        record r.1 {
          next_tree_map =
              insert info.branch (preview_node info preview_type children) r.1.next_tree_map;
        },
      ))
      (process_trees (process child_preview_type) children (see_head info found))

unfoldable pub process_tree :
    ℕ → Applier → Option CommitPreview → PreviewTree → Found → Option (Option PreviewTree × Found)
unfolding process_applied
process_tree zero applier inherited t found = none
process_tree (suc levels) applier inherited t found =
    process_applied (process_tree levels applier) (applier t inherited) found

-- The loop over the sources.
unfoldable pub apply_sources : ℕ → List TreeSource → PreviewContext → Option PreviewContext
unfolding process_tree
apply_sources levels [] context = some context
apply_sources levels (source ∷ sources) context = elim (source context) [
  | none ↦ apply_sources levels sources context
  | some applier ↦
      elim (process_trees (process_tree levels applier none) context.trees
        (record { next_head_commit = context.head_commit; next_tree_map = [] })) [
          | none ↦ none
          | some (ts, found) ↦ apply_sources levels sources (record {
            trees = ts;
            head_commit = found.next_head_commit;
            tree_map = found.next_tree_map;
          })
        ]
]

-- The source of the operation that is being previewed comes last.
unfoldable pub tree_with_previews :
    ℕ
    → (Operation → Option TreeSource)
    → (Operation → Option TreeSource)
    → OperationList
    → List Operation
    → Option Operation
    → PreviewContext
    → Option PreviewContext
unfolding apply_sources appliers_sources
tree_with_previews levels optimistic_applier preview_applier list queued previewed context =
    apply_sources levels
      (appliers_sources (λ info. info.has_completed_optimistic_state) optimistic_applier list queued
        ++ (elim previewed [
          | none ↦ []
          | some op ↦ elim (preview_applier op) [ none ↦ [] | some source ↦ source ∷ [] ]
        ]))
      context
