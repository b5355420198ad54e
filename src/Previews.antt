-- ===== src/Previews.antt =====
-- apps/gti-client/src/previews.ts: the uncommitted changes and the merge conflicts as they will be
-- when the operations that ran, run and wait have had their effect.
--
-- What an operation makes of them (`makeOptimisticUncommittedChangesApplier` and the like, where
-- it has this method) is an argument: from the present state, a function or nothing.
pub mod Cleared
pub mod Completed
pub mod Trees
use freephite.Base.{
  ℕ, Bool, true, false, Option, none, some, List, [], ◌∷◌, ◌++◌, ◌==◌, if◌then◌else◌,
}
use freephite.ServerApiState.{Operation, OperationInfo, OperationList}

-- What gives, from the present state, the function that is applied to the state.
abbrev pub Source : Type 0 → Type 0 → Type 0
Source Context State = Context → Option (State → State)

-- `exitCode == null || exitCode === 0`
abbrev pub has_not_failed : Option ℕ → Bool
has_not_failed none = true
has_not_failed (some code) = code == 0

module _ {S : Type 0} (has_completed : OperationInfo → Bool)
    (source_of : Operation → Option S) where
  abbrev pub source_list : Operation → List S → List S
  source_list op rest = elim (source_of op) [ none ↦ rest | some source ↦ source ∷ rest ]

  -- previous commands
  unfoldable pub history_sources : List OperationInfo → List S
  history_sources [] = []
  history_sources (info ∷ infos) =
      let rest = history_sources infos in
      if has_completed info then rest else source_list info.operation rest

  -- currently running or last command
  unfoldable pub current_sources : Option OperationInfo → List S
  current_sources none = []
  current_sources (some info) =
      if has_completed info
      then []
      else if has_not_failed info.exit_code
      then source_list info.operation []
      else []

  -- queued commands
  unfoldable pub queued_sources : List Operation → List S
  queued_sources [] = []
  queued_sources (op ∷ ops) = source_list op (queued_sources ops)

  unfoldable pub appliers_sources : OperationList → List Operation → List S
  unfolding history_sources current_sources queued_sources
  appliers_sources list queued =
      history_sources list.operation_history
      ++ (current_sources list.current_operation ++ queued_sources queued)

-- apply in order
unfoldable pub apply_in_order :
    {Context State : Type 0} → List (Source Context State) → Context → State → State
apply_in_order [] context final = final
apply_in_order (source ∷ sources) context final =
    apply_in_order sources context
      (elim (source context) [ none ↦ final | some applier ↦ applier final ])

unfoldable pub apply_previews_to_changed_files :
    {Files : Type 0}
    → (Operation → Option (Source Files Files))
    → Files
    → OperationList
    → List Operation
    → Files
unfolding appliers_sources apply_in_order
apply_previews_to_changed_files changes_applier files list queued =
    apply_in_order
      (appliers_sources (λ info. info.has_completed_uncommitted_changes_optimistic_state)
        changes_applier list queued)
      files files

-- `MergeConflicts`: the conflicts are being loaded, or are there.
pub data MergeConflicts (Conflicts : Type 0) : Type 0 where
  loading : MergeConflicts Conflicts
  loaded : Conflicts → MergeConflicts Conflicts

unfoldable pub apply_previews_to_merge_conflicts :
    {Conflicts : Type 0}
    → (Operation → Option (Source (MergeConflicts Conflicts) (Option (MergeConflicts Conflicts))))
    → MergeConflicts Conflicts
    → OperationList
    → List Operation
    → Option (MergeConflicts Conflicts)
unfolding appliers_sources apply_in_order
apply_previews_to_merge_conflicts conflicts_applier loading list queued = some loading
apply_previews_to_merge_conflicts conflicts_applier (loaded conflicts) list queued =
    apply_in_order
      (appliers_sources (λ info. info.has_completed_merge_conflicts_optimistic_state)
        conflicts_applier list queued)
      (loaded conflicts) (some (loaded conflicts))
