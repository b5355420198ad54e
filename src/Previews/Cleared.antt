-- ===== src/Previews/Cleared.antt =====
-- The previews of apps/gti-client/src/previews.ts after `useClearAllOptimisticState` of
-- apps/gti-client/src/serverAPIState.ts.
use freephite.Base.{
  Bool, true, false, Option, none, some, List, [], ◌∷◌, map, ◌≡◌, refl, filter, is_some,
  if◌then◌else◌, Option-cases, inl, inr, arith,
}
use freephite.ServerApiState.{
  Operation, OperationInfo, OperationList, Client, clear_operation, clear_all_optimistic_state,
}
use freephite.Previews.{
  Source, history_sources, current_sources, appliers_sources, apply_previews_to_changed_files,
  MergeConflicts, loading, loaded, apply_previews_to_merge_conflicts,
}

-- The operation has not exited.
abbrev pub is_ongoing : OperationInfo → Bool
is_ongoing info = if is_some info.exit_code then false else true

abbrev pub ongoing_current : Option OperationInfo → Option OperationInfo
ongoing_current none = none
ongoing_current (some info) = if is_ongoing info then some info else none

abbrev clear_current : Option OperationInfo → Option OperationInfo
clear_current current = elim current [ none ↦ none | some info ↦ some (clear_operation info) ]

-- The operation list without those that have exited.
abbrev pub only_ongoing : OperationList → OperationList
only_ongoing list = record {
  operation_history = filter is_ongoing list.operation_history;
  current_operation = ongoing_current list.current_operation;
}

module _ {S : Type 0} (has_completed : OperationInfo → Bool) (source_of : Operation → Option S)
    (cleared : (info : OperationInfo)
      → has_completed (clear_operation info)
        ≡ (if is_ongoing info then has_completed info else true)) where
  history_sources-clear :
      (infos : List OperationInfo)
      → history_sources has_completed source_of (map clear_operation infos)
        ≡ history_sources has_completed source_of (filter is_ongoing infos)
  unfolding history_sources
  history_sources-clear [] = refl
  history_sources-clear (info ∷ infos) = elim (Option-cases info.exit_code) [
    | inl e ↦ rw (cleared info, e) (rw (history_sources-clear infos) refl)
    | inr (code, e) ↦ rw (cleared info, e) (history_sources-clear infos)
  ]

  current_sources-clear :
      (current : Option OperationInfo)
      → current_sources has_completed source_of (clear_current current)
        ≡ current_sources has_completed source_of (ongoing_current current)
  unfolding current_sources
  current_sources-clear none = refl
  current_sources-clear (some info) = elim (Option-cases info.exit_code) [
    | inl e ↦ rw (cleared info, e) refl
    | inr (code, e) ↦ rw (cleared info, e) refl
  ]

  sources-clear :
      (c : Client) (queued : List Operation)
      → appliers_sources has_completed source_of
          (clear_all_optimistic_state c).operation_list
          queued
        ≡ appliers_sources has_completed source_of (only_ongoing c.operation_list) queued
  unfolding appliers_sources clear_all_optimistic_state
  sources-clear c queued =
      rw
        (
          history_sources-clear c.operation_list.operation_history,
          current_sources-clear c.operation_list.current_operation,
        )
        refl

changes_cleared :
    (info : OperationInfo)
    → (clear_operation info).has_completed_uncommitted_changes_optimistic_state
      ≡ (if is_ongoing info then info.has_completed_uncommitted_changes_optimistic_state else true)
changes_cleared info = ground arith

conflicts_cleared :
    (info : OperationInfo)
    → (clear_operation info).has_completed_merge_conflicts_optimistic_state
      ≡ (if is_ongoing info then info.has_completed_merge_conflicts_optimistic_state else true)
conflicts_cleared info = ground arith

-- After the optimistic state is cleared, the uncommitted changes and the merge conflicts are shown
-- as if the operations that have exited, whatever their exit code, had never been run: what the
-- running operation and the queued ones make of them stays.
pub previews-clear :
    {Files Conflicts : Type 0} (changes_applier : Operation → Option (Source Files Files))
    (conflicts_applier : Operation
      → Option (Source (MergeConflicts Conflicts) (Option (MergeConflicts Conflicts))))
    (c : Client) (queued : List Operation) (files : Files) (conflicts : MergeConflicts Conflicts)
    → (apply_previews_to_changed_files changes_applier files
          (clear_all_optimistic_state c).operation_list
          queued
        ≡ apply_previews_to_changed_files changes_applier files
            (only_ongoing c.operation_list)
            queued)
      × (apply_previews_to_merge_conflicts conflicts_applier conflicts
            (clear_all_optimistic_state c).operation_list
            queued
          ≡ apply_previews_to_merge_conflicts conflicts_applier conflicts
              (only_ongoing c.operation_list)
              queued)
unfolding apply_previews_to_changed_files apply_previews_to_merge_conflicts
previews-clear changes_applier conflicts_applier c queued files loading =
    (rw (sources-clear _ changes_applier changes_cleared c queued) refl, refl)
previews-clear changes_applier conflicts_applier c queued files (loaded conflicts) = (
  rw (sources-clear _ changes_applier changes_cleared c queued) refl,
  rw (sources-clear _ conflicts_applier conflicts_cleared c queued) refl,
)
