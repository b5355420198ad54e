-- ===== src/Previews/Completed/Ends.antt =====
-- The effect of apps/gti-client/src/previews.ts, useMarkOperationsCompleted, ends: what it has marked
-- it does not mark again.
use freephite.Base.{
  ℕ, Bool, false, Option, none, some, List, [], ◌∷◌, ◌++◌, map, ◌≡◌, refl, ◌||◌, Bool-cases, inl,
  inr, arith,
}
use mathlib.Core.List.{map-append}
use freephite.ServerApiState.{OperationInfo, OperationList}
use freephite.Previews.Completed.{
  Fetched, is_resolved, should_mark_optimistic_changes_resolved, mark, mark_history, mark_current,
  any_resolved, to_mark_resolved, mark_operations_completed,
}

module _ (seen : Fetched) where
  resolved_twice :
      (done : Bool) (applier : Option Bool) (start : ℕ) (code time : Option ℕ)
      → is_resolved (is_resolved done applier start code time || done) applier start code time
        ≡ false
  unfolding is_resolved
  resolved_twice done applier start code time =
      elim (Bool-cases (is_resolved done applier start code time)) [
        | inl e ↦ rw e refl
        | inr e ↦ rw e e
      ]

  -- Once marked, nothing of an operation is left to mark.
  marked-settled :
      (info : OperationInfo)
      → should_mark_optimistic_changes_resolved seen
          (mark (should_mark_optimistic_changes_resolved seen info) info)
        ≡ none
  unfolding should_mark_optimistic_changes_resolved mark
  marked-settled info = ground (
    arith,
    resolved_twice info.has_completed_optimistic_state (seen.commits_applier info.operation)
        seen.commits_start info.exit_code info.end_time,
    resolved_twice info.has_completed_uncommitted_changes_optimistic_state
        (seen.changes_applier info.operation) seen.changes_start info.exit_code info.end_time,
    resolved_twice info.has_completed_merge_conflicts_optimistic_state
        (seen.conflicts_applier info.operation) seen.conflicts_start info.exit_code info.end_time,
  )

  -- What stands before an operation that is current is history, marked by its own result.
  history-last :
      (infos : List OperationInfo) (info : OperationInfo)
      → mark_history (map (should_mark_optimistic_changes_resolved seen) (infos ++ info ∷ [])) infos
        ≡ map (λ i. mark (should_mark_optimistic_changes_resolved seen i) i) infos
  unfolding mark_history
  history-last [] info = refl
  history-last (i ∷ []) info = refl
  history-last (i ∷ j ∷ infos) info = rw (history-last (j ∷ infos) info) refl

  current-last :
      (infos : List OperationInfo) (info : OperationInfo)
      → mark_current
          (map (should_mark_optimistic_changes_resolved seen) (infos ++ info ∷ []))
          (some info)
        ≡ some (mark (should_mark_optimistic_changes_resolved seen info) info)
  unfolding mark_current
  current-last [] info = refl
  current-last (i ∷ []) info = refl
  current-last (i ∷ j ∷ infos) info = current-last (j ∷ infos) info

  any_resolved-marked :
      (infos : List OperationInfo)
      → any_resolved (
          map
            (should_mark_optimistic_changes_resolved seen)
            (map (λ i. mark (should_mark_optimistic_changes_resolved seen i) i) infos))
        ≡ false
  unfolding any_resolved
  any_resolved-marked [] = refl
  any_resolved-marked (i ∷ infos) = rw (marked-settled i) (any_resolved-marked infos)

  idle :
      (list : OperationList)
      → any_resolved (to_mark_resolved seen list) ≡ false
      → mark_operations_completed seen list ≡ list
  unfolding mark_operations_completed
  idle list h = rw (h, mark_operations_completed) refl

  -- All results, where an operation is current.
  to_mark-current :
      (history : List OperationInfo) (info : OperationInfo)
      → any_resolved (
          to_mark_resolved seen (record {
            operation_history =
                mark_history
                  (map (should_mark_optimistic_changes_resolved seen) (history ++ info ∷ []))
                  history;
            current_operation =
                mark_current
                  (map (should_mark_optimistic_changes_resolved seen) (history ++ info ∷ []))
                  (some info);
          }))
        ≡ false
  unfolding to_mark_resolved
  to_mark-current history info =
      rw (history-last history info, current-last history info)
        (rw
          (← map-append (λ i. mark (should_mark_optimistic_changes_resolved seen i) i) history
            (info ∷ []))
          (any_resolved-marked (history ++ info ∷ [])))

  settles :
      (history : List OperationInfo) (current : Option OperationInfo)
      → (current ≡ none → history ≡ [])
      → any_resolved (
          to_mark_resolved seen (
            mark_operations_completed seen
              (record { operation_history = history; current_operation = current })))
        ≡ false
  unfolding mark_operations_completed to_mark_resolved
  settles history none h = rw (h refl) refl
  settles history (some info) h =
      elim (Bool-cases (
        any_resolved (map (should_mark_optimistic_changes_resolved seen) (history ++ info ∷ [])))) [
          | inl marks ↦ rw marks (to_mark-current history info)
          | inr settled ↦ rw settled settled
        ]

  -- Where something is in the history only if an operation is current: once the operations are
  -- marked, with the same data at hand, nothing is left to mark, so the effect, which runs again
  -- as the list has changed, changes nothing and ends.
  pub mark_operations_completed_ends :
      (list : OperationList)
      → (list.current_operation ≡ none → list.operation_history ≡ [])
      → (any_resolved (to_mark_resolved seen (mark_operations_completed seen list)) ≡ false)
        × (mark_operations_completed seen (mark_operations_completed seen list)
            ≡ mark_operations_completed seen list)
  mark_operations_completed_ends list h =
      let none_left = settles list.operation_history list.current_operation h in
      (none_left, idle (mark_operations_completed seen list) none_left)
