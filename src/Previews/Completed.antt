-- ===== src/Previews/Completed.antt =====
-- apps/gti-client/src/previews.ts, useMarkOperationsCompleted: the optimistic state of an operation
-- ends where the operation has exited and its effect shows in what was fetched since.
pub mod Ends
use freephite.Base.{
  ℕ, Bool, true, false, not, Option, none, some, List, [], ◌∷◌, ◌++◌, map, ◌≡◌, refl, ◌==◌, ◌||◌,
  if◌then◌else◌, is_some, leb, Bool-cases, inl, inr, arith,
}
use mathlib.Core.List.{map-append}
use freephite.ServerApiState.{Operation, OperationInfo, OperationList}

-- What an effect sees. For each of the three kinds of state: whether an operation has the method
-- that makes its applier, and if so whether this gives one at present; and when the last fetch
-- started.
pub record Fetched : Type 0 where
  pub changes_applier : Operation → Option Bool
  pub conflicts_applier : Operation → Option Bool
  pub commits_applier : Operation → Option Bool
  pub changes_start : ℕ
  pub conflicts_start : ℕ
  pub commits_start : ℕ

-- `{ commits, files, conflicts }`
pub record Resolved : Type 0 where
  pub commits : Bool
  pub files : Bool
  pub conflicts : Bool

-- `fetchStartTimestamp > unwrap(endTime)`; an operation with an exit code has an end time.
abbrev fetched_after : ℕ → Option ℕ → Bool
fetched_after fetch_start none = false
fetched_after fetch_start (some end_time) = not (leb fetch_start end_time)

-- One of the three parts of `shouldMarkOptimisticChangesResolved`.
unfoldable pub is_resolved : Bool → Option Bool → ℕ → Option ℕ → Option ℕ → Bool
is_resolved true applier fetch_start exit_code end_time = false
is_resolved false none fetch_start exit_code end_time = is_some exit_code
is_resolved false (some gives) fetch_start none end_time = false
is_resolved false (some gives) fetch_start (some code) end_time =
    if not gives || not (code == 0) then true else fetched_after fetch_start end_time

module _ (seen : Fetched) where
  unfoldable pub files_resolved : OperationInfo → Bool
  files_resolved info =
      is_resolved info.has_completed_uncommitted_changes_optimistic_state
        (seen.changes_applier info.operation) seen.changes_start info.exit_code info.end_time

  unfoldable pub conflicts_resolved : OperationInfo → Bool
  conflicts_resolved info =
      is_resolved info.has_completed_merge_conflicts_optimistic_state
        (seen.conflicts_applier info.operation) seen.conflicts_start info.exit_code info.end_time

  unfoldable pub commits_resolved : OperationInfo → Bool
  commits_resolved info =
      is_resolved info.has_completed_optimistic_state (seen.commits_applier info.operation)
        seen.commits_start info.exit_code info.end_time

  unfoldable pub should_mark_optimistic_changes_resolved : OperationInfo → Option Resolved
  unfolding files_resolved conflicts_resolved commits_resolved
  should_mark_optimistic_changes_resolved info =
      let r : Resolved = record {
        commits = commits_resolved info;
        files = files_resolved info;
        conflicts = conflicts_resolved info;
      } in
      if r.commits || (r.files || r.conflicts) then some r else none

-- Sets the flags that are resolved.
unfoldable pub mark : Option Resolved → OperationInfo → OperationInfo
mark none info = info
mark (some r) info = record info {
  has_completed_optimistic_state = r.commits || info.has_completed_optimistic_state;
  has_completed_uncommitted_changes_optimistic_state =
      r.files || info.has_completed_uncommitted_changes_optimistic_state;
  has_completed_merge_conflicts_optimistic_state =
      r.conflicts || info.has_completed_merge_conflicts_optimistic_state;
}

-- The loop over `i < toMarkResolved.length - 1`.
unfoldable pub mark_history : List (Option Resolved) → List OperationInfo → List OperationInfo
unfolding mark
mark_history [] infos = infos
mark_history (r ∷ []) infos = infos
mark_history (r ∷ r' ∷ rs) [] = []
mark_history (r ∷ r' ∷ rs) (info ∷ infos) = mark r info ∷ mark_history (r' ∷ rs) infos

-- The last result is that of the current operation.
unfoldable pub mark_current : List (Option Resolved) → Option OperationInfo → Option OperationInfo
unfolding mark
mark_current [] current = current
mark_current (r ∷ []) none = none
mark_current (r ∷ []) (some info) = some (mark r info)
mark_current (r ∷ r' ∷ rs) current = mark_current (r' ∷ rs) current

-- `toMarkResolved.some(notEmpty)`
unfoldable pub any_resolved : List (Option Resolved) → Bool
any_resolved [] = false
any_resolved (r ∷ rs) = is_some r || any_resolved rs

-- `[...list.operationHistory, currentOperation]`, without an undefined one
abbrev pub all_operations : OperationList → List OperationInfo
all_operations list =
    list.operation_history ++ (elim list.current_operation [ none ↦ [] | some info ↦ info ∷ [] ])

module _ (seen : Fetched) where
  unfoldable pub to_mark_resolved : OperationList → List (Option Resolved)
  unfolding should_mark_optimistic_changes_resolved
  to_mark_resolved list = map (should_mark_optimistic_changes_resolved seen) (all_operations list)

  unfoldable pub mark_operations_completed : OperationList → OperationList
  unfolding to_mark_resolved mark_history mark_current any_resolved
  mark_operations_completed list =
      let to_mark = to_mark_resolved list in
      if any_resolved to_mark
      then record {
        operation_history = mark_history to_mark list.operation_history;
        current_operation = mark_current to_mark list.current_operation;
      }
      else list
