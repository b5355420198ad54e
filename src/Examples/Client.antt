-- ===== src/Examples/Client.antt =====
-- Two operations that the client of apps/gti-client/src/serverAPIState.ts runs, and what the server
-- tells of them.
use freephite.Base.{ℕ, Option, none, some, List, [], ◌∷◌, ◌≡◌, refl, map, includes}
use freephite.OperationQueue.{queue_progress, handle}
use freephite.ServerApiState.{
  Operation, Client, operation_progress, run_operation_impl, run_operation, runnable, new_client,
  clear_all_optimistic_state, new_operation, OperationInfo,
}
use freephite.ServerApiState.Mirror.{System, start, runs, reads, Reach, here, next, event_of}
use freephite.ServerApiState.Mirror.Reached.{operation_progress-queue}
use freephite.Previews.{
  Source, MergeConflicts, loaded, apply_previews_to_changed_files,
  apply_previews_to_merge_conflicts,
}
use freephite.Previews.Cleared.{previews-clear, only_ongoing}

abbrev amend : Operation
amend = record { id = 1; args = 10 ∷ [] }

abbrev restack : Operation
restack = record { id = 2; args = 20 ∷ [] }

-- The client runs both, and the server reads both requests.
abbrev both_run : System
both_run =
    let one : System = record {
      client = run_operation_impl amend 0 new_client;
      server = start.server;
      used = 1 ∷ [];
    } in
    record {
      client = run_operation_impl restack 1 one.client;
      server = start.server;
      used = 2 ∷ 1 ∷ [];
    }

abbrev one_read : System
one_read = record both_run {
  client = record both_run.client { posted = run_operation (runnable restack) ∷ [] };
  server = handle (event_of (run_operation (runnable amend))) both_run.server;
}

abbrev both_read : System
both_read = record one_read {
  client = record one_read.client { posted = [] };
  server = handle (event_of (run_operation (runnable restack))) one_read.server;
}

both_run-Reach : Reach both_run
unfolding includes
both_run-Reach = next (next here (runs start amend 0 refl)) (runs _ restack 1 refl)

both_read-Reach : Reach both_read
unfolding run_operation_impl
both_read-Reach =
    next
      (next both_run-Reach (
        reads both_run (run_operation (runnable amend)) (run_operation (runnable restack) ∷ [])
          refl))
      (reads one_read (run_operation (runnable restack)) [] refl)

both_read_told : both_read.server.progress ≡ queue_progress 2 (2 ∷ []) ∷ []
unfolding handle run_operation_impl
both_read_told = refl

operation_progress-queue_example :
    map
      (λ op. op.id)
      (operation_progress (queue_progress 2 (2 ∷ [])) 5 both_read.client).queued_operations
    ≡ 2 ∷ []
operation_progress-queue_example =
    operation_progress-queue both_read (queue_progress 2 (2 ∷ [])) [] 5 both_read-Reach
      both_read_told refl

-- An operation that has exited, and one that runs; each adds its id to the changed files.
abbrev exited_amend : OperationInfo
exited_amend = record (new_operation amend 0) { exit_code = some 0 }

abbrev busy : Client
busy = record new_client {
  operation_list = record {
    current_operation = some (new_operation restack 1);
    operation_history = exited_amend ∷ [];
  };
}

abbrev add_id : Operation → Option (Source (List ℕ) (List ℕ))
add_id op = some (λ context. some (λ files. op.id ∷ files))

abbrev no_conflicts : Operation → Option (Source (MergeConflicts ℕ) (Option (MergeConflicts ℕ)))
no_conflicts op = some (λ context. some (λ conflicts. none))

previews-clear_example :
    (apply_previews_to_changed_files add_id
        (7 ∷ [])
        (clear_all_optimistic_state busy).operation_list
        (amend ∷ [])
      ≡ apply_previews_to_changed_files add_id
          (7 ∷ [])
          (only_ongoing busy.operation_list)
          (amend ∷ []))
    × (apply_previews_to_merge_conflicts no_conflicts
          (loaded 3)
          (clear_all_optimistic_state busy).operation_list
          (amend ∷ [])
        ≡ apply_previews_to_merge_conflicts no_conflicts
            (loaded 3)
            (only_ongoing busy.operation_list)
            (amend ∷ []))
previews-clear_example = previews-clear add_id no_conflicts busy (amend ∷ []) (7 ∷ []) (loaded 3)

previews_run :
    apply_previews_to_changed_files add_id (7 ∷ []) busy.operation_list (amend ∷ [])
    ≡ 1 ∷ 2 ∷ 1 ∷ 7 ∷ []
unfolding apply_previews_to_changed_files
previews_run = refl
