-- ===== src/OperationQueue.antt =====
-- apps/gti-server/src/OperationQueue.ts: one operation runs at a time, the others wait. What is
-- awaited ends by an event, a success or an error; between two events the code is not interrupted.
pub mod Order
use freephite.Base.{
  ℕ, zero, suc, Bool, true, false, Option, none, some, List, [], ◌∷◌, ◌++◌, map, ◌==◌,
  if◌then◌else◌,
}

-- `RunnableOperation`: its id, and the arguments of the command
pub record RunnableOperation : Type 0 where
  pub id : ℕ
  pub args : List ℕ

-- `OperationProgress`
pub data OperationProgress : Type 0 where
  queue_progress spawn_progress : ℕ → List ℕ → OperationProgress
  stdout_progress stderr_progress : ℕ → ℕ → OperationProgress
  exit_progress : ℕ → ℕ → OperationProgress
  error_progress : ℕ → ℕ → OperationProgress

-- What the running command reports.
pub data CommandProgress : Type 0 where
  spawn : CommandProgress
  stdout stderr exit : ℕ → CommandProgress

-- The fields of `OperationQueue`; `started` are the operations for which the callback has been
-- called, `progress` what `onProgress` was given, and `aborted` the operations sent the signal.
pub record OperationQueue : Type 0 where
  pub queued_operations : List RunnableOperation
  pub running_operation : Option RunnableOperation
  pub started : List RunnableOperation
  pub progress : List OperationProgress
  pub aborted : List ℕ

abbrev pub new_queue : OperationQueue
new_queue = record {
  queued_operations = [];
  running_operation = none;
  started = [];
  progress = [];
  aborted = [];
}

abbrev pub ids : List RunnableOperation → List ℕ
ids = map (λ op. op.id)

-- `onProgress(…)`
abbrev on_progress : OperationProgress → OperationQueue → OperationQueue
on_progress p s = record s { progress = s.progress ++ p ∷ [] }

-- `runOrQueueOperation`, up to the await
unfoldable pub run_or_queue_operation : RunnableOperation → OperationQueue → OperationQueue
run_or_queue_operation op s = elim s.running_operation [
  | some running ↦
      let queue = s.queued_operations ++ op ∷ [] in
      on_progress (queue_progress op.id (ids queue)) (record s { queued_operations = queue })
  | none ↦ record s { running_operation = some op; started = s.started ++ op ∷ [] }
]

-- `handleCommandProgress` of the running operation
unfoldable pub handle_command_progress : CommandProgress → OperationQueue → OperationQueue
handle_command_progress p s = elim s.running_operation [
  | none ↦ s
  | some op ↦ elim p [
    | spawn ↦ on_progress (spawn_progress op.id (ids s.queued_operations)) s
    | stdout message ↦ on_progress (stdout_progress op.id message) s
    | stderr message ↦ on_progress (stderr_progress op.id message) s
    | exit code ↦ on_progress (exit_progress op.id code) s
  ]
]

abbrev dequeue_next : List RunnableOperation → OperationQueue → OperationQueue
dequeue_next [] s = s
dequeue_next (op ∷ rest) s = run_or_queue_operation op (record s { queued_operations = rest })

-- what follows the await where the running operation has succeeded
unfoldable pub finish_operation : OperationQueue → OperationQueue
unfolding run_or_queue_operation
finish_operation s = elim s.running_operation [
  | none ↦ s
  | some op ↦ dequeue_next s.queued_operations (record s { running_operation = none })
]

-- the handler of an error of the running operation
unfoldable pub fail_operation : ℕ → OperationQueue → OperationQueue
fail_operation error s = elim s.running_operation [
  | none ↦ s
  | some op ↦ record (on_progress (error_progress op.id error) s) {
    queued_operations = [];
    running_operation = none;
  }
]

-- `abortRunningOperation`
unfoldable pub abort_running_operation : ℕ → OperationQueue → OperationQueue
abort_running_operation id s = elim s.running_operation [
  | none ↦ s
  | some op ↦ if op.id == id then record s { aborted = s.aborted ++ id ∷ [] } else s
]

-- An event in the life of the queue. A success or an error ends the operation that runs.
pub data Event : Type 0 where
  submit : RunnableOperation → Event
  reports : CommandProgress → Event
  succeeds : Event
  fails abort : ℕ → Event

unfoldable pub handle : Event → OperationQueue → OperationQueue
unfolding run_or_queue_operation handle_command_progress finish_operation fail_operation
    abort_running_operation
handle (submit op) = run_or_queue_operation op
handle (reports p) = handle_command_progress p
handle succeeds = finish_operation
handle (fails error) = fail_operation error
handle (abort id) = abort_running_operation id

unfoldable pub handle_all : List Event → OperationQueue → OperationQueue
unfolding handle
handle_all [] s = s
handle_all (e ∷ es) s = handle_all es (handle e s)
