-- ===== src/ServerApiState.antt =====
-- apps/gti-client/src/serverAPIState.ts: the operations that the client runs, has queued and has
-- run. An observable is a field of the state, and what is sent to the server a list of messages.
-- The two handlers of "operationProgress" are one function each, called one after the other.
pub mod Mirror
use freephite.Base.{
  ℕ, Bool, true, false, Option, none, some, List, [], ◌∷◌, ◌++◌, map, ◌==◌, if◌then◌else◌, is_some,
  is_value, Dict, lookup, insert, delete,
}
use freephite.OperationQueue.{
  OperationProgress, queue_progress, spawn_progress, stdout_progress, stderr_progress,
  exit_progress, error_progress, RunnableOperation,
}

-- `Operation`, by its id and what `getArgs` gives
pub record Operation : Type 0 where
  pub id : ℕ
  pub args : List ℕ

-- A flag or a list that is missing counts as false or empty, as the code reads it.
pub record OperationInfo : Type 0 where
  pub operation : Operation
  pub start_time : ℕ
  pub command_output : List ℕ
  pub aborting : Bool
  pub has_completed_optimistic_state : Bool
  pub has_completed_uncommitted_changes_optimistic_state : Bool
  pub has_completed_merge_conflicts_optimistic_state : Bool
  pub end_time : Option ℕ
  pub exit_code : Option ℕ

pub record OperationList : Type 0 where
  pub current_operation : Option OperationInfo
  pub operation_history : List OperationInfo

abbrev pub default_operation_list : OperationList
default_operation_list = record { current_operation = none; operation_history = [] }

-- `{ operation: newOperation, startTime: new Date() }`
abbrev pub new_operation : Operation → ℕ → OperationInfo
new_operation op now = record {
  operation = op;
  start_time = now;
  command_output = [];
  aborting = false;
  has_completed_optimistic_state = false;
  has_completed_uncommitted_changes_optimistic_state = false;
  has_completed_merge_conflicts_optimistic_state = false;
  end_time = none;
  exit_code = none;
}

-- `list.currentOperation?.operation.id === id`
abbrev pub is_current : ℕ → Option OperationInfo → Bool
is_current id none = false
is_current id (some info) = info.operation.id == id

abbrev pub push_current : Option OperationInfo → List OperationInfo → List OperationInfo
push_current none history = history
push_current (some info) history = history ++ info ∷ []

unfoldable pub start_new_operation : Operation → ℕ → OperationList → OperationList
start_new_operation op now list =
    if is_current op.id list.current_operation then list else record list {
      operation_history = push_current list.current_operation list.operation_history;
      current_operation = some (new_operation op now);
    }

-- A message to the server.
pub data ClientMessage : Type 0 where
  run_operation : RunnableOperation → ClientMessage
  abort_running_operation : ℕ → ClientMessage

-- The observables, `operationsById`, and the messages that the server has not read.
pub record Client : Type 0 where
  pub operation_list : OperationList
  pub operations_by_id : Dict Operation
  pub queued_operations : List Operation
  pub operation_being_previewed : Option Operation
  pub posted : List ClientMessage

abbrev pub new_client : Client
new_client = record {
  operation_list = default_operation_list;
  operations_by_id = [];
  queued_operations = [];
  operation_being_previewed = none;
  posted = [];
}

-- `serverAPI.postMessage(…)`
abbrev pub post_message : ClientMessage → Client → Client
post_message m c = record c { posted = c.posted ++ m ∷ [] }

-- What `onCwdChanged` sets.
unfoldable pub on_cwd_changed : Client → Client
on_cwd_changed c = record c {
  operation_list = default_operation_list;
  queued_operations = [];
  operation_being_previewed = none;
}

abbrev with_output : ℕ → OperationInfo → OperationInfo
with_output message info = record info { command_output = info.command_output ++ message ∷ [] }

abbrev with_exit : ℕ → ℕ → OperationInfo → OperationInfo
with_exit code time info = record info { exit_code = some code; end_time = some time }

abbrev on_current : (OperationInfo → OperationInfo) → OperationList → OperationList
on_current f list = elim list.current_operation [
  | none ↦ list
  | some info ↦ record list { current_operation = some (f info) }
]

-- The handler of `operationList`; `time` is the date that it reads, the present one at a "spawn"
-- and the one of the message at an "exit".
unfoldable pub update_list : OperationProgress → ℕ → Dict Operation → OperationList → OperationList
unfolding start_new_operation
update_list (spawn_progress id queue) time by_id list = elim (lookup id by_id) [
  | none ↦ list
  | some op ↦ start_new_operation op time list
]
update_list (stdout_progress id message) time by_id list = on_current (with_output message) list
update_list (stderr_progress id message) time by_id list = on_current (with_output message) list
update_list (exit_progress id code) time by_id list = on_current (with_exit code time) list
update_list (queue_progress id queue) time by_id list = list
update_list (error_progress id error) time by_id list = list

-- `queue.map((opId) => operationsById.get(opId)).filter((op) => op != null)`
unfoldable pub known_operations : List ℕ → Dict Operation → List Operation
known_operations [] by_id = []
known_operations (id ∷ ids) by_id =
    let rest = known_operations ids by_id in
    elim (lookup id by_id) [ none ↦ rest | some op ↦ op ∷ rest ]

-- The handler of `queuedOperations`.
unfoldable pub update_queue : OperationProgress → Client → Client
unfolding known_operations
update_queue (queue_progress id queue) c = record c {
  queued_operations = known_operations queue c.operations_by_id;
}
update_queue (spawn_progress id queue) c = record c {
  queued_operations = known_operations queue c.operations_by_id;
}
update_queue (error_progress id error) c = record c { queued_operations = [] }
update_queue (exit_progress id code) c = record c {
  operations_by_id = delete id c.operations_by_id;
  queued_operations = if code == 0 then c.queued_operations else [];
}
update_queue (stdout_progress id message) c = c
update_queue (stderr_progress id message) c = c

-- Both handlers of a message "operationProgress".
unfoldable pub operation_progress : OperationProgress → ℕ → Client → Client
unfolding update_list update_queue
operation_progress p time c =
    update_queue p
      (record c { operation_list = update_list p time c.operations_by_id c.operation_list })

-- `ongoing.currentOperation != null && ongoing.currentOperation.exitCode == null`
abbrev pub is_running : Option OperationInfo → Bool
is_running none = false
is_running (some info) = if is_some info.exit_code then false else true

abbrev pub runnable : Operation → RunnableOperation
runnable op = record { id = op.id; args = op.args }

unfoldable pub run_operation_impl : Operation → ℕ → Client → Client
unfolding start_new_operation
run_operation_impl op now client =
    let c = record (post_message (run_operation (runnable op)) client) {
      operations_by_id = insert op.id op client.operations_by_id;
    } in
    if is_running c.operation_list.current_operation
    then record c { queued_operations = c.queued_operations ++ op ∷ [] }
    else record c { operation_list = start_new_operation op now c.operation_list }

-- The callback of `useAbortRunningOperation`.
unfoldable pub abort_operation : ℕ → Client → Client
abort_operation id client =
    let c = post_message (abort_running_operation id) client in
    if is_current id c.operation_list.current_operation
    then record c {
      operation_list = on_current (λ info. record info { aborting = true }) c.operation_list;
    }
    else c

-- The callback of `useRunPreviewedOperation`.
unfoldable pub run_previewed_operation : Bool → ℕ → Client → Client
unfolding run_operation_impl
run_previewed_operation true now c = record c { operation_being_previewed = none }
run_previewed_operation false now c = elim c.operation_being_previewed [
  | none ↦ record c { operation_being_previewed = none }
  | some op ↦ run_operation_impl op now (record c { operation_being_previewed = none })
]

abbrev pub all_completed : OperationInfo → OperationInfo
all_completed info = record info {
  has_completed_optimistic_state = true;
  has_completed_uncommitted_changes_optimistic_state = true;
  has_completed_merge_conflicts_optimistic_state = true;
}

-- An operation that has exited shows no optimistic state any more.
abbrev pub clear_operation : OperationInfo → OperationInfo
clear_operation info = if is_some info.exit_code then all_completed info else info

-- The callback of `useClearAllOptimisticState`.
unfoldable pub clear_all_optimistic_state : Client → Client
clear_all_optimistic_state c = record c {
  operation_list = record {
    operation_history = map clear_operation c.operation_list.operation_history;
    current_operation = elim c.operation_list.current_operation [
      | none ↦ none
      | some info ↦ some (clear_operation info)
    ];
  };
}
