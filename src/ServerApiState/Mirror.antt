-- ===== src/ServerApiState/Mirror.antt =====
-- The client of apps/gti-client/src/serverAPIState.ts together with the queue of
-- apps/gti-server/src/OperationQueue.ts: each reads the messages of the other in the order in which
-- they were sent. `server.progress` holds those that the client has not read. The
-- working folder stays the same.
pub mod Known
pub mod Waiting
pub mod Reached
use freephite.Base.{ℕ, Bool, true, false, Option, some, none, List, [], ◌∷◌, ◌≡◌, includes}
use freephite.OperationQueue.{
  OperationProgress, CommandProgress, Event, submit, reports, succeeds, fails, abort, handle,
  OperationQueue, new_queue,
}
use freephite.ServerApiState.{
  Operation, Client, ClientMessage, run_operation, abort_running_operation, new_client,
  operation_progress, run_operation_impl, abort_operation, clear_all_optimistic_state,
}

-- `used` lists the ids of all operations that were run.
pub record System : Type 0 where
  pub client : Client
  pub server : OperationQueue
  pub used : List ℕ

abbrev pub start : System
start = record { client = new_client; server = new_queue; used = [] }

-- What the server does with a message.
abbrev pub event_of : ClientMessage → Event
event_of (run_operation op) = submit op
event_of (abort_running_operation id) = abort id

-- What the running command can bring about at the server.
abbrev pub of_command : Event → Bool
of_command (reports p) = true
of_command succeeds = true
of_command (fails error) = true
of_command e = false

-- The client runs an operation with a new id, aborts, or clears its optimistic state; the server
-- reads the next message, or handles an event of the running command; the client reads the next
-- message.
pub data Step : System → System → Type 0 where
  runs :
      (s : System) (op : Operation) (now : ℕ)
      → includes op.id s.used ≡ false
      → Step s (record s { client = run_operation_impl op now s.client; used = op.id ∷ s.used })
  aborts : (s : System) (id : ℕ) → Step s (record s { client = abort_operation id s.client })
  clears : (s : System) → Step s (record s { client = clear_all_optimistic_state s.client })
  reads :
      (s : System) (m : ClientMessage) (rest : List ClientMessage)
      → s.client.posted ≡ m ∷ rest
      → Step s (record s {
        client = record s.client { posted = rest };
        server = handle (event_of m) s.server;
      })
  commands :
      (s : System) (e : Event)
      → of_command e ≡ true
      → Step s (record s { server = handle e s.server })
  receives :
      (s : System) (p : OperationProgress) (rest : List OperationProgress) (time : ℕ)
      → s.server.progress ≡ p ∷ rest
      → Step s (record s {
        client = operation_progress p time s.client;
        server = record s.server { progress = rest };
      })

pub data Reach : System → Type 0 where
  here : Reach start
  next : {s t : System} → Reach s → Step s t → Reach t
