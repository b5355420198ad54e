-- ===== src/ServerApiState/Mirror/Reached.antt =====
-- What holds in every state that the client of apps/gti-client/src/serverAPIState.ts and the
-- server's queue reach together.
use freephite.Base.{
  ℕ, Bool, true, false, Option, List, [], ◌∷◌, ◌++◌, map, ◌≡◌, refl, includes, Dict, insert,
  append_assoc, arith,
}
use mathlib.Core.Path.{subst}
use freephite.OperationQueue.{
  OperationProgress, queue_progress, spawn_progress, stdout_progress, stderr_progress,
  exit_progress, error_progress, Event, submit, reports, succeeds, fails, abort, handle,
  OperationQueue, ids,
}
use freephite.OperationQueue.Order.{IsBusy, handle-IsBusy}
use freephite.ServerApiState.{
  Operation, Client, ClientMessage, run_operation, abort_running_operation, runnable,
  operation_progress, run_operation_impl, abort_operation, clear_all_optimistic_state,
}
use freephite.ServerApiState.Mirror.{
  System, event_of, of_command, Step, runs, aborts, clears, reads, commands, receives, Reach, here,
  next,
}
use freephite.ServerApiState.Mirror.Known.{
  knows_all, knows_then, queue_of, exited, forget, outlives, distinct, map-known_operations,
}
use freephite.ServerApiState.Mirror.Waiting.{
  posted_ids, waiting, running_id, Inv, InvOf, Inv-run, run_or_queue-InvOf, report-InvOf,
  finish-InvOf, fail-InvOf, stop-InvOf,
}

posted_ids-run :
    (ms : List ClientMessage) (op : Operation)
    → posted_ids (ms ++ run_operation (runnable op) ∷ []) ≡ posted_ids ms ++ op.id ∷ []
posted_ids-run [] op = refl
posted_ids-run (run_operation o ∷ ms) op = rw (posted_ids-run ms op) refl
posted_ids-run (abort_running_operation id ∷ ms) op = posted_ids-run ms op

posted_ids-abort :
    (ms : List ClientMessage) (id : ℕ)
    → posted_ids (ms ++ abort_running_operation id ∷ []) ≡ posted_ids ms
posted_ids-abort [] id = refl
posted_ids-abort (run_operation o ∷ ms) id = rw (posted_ids-abort ms id) refl
posted_ids-abort (abort_running_operation j ∷ ms) id = posted_ids-abort ms id

module _ (op : Operation) (now : ℕ) (c : Client) where
  run-operations_by_id :
      (run_operation_impl op now c).operations_by_id ≡ insert op.id op c.operations_by_id
  unfolding run_operation_impl
  run-operations_by_id = ground arith

  run-posted : (run_operation_impl op now c).posted ≡ c.posted ++ run_operation (runnable op) ∷ []
  unfolding run_operation_impl
  run-posted = ground arith

module _ (id : ℕ) (c : Client) where
  abort-operations_by_id : (abort_operation id c).operations_by_id ≡ c.operations_by_id
  unfolding abort_operation
  abort-operations_by_id = ground arith

  abort-posted : (abort_operation id c).posted ≡ c.posted ++ abort_running_operation id ∷ []
  unfolding abort_operation
  abort-posted = ground arith

progress-operations_by_id :
    (p : OperationProgress) (time : ℕ) (c : Client)
    → (operation_progress p time c).operations_by_id ≡ forget (exited p) c.operations_by_id
unfolding operation_progress
progress-operations_by_id (queue_progress id queue) time c = refl
progress-operations_by_id (spawn_progress id queue) time c = refl
progress-operations_by_id (stdout_progress id message) time c = refl
progress-operations_by_id (stderr_progress id message) time c = refl
progress-operations_by_id (exit_progress id code) time c = refl
progress-operations_by_id (error_progress id error) time c = refl

progress-posted :
    (p : OperationProgress) (time : ℕ) (c : Client)
    → (operation_progress p time c).posted ≡ c.posted
unfolding operation_progress
progress-posted (queue_progress id queue) time c = refl
progress-posted (spawn_progress id queue) time c = refl
progress-posted (stdout_progress id message) time c = refl
progress-posted (stderr_progress id message) time c = refl
progress-posted (exit_progress id code) time c = refl
progress-posted (error_progress id error) time c = refl

record SystemInv (s : System) : Type 0 where
  pub busy : IsBusy s.server
  pub inv : InvOf s.client.operations_by_id s.used (posted_ids s.client.posted) s.server

command-InvOf :
    {by_id : Dict Operation} {used : List ℕ} (posted : List ℕ) (e : Event) (s : OperationQueue)
    → of_command e ≡ true
    → InvOf by_id used posted s
    → InvOf by_id used posted (handle e s)
unfolding handle
command-InvOf posted (reports p) s h inv =
    report-InvOf posted s.started s.aborted p s.running_operation s.queued_operations s.progress inv
command-InvOf posted succeeds s h inv =
    finish-InvOf posted s.started s.aborted s.running_operation s.queued_operations s.progress inv
command-InvOf posted (fails error) s h inv =
    fail-InvOf posted s.started s.aborted error s.running_operation s.queued_operations s.progress
      inv
command-InvOf posted (submit op) s h inv = cc
command-InvOf posted (abort id) s h inv = cc

read-InvOf :
    {by_id : Dict Operation} {used : List ℕ} (m : ClientMessage) (rest : List ClientMessage)
    (s : OperationQueue)
    → IsBusy s
    → InvOf by_id used (posted_ids (m ∷ rest)) s
    → InvOf by_id used (posted_ids rest) (handle (event_of m) s)
unfolding handle
read-InvOf (run_operation op) rest s busy inv =
    run_or_queue-InvOf (posted_ids rest) s.started s.aborted s.running_operation s.queued_operations
      s.progress op busy inv
read-InvOf (abort_running_operation id) rest s busy inv =
    stop-InvOf (posted_ids rest) s.started s.aborted id s.running_operation s.queued_operations
      s.progress inv

Inv-received :
    {by_id : Dict Operation} {used ws : List ℕ} {running : Option ℕ} (p : OperationProgress)
    (rest : List OperationProgress)
    → Inv by_id used running ws (p ∷ rest)
    → Inv (forget (exited p) by_id) used running ws rest
unfolding knows_then outlives
Inv-received p rest inv = record {
  known = ground (arith, inv.known);
  once = inv.once;
  apart = inv.apart;
  fresh = λ id n. ground (arith, inv.fresh id);
}

received-InvOf :
    (s : System) (p : OperationProgress) (rest : List OperationProgress) (time : ℕ)
    → s.server.progress ≡ p ∷ rest
    → InvOf s.client.operations_by_id s.used (posted_ids s.client.posted) s.server
    → InvOf
        (operation_progress p time s.client).operations_by_id
        s.used
        (posted_ids (operation_progress p time s.client).posted)
        (record s.server { progress = rest })
received-InvOf s p rest time e inv =
    rw (progress-operations_by_id p time s.client, progress-posted p time s.client)
      (Inv-received p rest (
        subst
          (Inv s.client.operations_by_id s.used (running_id s.server.running_operation)
            (waiting s.server (posted_ids s.client.posted)))
          e inv))

Step-SystemInv : {s t : System} → Step s t → SystemInv s → SystemInv t
unfolding clear_all_optimistic_state
Step-SystemInv (runs s op now new) v = record {
  busy = v.busy;
  inv =
      rw
        (
          run-operations_by_id op now s.client,
          run-posted op now s.client,
          posted_ids-run s.client.posted op,
        )
        (rw
          (← append_assoc (ids s.server.queued_operations) (posted_ids s.client.posted)
            (op.id ∷ []))
          (Inv-run op new v.inv));
}
Step-SystemInv (aborts s id) v = record {
  busy = v.busy;
  inv =
      rw
        (
          abort-operations_by_id id s.client,
          abort-posted id s.client,
          posted_ids-abort s.client.posted id,
        )
        v.inv;
}
Step-SystemInv (clears s) v = record { busy = v.busy; inv = v.inv }
Step-SystemInv (reads s m rest e) v = record {
  busy = handle-IsBusy (event_of m) s.server v.busy;
  inv = read-InvOf m rest s.server v.busy (rw e at v.inv);
}
Step-SystemInv (commands s e h) v = record {
  busy = handle-IsBusy e s.server v.busy;
  inv = command-InvOf (posted_ids s.client.posted) e s.server h v.inv;
}
Step-SystemInv (receives s p rest time e) v = record {
  busy = v.busy;
  inv = received-InvOf s p rest time e v.inv;
}

Reach-SystemInv : {s : System} → Reach s → SystemInv s
unfolding knows_then knows_all distinct outlives includes
Reach-SystemInv here = record {
  busy = λ _. refl;
  inv = record { known = refl; once = refl; apart = refl; fresh = λ id n. (refl, refl, refl) };
}
Reach-SystemInv (next r st) = Step-SystemInv st (Reach-SystemInv r)

-- Whether a message tells the queue: one that an operation was queued, or has started.
abbrev pub tells_queue : OperationProgress → Bool
tells_queue (queue_progress id queue) = true
tells_queue (spawn_progress id queue) = true
tells_queue p = false

queue-known :
    (p : OperationProgress) (time : ℕ) (c : Client)
    → tells_queue p ≡ true
    → knows_all c.operations_by_id (queue_of p) ≡ true
    → map (λ op. op.id) (operation_progress p time c).queued_operations ≡ queue_of p
unfolding operation_progress
queue-known (queue_progress id queue) time c h k = map-known_operations queue c.operations_by_id k
queue-known (spawn_progress id queue) time c h k = map-known_operations queue c.operations_by_id k
queue-known (stdout_progress id m) time c h k = cc
queue-known (stderr_progress id m) time c h k = cc
queue-known (exit_progress id code) time c h k = cc
queue-known (error_progress id error) time c h k = cc

-- In every state that the client and the server reach together, when each reads the messages of
-- the other in order and every operation has a new id: as the client reads a message that an
-- operation was queued or has started, its queue becomes exactly the queue that the server sent,
-- in order. The client knows each operation, none of which it has forgotten or never heard of.
pub operation_progress-queue :
    (s : System) (p : OperationProgress) (rest : List OperationProgress) (time : ℕ)
    → Reach s
    → s.server.progress ≡ p ∷ rest
    → tells_queue p ≡ true
    → map (λ op. op.id) (operation_progress p time s.client).queued_operations ≡ queue_of p
unfolding knows_then
operation_progress-queue s p rest time r e h =
    let known = (Reach-SystemInv r).inv.known in
    queue-known p time s.client h (ground (arith, rw e at known))
