-- ===== src/ServerApiState/Mirror/Waiting.antt =====
-- The operations that wait at the server of apps/gti-server/src/OperationQueue.ts, with those that
-- the client of apps/gti-client/src/serverAPIState.ts has asked for: they stay known to the client.
use freephite.Base.{
  ℕ, true, false, Option, some, none, List, [], ◌∷◌, ◌++◌, ◌≡◌, refl, sym, ap, ◌∙◌, ◌==◌, includes,
  Dict, insert, append_assoc, Bool-cases, inl, inr, arith,
}
use mathlib.Core.Path.{subst}
use mathlib.Core.List.{map-append}
use freephite.OperationQueue.{
  OperationProgress, queue_progress, spawn_progress, stdout_progress, stderr_progress,
  exit_progress, error_progress, CommandProgress, OperationQueue, RunnableOperation, ids,
  run_or_queue_operation, handle_command_progress, finish_operation, fail_operation,
  abort_running_operation as stop_operation, spawn, stdout, stderr, exit,
}
use freephite.OperationQueue.Order.{IsBusy}
use freephite.ServerApiState.{Operation, ClientMessage, run_operation, abort_running_operation}
use freephite.ServerApiState.Mirror.Known.{
  knows_all, knows_all-append, knows_then, knows_then-insert, knows_then_fewer, knows_then-push,
  queue_of, exited, is_other, outlives, outlives-push, none_exits, distinct, distinct-push,
  distinct-drop, includes-append,
}

abbrev pub posted_ids : List ClientMessage → List ℕ
posted_ids [] = []
posted_ids (run_operation op ∷ ms) = op.id ∷ posted_ids ms
posted_ids (abort_running_operation id ∷ ms) = posted_ids ms

-- The ids of the operations that have not started.
abbrev pub waiting : OperationQueue → List ℕ → List ℕ
waiting s posted = ids s.queued_operations ++ posted

abbrev pub running_id : Option RunnableOperation → Option ℕ
running_id none = none
running_id (some op) = some op.id

-- `running` is the id of the running operation, `ws` the ids of those that wait, `ps` the messages
-- under way to the client.
pub record Inv (by_id : Dict Operation) (used : List ℕ) (running : Option ℕ) (ws : List ℕ)
    (ps : List OperationProgress) : Type 0 where
  pub known : knows_then by_id ps ws ≡ true
  pub once : distinct ws ≡ true
  pub apart : none_exits running ws ≡ true
  pub fresh :
      (id : ℕ)
      → includes id used ≡ false
      → (includes id ws ≡ false) × (is_other id running ≡ true) × (outlives id ps ≡ true)

none_exits-push :
    (o : Option ℕ) (ws : List ℕ) (id : ℕ)
    → is_other id o ≡ true
    → none_exits o ws ≡ true
    → none_exits o (ws ++ id ∷ []) ≡ true
unfolding includes
none_exits-push none ws id h g = refl
none_exits-push (some j) ws id h g = ground (arith, includes-append j ws (id ∷ []))

module _ {by_id : Dict Operation} {used ws : List ℕ} {running : Option ℕ}
    {ps : List OperationProgress} where
  -- The client runs a new operation.
  pub Inv-run :
      (op : Operation)
      → includes op.id used ≡ false
      → Inv by_id used running ws ps
      → Inv (insert op.id op by_id) (op.id ∷ used) running (ws ++ op.id ∷ []) ps
  unfolding includes
  Inv-run op new inv =
      let now = inv.fresh op.id new in
      record {
        known = knows_then-insert ps by_id ws op now.2 inv.known;
        once = distinct-push ws op.id inv.once now.0;
        apart = none_exits-push running ws op.id now.1 inv.apart;
        fresh = λ id n. ground (arith, includes-append id ws (op.id ∷ []), inv.fresh id);
      }

  -- The server sends a message about operations that wait.
  Inv-tell :
      (p : OperationProgress)
      → ((d : Dict Operation) → knows_all d ws ≡ true → knows_all d (queue_of p) ≡ true)
      → exited p ≡ none
      → Inv by_id used running ws ps
      → Inv by_id used running ws (ps ++ p ∷ [])
  Inv-tell p f e inv = record {
    known = knows_then-push ps by_id ws p f (rw e refl) inv.known;
    once = inv.once;
    apart = inv.apart;
    fresh = λ id n. ground (arith, outlives-push id ps p, inv.fresh id, e);
  }

  -- No operation runs any more.
  Inv-idle : Inv by_id used running ws ps → Inv by_id used none ws ps
  Inv-idle inv = record {
    known = inv.known;
    once = inv.once;
    apart = refl;
    fresh = λ id n. ground (arith, inv.fresh id);
  }

-- The server tells that the running operation has exited.
Inv-exit :
    {by_id : Dict Operation} {used ws : List ℕ} {ps : List OperationProgress} (id code : ℕ)
    → Inv by_id used (some id) ws ps
    → Inv by_id used (some id) ws (ps ++ exit_progress id code ∷ [])
unfolding knows_all
Inv-exit {by_id} {used} {ws} {ps} id code inv = record {
  known = knows_then-push ps by_id ws (exit_progress id code) (λ d h. refl) inv.apart inv.known;
  once = inv.once;
  apart = inv.apart;
  fresh = λ j n. ground (arith, outlives-push j ps (exit_progress id code), inv.fresh j);
}

-- The first of those that wait starts.
Inv-start :
    {by_id : Dict Operation} {used ws : List ℕ} {ps : List OperationProgress} (id : ℕ)
    → Inv by_id used none (id ∷ ws) ps
    → Inv by_id used (some id) ws ps
unfolding knows_all distinct includes
Inv-start {by_id} {used} {ws} {ps} id inv = record {
  known = knows_then_fewer ps by_id (id ∷ ws) ws (λ d h. ground arith) inv.known;
  once = ground (arith, inv.once);
  apart = ground (arith, inv.once);
  fresh = λ j n. ground (arith, inv.fresh j);
}

-- All that are in the server's queue are dropped.
Inv-clear :
    {by_id : Dict Operation} {used : List ℕ} {running : Option ℕ} {ps : List OperationProgress}
    (qs ws : List ℕ)
    → Inv by_id used running (qs ++ ws) ps
    → Inv by_id used none ws ps
Inv-clear {by_id} {used} {running} {ps} qs ws inv = record {
  known =
      knows_then_fewer ps by_id (qs ++ ws) ws (λ d h. ground (arith, knows_all-append d qs ws))
        inv.known;
  once = distinct-drop qs ws inv.once;
  apart = refl;
  fresh = λ id n. ground (arith, includes-append id qs ws, inv.fresh id);
}

-- The invariant of a server whose requests to run are `posted`.
abbrev pub InvOf : Dict Operation → List ℕ → List ℕ → OperationQueue → Type 0
InvOf by_id used posted s =
    Inv by_id used (running_id s.running_operation) (waiting s posted) s.progress

abbrev pub server :
    List RunnableOperation
    → Option RunnableOperation
    → List RunnableOperation
    → List OperationProgress
    → List ℕ
    → OperationQueue
server queue running began ps stopped = record {
  queued_operations = queue;
  running_operation = running;
  started = began;
  progress = ps;
  aborted = stopped;
}

knows_front :
    (d : Dict Operation) (xs ys : List ℕ) → knows_all d (xs ++ ys) ≡ true → knows_all d xs ≡ true
knows_front d xs ys h = ground (arith, knows_all-append d xs ys)

module _ {by_id : Dict Operation} {used : List ℕ} (posted : List ℕ) (st : List RunnableOperation)
    (ab : List ℕ) where
  queue-InvOf :
      (q : List RunnableOperation) (ps : List OperationProgress) (op r : RunnableOperation)
      → InvOf by_id used (op.id ∷ posted) (server q (some r) st ps ab)
      → InvOf by_id used posted (run_or_queue_operation op (server q (some r) st ps ab))
  unfolding run_or_queue_operation
  queue-InvOf q ps op r inv =
      let told = ids (q ++ op ∷ []) in
      let same : ids q ++ op.id ∷ posted ≡ told ++ posted = sym (
        ap (λ l. l ++ posted) (map-append (λ (o : RunnableOperation). o.id) q (op ∷ []))
        ∙ append_assoc (ids q) (op.id ∷ []) posted) in
      Inv-tell (queue_progress op.id told) (λ d h. knows_front d told posted h) refl
        (subst (λ ws. Inv by_id used (some r.id) ws ps) same inv)

  pub run_or_queue-InvOf :
      (run : Option RunnableOperation) (q : List RunnableOperation) (ps : List OperationProgress)
      (op : RunnableOperation)
      → IsBusy (server q run st ps ab)
      → InvOf by_id used (op.id ∷ posted) (server q run st ps ab)
      → InvOf by_id used posted (run_or_queue_operation op (server q run st ps ab))
  unfolding run_or_queue_operation
  run_or_queue-InvOf none [] ps op busy inv = Inv-start op.id inv
  run_or_queue-InvOf none (o ∷ q) ps op busy inv = absurd (cc (busy refl))
  run_or_queue-InvOf (some r) q ps op busy inv = queue-InvOf q ps op r inv

  pub report-InvOf :
      (p : CommandProgress) (run : Option RunnableOperation) (q : List RunnableOperation)
      (ps : List OperationProgress)
      → InvOf by_id used posted (server q run st ps ab)
      → InvOf by_id used posted (handle_command_progress p (server q run st ps ab))
  unfolding handle_command_progress knows_all
  report-InvOf p none q ps inv = inv
  report-InvOf spawn (some r) q ps inv =
      Inv-tell (spawn_progress r.id (ids q)) (λ d h. knows_front d (ids q) posted h) refl inv
  report-InvOf (stdout m) (some r) q ps inv =
      Inv-tell (stdout_progress r.id m) (λ d h. refl) refl inv
  report-InvOf (stderr m) (some r) q ps inv =
      Inv-tell (stderr_progress r.id m) (λ d h. refl) refl inv
  report-InvOf (exit code) (some r) q ps inv = Inv-exit r.id code inv

  pub finish-InvOf :
      (run : Option RunnableOperation) (q : List RunnableOperation) (ps : List OperationProgress)
      → InvOf by_id used posted (server q run st ps ab)
      → InvOf by_id used posted (finish_operation (server q run st ps ab))
  unfolding finish_operation run_or_queue_operation
  finish-InvOf none q ps inv = inv
  finish-InvOf (some r) [] ps inv = Inv-idle inv
  finish-InvOf (some r) (o ∷ q) ps inv = Inv-start o.id (Inv-idle inv)

  pub fail-InvOf :
      (error : ℕ) (run : Option RunnableOperation) (q : List RunnableOperation)
      (ps : List OperationProgress)
      → InvOf by_id used posted (server q run st ps ab)
      → InvOf by_id used posted (fail_operation error (server q run st ps ab))
  unfolding fail_operation knows_all
  fail-InvOf error none q ps inv = inv
  fail-InvOf error (some r) q ps inv =
      Inv-tell (error_progress r.id error) (λ d h. refl) refl (Inv-clear (ids q) posted inv)

  pub stop-InvOf :
      (id : ℕ) (run : Option RunnableOperation) (q : List RunnableOperation)
      (ps : List OperationProgress)
      → InvOf by_id used posted (server q run st ps ab)
      → InvOf by_id used posted (stop_operation id (server q run st ps ab))
  unfolding stop_operation
  stop-InvOf id none q ps inv = inv
  stop-InvOf id (some r) q ps inv = elim (Bool-cases (r.id == id)) [
    | inl same ↦ rw same inv
    | inr other ↦ rw other inv
  ]
