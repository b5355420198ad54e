-- ===== src/Examples/Queues.antt =====
-- Concrete operations and tasks of the server.
use freephite.Base.{ℕ, suc, none, List, [], ◌∷◌, ◌≡◌, refl, length}
use freephite.OperationQueue.{RunnableOperation, submit, succeeds, reports, spawn, new_queue}
use freephite.OperationQueue.Order.{submitted, successes, handle_all_starts_all}
use freephite.RateLimiter.{enqueue, new_rate_limiter}
use freephite.RateLimiter.Fair.{IsFair, handle_all-IsFair, new_rate_limiter-IsFair}
use freephite.OperationQueue
use freephite.RateLimiter

abbrev operation : ℕ → RunnableOperation
operation n = record { id = n; args = n ∷ [] }

abbrev some_events : List OperationQueue.Event
some_events =
    submit (operation 1)
    ∷ reports spawn
    ∷ submit (operation 2)
    ∷ succeeds
    ∷ submit (operation 3)
    ∷ []

abbrev reached : OperationQueue.OperationQueue
reached = OperationQueue.handle_all some_events new_queue

abbrev drained : OperationQueue.OperationQueue
drained = OperationQueue.handle_all (successes (suc (length reached.queued_operations))) reached

handle_all_starts_all_example :
    (drained.started ≡ submitted some_events)
    × (drained.running_operation ≡ none)
    × (drained.queued_operations ≡ [])
handle_all_starts_all_example = handle_all_starts_all some_events refl

abbrev some_tasks : List RateLimiter.Event
some_tasks = enqueue ∷ enqueue ∷ enqueue ∷ RateLimiter.finish 1 ∷ []

handle_all-IsFair_example : IsFair 2 (RateLimiter.handle_all 2 some_tasks new_rate_limiter)
handle_all-IsFair_example =
    handle_all-IsFair 2 some_tasks new_rate_limiter (new_rate_limiter-IsFair 2)
