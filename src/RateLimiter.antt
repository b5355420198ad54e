-- ===== src/RateLimiter.antt =====
-- libs/gti-shared/src/RateLimiter.ts: at most so many tasks run at once, the others wait. A task is
-- an id; `enqueueRun` is what runs up to its await, and `notifyFinished` what ends a task.
pub mod Fair
use freephite.Base.{
  ℕ, suc, Bool, true, false, not, List, [], ◌∷◌, ◌++◌, ◌==◌, leb, length, filter, if◌then◌else◌,
}

-- The fields of `RateLimiter`; `ran` are the ids of the `run` events that were emitted.
pub record RateLimiter : Type 0 where
  pub queued : List ℕ
  pub running : List ℕ
  pub next_id : ℕ
  pub ran : List ℕ

abbrev pub new_rate_limiter : RateLimiter
new_rate_limiter = record { queued = []; running = []; next_id = 1; ran = [] }

-- `run`
abbrev run : ℕ → RateLimiter → RateLimiter
run id s = record s { running = s.running ++ id ∷ []; ran = s.ran ++ id ∷ [] }

abbrev run_first : List ℕ → RateLimiter → RateLimiter
run_first [] s = s
run_first (id ∷ rest) s = run id (record s { queued = rest })

module _ (max_simultaneous_running : ℕ) where
  -- `tryDequeueNext`
  unfoldable pub try_dequeue_next : RateLimiter → RateLimiter
  try_dequeue_next s =
      if leb (suc (length s.running)) max_simultaneous_running then run_first s.queued s else s

  -- `generateId`, and the part of `enqueueRun` in front of the await
  unfoldable pub enqueue_run : RateLimiter → RateLimiter
  unfolding try_dequeue_next
  enqueue_run s =
      try_dequeue_next (record s { next_id = suc s.next_id; queued = s.queued ++ s.next_id ∷ [] })

  -- `notifyFinished`
  unfoldable pub notify_finished : ℕ → RateLimiter → RateLimiter
  unfolding try_dequeue_next
  notify_finished id s =
      try_dequeue_next (record s { running = filter (λ r. not (r == id)) s.running })

-- An event: a call of `enqueueRun`, or the end of a task.
pub data Event : Type 0 where
  enqueue : Event
  finish : ℕ → Event

unfoldable pub handle : ℕ → Event → RateLimiter → RateLimiter
unfolding enqueue_run notify_finished
handle max enqueue s = enqueue_run max s
handle max (finish id) s = notify_finished max id s

unfoldable pub handle_all : ℕ → List Event → RateLimiter → RateLimiter
unfolding handle
handle_all max [] s = s
handle_all max (e ∷ es) s = handle_all max es (handle max e s)
