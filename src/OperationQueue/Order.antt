-- ===== src/OperationQueue/Order.antt =====
-- Operations start one at a time, in the order in which they were submitted, and all of them do.
use freephite.Base.{
  ℕ, zero, suc, ◌<◌, Bool, true, false, Option, none, some, List, [], ◌∷◌, ◌++◌, ◌≡◌, refl, sym, ap,
  ◌∙◌, ◌⊎◌, arith, length, append-nil, append_assoc, Option-cases, Bool-cases, inl, inr, ◌==◌,
  if◌then◌else◌,
}
use mathlib.Core.Path.{subst}
use freephite.OperationQueue.{
  CommandProgress, spawn, stdout, stderr, exit, RunnableOperation, OperationQueue, Event, submit,
  reports, succeeds, fails, abort, handle, handle_all, finish_operation, run_or_queue_operation,
  handle_command_progress, fail_operation, abort_running_operation, new_queue,
}

-- Something waits only while something runs.
abbrev pub IsBusy : OperationQueue → Type 0
IsBusy s = s.running_operation ≡ none → s.queued_operations ≡ []

pub handle-IsBusy : (e : Event) (s : OperationQueue) → IsBusy s → IsBusy (handle e s)
unfolding handle run_or_queue_operation handle_command_progress finish_operation fail_operation
    abort_running_operation
handle-IsBusy (submit op) s h e = ground arith
handle-IsBusy (reports p) s h e = ground arith
handle-IsBusy succeeds s h e = ground arith
handle-IsBusy (fails error) s h e = ground arith
handle-IsBusy (abort id) s h e = ground arith

-- What the events submit, in order.
abbrev pub submitted : List Event → List RunnableOperation
submitted [] = []
submitted (submit op ∷ es) = op ∷ submitted es
submitted (e ∷ es) = submitted es

abbrev is_failure : Event → Bool
is_failure (fails error) = true
is_failure e = false

abbrev pub never_fails : List Event → Bool
never_fails [] = true
never_fails (e ∷ es) = if is_failure e then false else never_fails es

abbrev pub successes : ℕ → List Event
successes zero = []
successes (suc n) = succeeds ∷ successes n

-- What has started, and what waits to.
abbrev order : OperationQueue → List RunnableOperation
order s = s.started ++ s.queued_operations

order-submit :
    (op : RunnableOperation) (s : OperationQueue)
    → IsBusy s
    → order (run_or_queue_operation op s) ≡ order s ++ op ∷ []
unfolding run_or_queue_operation
order-submit op s h = elim (Option-cases s.running_operation) [
  | inl idle ↦ rw idle (
      rw (h idle)
        (append-nil (s.started ++ op ∷ []) ∙ ap (λ l. l ++ op ∷ []) (sym (append-nil s.started))))
  | inr (running, e) ↦ rw e (sym (append_assoc s.started s.queued_operations (op ∷ [])))
]

order-finish : (s : OperationQueue) → order (finish_operation s) ≡ order s
unfolding finish_operation run_or_queue_operation
order-finish s = go s.running_operation refl s.queued_operations refl
  where
    go :
        (o : Option RunnableOperation)
        → s.running_operation ≡ o
        → (q : List RunnableOperation) → s.queued_operations ≡ q
        → order (finish_operation s) ≡ order s
    go none e q e' = rw e refl
    go (some op) e [] e' = rw e (rw e' refl)
    go (some op) e (next ∷ rest) e' = rw e (rw e' (append_assoc s.started (next ∷ []) rest))

order-reports :
    (p : CommandProgress) (s : OperationQueue) → order (handle_command_progress p s) ≡ order s
unfolding handle_command_progress
order-reports p s = elim (Option-cases s.running_operation) [
  | inl e ↦ rw e refl
  | inr (op, e) ↦ go op e p
]
  where
    go :
        (op : RunnableOperation)
        → s.running_operation ≡ some op
        → (p : CommandProgress) → order (handle_command_progress p s) ≡ order s
    go op e spawn = rw e refl
    go op e (stdout m) = rw e refl
    go op e (stderr m) = rw e refl
    go op e (exit c) = rw e refl

order-abort : (id : ℕ) (s : OperationQueue) → order (abort_running_operation id s) ≡ order s
unfolding abort_running_operation
order-abort id s = elim (Option-cases s.running_operation) [
  | inl e ↦ rw e refl
  | inr (op, e) ↦ elim (Bool-cases (op.id == id)) [
    | inl same ↦ rw e (rw same refl)
    | inr other ↦ rw e (rw other refl)
  ]
]

order-handle :
    (e : Event) (s : OperationQueue)
    → is_failure e ≡ false
    → IsBusy s
    → order (handle e s) ≡ order s ++ submitted (e ∷ [])
unfolding handle handle_command_progress abort_running_operation
order-handle (submit op) s n h = order-submit op s h
order-handle (reports p) s n h = order-reports p s ∙ sym (append-nil (order s))
order-handle succeeds s n h = order-finish s ∙ sym (append-nil (order s))
order-handle (fails error) s n h = absurd (ground arith)
order-handle (abort id) s n h = order-abort id s ∙ sym (append-nil (order s))

submitted-cons :
    (e : Event) (es : List Event) → submitted (e ∷ []) ++ submitted es ≡ submitted (e ∷ es)
submitted-cons (submit op) es = refl
submitted-cons (reports p) es = refl
submitted-cons succeeds es = refl
submitted-cons (fails error) es = refl
submitted-cons (abort id) es = refl

-- Nothing runs and nothing waits.
abbrev pub IsIdle : OperationQueue → Type 0
IsIdle s = (s.running_operation ≡ none) × (s.queued_operations ≡ [])

IsIdle-stays : (n : ℕ) (s : OperationQueue) → IsIdle s → IsIdle (handle_all (successes n) s)
unfolding handle_all handle finish_operation
IsIdle-stays zero s h = h
IsIdle-stays (suc n) s h =
    let same : finish_operation s ≡ s = rw (h.0) refl in
    subst (λ s'. IsIdle (handle_all (successes n) s')) (sym same) (IsIdle-stays n s h)

-- A success ends everything, or lets one operation more out of the queue.
finish_progresses :
    (s : OperationQueue)
    → IsBusy s
    → IsIdle (finish_operation s)
      ⊎ (length (finish_operation s).queued_operations < length s.queued_operations)
unfolding finish_operation run_or_queue_operation
finish_progresses s h = go s.running_operation refl s.queued_operations refl
  where
    go :
        (o : Option RunnableOperation)
        → s.running_operation ≡ o
        → (q : List RunnableOperation) → s.queued_operations ≡ q
        → IsIdle (finish_operation s)
          ⊎ (length (finish_operation s).queued_operations < length s.queued_operations)
    go none e q e' = inl (ground (arith, h e))
    go (some op) e [] e' = inl (ground arith)
    go (some op) e (next ∷ rest) e' = inr (ground arith)

-- Successes, more of them than operations wait, leave nothing.
drains :
    (n : ℕ) (s : OperationQueue)
    → IsBusy s
    → length s.queued_operations < n
    → IsIdle (handle_all (successes n) s)
unfolding handle_all handle
drains zero s h few = absurd (omega arith)
drains (suc n) s h few = elim (finish_progresses s h) [
  | inl idle ↦ IsIdle-stays n (finish_operation s) idle
  | inr fewer ↦
      drains n (finish_operation s) (handle-IsBusy succeeds s h) (omega (arith, few, fewer))
]

successes-never_fails : (n : ℕ) → never_fails (successes n) ≡ true
successes-never_fails zero = refl
successes-never_fails (suc n) = successes-never_fails n

successes-submitted : (n : ℕ) → submitted (successes n) ≡ []
successes-submitted zero = refl
successes-submitted (suc n) = successes-submitted n

handle_all-order :
    (es : List Event) (s : OperationQueue)
    → never_fails es ≡ true
    → IsBusy s
    → (order (handle_all es s) ≡ order s ++ submitted es) × IsBusy (handle_all es s)
unfolding handle_all
handle_all-order [] s n h = (sym (append-nil (order s)), h)
handle_all-order (e ∷ es) s n h =
    let one = order-handle e s (ground (arith, n)) h in
    let (rest, busy) = handle_all-order es (handle e s) (ground (arith, n)) (handle-IsBusy e s h) in
    (
      rest
          ∙ ap (λ l. l ++ submitted es) one
          ∙ append_assoc (order s) (submitted (e ∷ [])) (submitted es)
          ∙ ap (λ l. order s ++ l) (submitted-cons e es),
      busy,
    )

-- After any events without an error, successes, one more of them than operations wait, leave
-- nothing that runs or waits, and every operation that was submitted has started, once for each
-- time, in the order of the submissions.
pub handle_all_starts_all :
    (es : List Event)
    → never_fails es ≡ true
    → let s = handle_all es new_queue in
      let s' = handle_all (successes (suc (length s.queued_operations))) s in
      (s'.started ≡ submitted es) × (s'.running_operation ≡ none) × (s'.queued_operations ≡ [])
handle_all_starts_all es n =
    let s = handle_all es new_queue in
    let k = suc (length s.queued_operations) in
    let (first, busy) = handle_all-order es new_queue n (λ e. refl) in
    let (second, busy') = handle_all-order (successes k) s (successes-never_fails k) busy in
    let (idle, empty) = drains k s busy (omega arith) in
    let s' = handle_all (successes k) s in
    (
      sym (append-nil s'.started)
          ∙ ap (λ q. s'.started ++ q) (sym empty)
          ∙ second
          ∙ ap (λ l. order s ++ l) (successes-submitted k)
          ∙ append-nil (order s)
          ∙ first,
      idle,
      empty,
    )
