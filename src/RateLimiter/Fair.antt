-- ===== src/RateLimiter/Fair.antt =====
-- Never too many tasks run, and they are let in by the order in which they came.
use freephite.Base.{
  ℕ, zero, suc, ◌-◌, ◌≤◌, ◌<◌, Bool, true, not, List, [], ◌∷◌, ◌++◌, ◌≡◌, refl, sym, ap, ◌∙◌, arith,
  length, length-append, append_assoc, leb, ◌==◌, filter, Bool-cases, inl, inr,
}
use freephite.RateLimiter.{
  RateLimiter, new_rate_limiter, try_dequeue_next, enqueue_run, notify_finished, Event, enqueue,
  finish, handle, handle_all,
}

-- The first `n` ids that are generated.
abbrev pub issued : ℕ → List ℕ
issued zero = []
issued (suc n) = issued n ++ suc n ∷ []

length-filter : (f : ℕ → Bool) (xs : List ℕ) → length (filter f xs) ≤ length xs
length-filter f [] = omega arith
length-filter f (x ∷ xs) = ground (arith, length-filter f xs)

-- At most `max` tasks run; the tasks that ran and those that wait are all that came, in order.
pub record IsFair (max : ℕ) (s : RateLimiter) : Type 0 where
  pub bounded : length s.running ≤ max
  pub issues : 0 < s.next_id
  pub in_order : s.ran ++ s.queued ≡ issued (s.next_id - 1)

try_dequeue_next-IsFair :
    (max : ℕ) (s : RateLimiter) → IsFair max s → IsFair max (try_dequeue_next max s)
unfolding try_dequeue_next
try_dequeue_next-IsFair max s h = elim (Bool-cases (leb (suc (length s.running)) max)) [
  | inr full ↦ rw full h
  | inl free ↦ go s.queued refl free
]
  where
    go :
        (q : List ℕ)
        → s.queued ≡ q
        → leb (suc (length s.running)) max ≡ true
        → IsFair max (try_dequeue_next max s)
    go [] e free = rw free (
        rw e (record {
          bounded = h.bounded;
          issues = h.issues;
          in_order = ap (λ q. s.ran ++ q) (sym e) ∙ h.in_order;
        }))
    go (id ∷ rest) e free = rw free (
        rw e (record {
          bounded = rw length-append (ground arith);
          issues = h.issues;
          in_order = append_assoc s.ran (id ∷ []) rest ∙ ap (λ q. s.ran ++ q) (sym e) ∙ h.in_order;
        }))

handle-IsFair : (max : ℕ) (e : Event) (s : RateLimiter) → IsFair max s → IsFair max (handle max e s)
unfolding handle enqueue_run notify_finished
handle-IsFair max enqueue s h =
    let same : suc s.next_id - 1 ≡ s.next_id = omega arith in
    try_dequeue_next-IsFair max
      (record s { next_id = suc s.next_id; queued = s.queued ++ s.next_id ∷ [] })
      (record {
        bounded = h.bounded;
        issues = omega arith;
        in_order =
            sym (append_assoc s.ran s.queued (s.next_id ∷ []))
            ∙ ap (λ l. l ++ s.next_id ∷ []) h.in_order
            ∙ next_issue s.next_id h.issues
            ∙ ap issued (sym same);
      })
  where
    next_issue : (n : ℕ) → 0 < n → issued (n - 1) ++ n ∷ [] ≡ issued n
    next_issue zero p = absurd (omega arith)
    next_issue (suc n) p = let e : suc n - 1 ≡ n = omega arith in ap (λ k. issued k ++ suc n ∷ []) e
handle-IsFair max (finish id) s h =
    try_dequeue_next-IsFair max (record s { running = filter (λ r. not (r == id)) s.running })
      (record {
        bounded = omega (arith, length-filter (λ r. not (r == id)) s.running, h.bounded);
        issues = h.issues;
        in_order = h.in_order;
      })

-- Whatever tasks come and end in whatever order, never more than `max` of them run, and the tasks
-- let in so far are the first ones that came, in that order; the others wait in that order.
pub handle_all-IsFair :
    (max : ℕ) (es : List Event) (s : RateLimiter) → IsFair max s → IsFair max (handle_all max es s)
unfolding handle_all
handle_all-IsFair max [] s h = h
handle_all-IsFair max (e ∷ es) s h =
    handle_all-IsFair max es (handle max e s) (handle-IsFair max e s h)

pub new_rate_limiter-IsFair : (max : ℕ) → IsFair max new_rate_limiter
new_rate_limiter-IsFair max = record {
  bounded = omega arith;
  issues = omega arith;
  in_order = refl;
}
