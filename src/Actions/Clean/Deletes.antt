-- ===== src/Actions/Clean/Deletes.antt =====
-- The loop that deletes the branches that nothing blocks ends.
use freephite.Base.{
  ℕ, zero, suc, ◌<◌, ◌≤◌, true, false, not, none, some, List, [], ◌∷◌, ◌≡◌, ◌≢◌, refl, sym, ap, ◌∙◌,
  ◌&&◌, ◌⊎◌, arith, length, lookup, insert, delete, includes, filter, is_some, ◌==◌, lookup-insert,
  lookup-delete, Option-cases, Bool-cases, inl, inr, if◌then◌else◌, Dict,
}
use freephite.Base.Action.{Error, Action, Result, ok, err, and_then, ◌>>=◌}
use mathlib.Core.Path.{subst}
use freephite.Metadata.{Name}
use freephite.Engine.Queries.{get_parent_precondition}
use freephite.Actions.Context.{ActionEnv, Context, on_engine}
use freephite.Actions.Stack.{delete_branch_action}
use freephite.Actions.Clean.{Marked, is_unblocked, unblock, delete_unblocked}

-- The branches of a stack are distinct, and marked without anything that blocks them.
abbrev pub AllFree : List Name → Marked → Type 0
AllFree [] marked = Unit {0}
AllFree (b ∷ stack) marked =
    (lookup b marked ≡ some []) × (includes b stack ≡ false) × AllFree stack marked

unblock-none :
    (p b : Name) (marked : Marked) → lookup p marked ≡ none → unblock p b marked ≡ (marked, false)
unfolding unblock
unblock-none p b marked e = rw (e, unblock) refl

unblock-some :
    (p b : Name) (cs : List Name) (marked : Marked)
    → lookup p marked ≡ some cs
    → let left = filter (λ c. not (c == b)) cs in
      unblock p b marked ≡ (insert p left marked, includes b cs && is_unblocked (p, left))
unfolding unblock
unblock-some p b cs marked e = rw (e, unblock) refl

AllFree-unblock :
    (p b : Name) (stack : List Name) (marked : Marked)
    → AllFree stack marked
    → AllFree stack (unblock p b marked).0
AllFree-unblock p b [] marked h = tt
AllFree-unblock p b (x ∷ stack) marked (free, fresh, rest) =
    (still, fresh, AllFree-unblock p b stack marked rest)
  where
    still : lookup x (unblock p b marked).0 ≡ some []
    still = elim (Option-cases (lookup p marked)) [
      | inl e ↦ rw (unblock-none p b marked e) free
      | inr (cs, e) ↦
          rw (unblock-some p b cs marked e)
            (ground (arith, lookup-insert p x (filter (λ c. not (c == b)) cs) marked, e, free))
    ]

AllFree-delete :
    (b : Name) (stack : List Name) (marked : Marked)
    → includes b stack ≡ false
    → AllFree stack marked
    → AllFree stack (delete b marked)
unfolding includes
AllFree-delete b [] marked n h = tt
AllFree-delete b (x ∷ stack) marked n (free, fresh, rest) = (
  lookup-delete b x marked ∙ ground (arith, n, free),
  fresh,
  AllFree-delete b stack marked (ground (arith, n)) rest,
)

-- A marked branch that still has a blocker is not in the stack.
fresh_lem :
    (p : Name) (c : Name) (cs : List Name) (stack : List Name) (marked : Marked)
    → lookup p marked ≡ some (c ∷ cs)
    → AllFree stack marked
    → includes p stack ≡ false
unfolding includes
fresh_lem p c cs [] marked e h = refl
fresh_lem p c cs (x ∷ stack) marked e (free, fresh, rest) =
    ground (arith, fresh_lem p c cs stack marked e rest)

module _ {V : Type 0} where
  length-insert :
      (k : ℕ) (v : V) (d : Dict V) → is_some (lookup k d) ≡ true → length (insert k v d) ≡ length d
  unfolding lookup insert
  length-insert k v [] h = absurd (ground arith)
  length-insert k v ((j, w) ∷ d) h = ground (arith, length-insert k v d)

  length-delete_≤ : (k : ℕ) (d : Dict V) → length (delete k d) ≤ length d
  unfolding delete
  length-delete_≤ k [] = omega arith
  length-delete_≤ k ((j, w) ∷ d) = ground (arith, length-delete_≤ k d)

  length-delete :
      (k : ℕ) (d : Dict V) → is_some (lookup k d) ≡ true → length (delete k d) < length d
  unfolding lookup delete
  length-delete k [] h = absurd (ground arith)
  length-delete k ((j, w) ∷ d) h = ground (arith, length-delete k d, length-delete_≤ k d)

length-unblock : (p b : Name) (marked : Marked) → length (unblock p b marked).0 ≡ length marked
length-unblock p b marked = elim (Option-cases (lookup p marked)) [
  | inl e ↦ rw (unblock-none p b marked e) refl
  | inr (cs, e) ↦ rw (unblock-some p b cs marked e) (length-insert p _ marked (rw e refl))
]

-- What `unblock` says when it frees the parent.
unblock_frees :
    (p b : Name) (stack : List Name) (marked : Marked)
    → AllFree (b ∷ stack) marked
    → (unblock p b marked).1 ≡ true
    → AllFree (p ∷ stack) (unblock p b marked).0 × (b ≢ p)
unfolding includes
unblock_frees p b stack marked (free, fresh, rest) freed = elim (Option-cases (lookup p marked)) [
  | inl e ↦ absurd (ground (arith, unblock-none p b marked e))
  | inr (cs, e) ↦ go cs e
]
  where
    go :
        (cs : List Name)
        → lookup p marked ≡ some cs
        → AllFree (p ∷ stack) (unblock p b marked).0 × (b ≢ p)
    go [] e = absurd (ground (arith, unblock-some p b [] marked e))
    go (c ∷ cs) e =
        let left = filter (λ x. not (x == b)) (c ∷ cs) in
        let kept : is_unblocked (p, left) ≡ true =
          ground (arith, unblock-some p b (c ∷ cs) marked e, freed) in
        (
          (
            rw (unblock-some p b (c ∷ cs) marked e)
                (lookup-insert p p left marked ∙ emptied left kept),
            fresh_lem p c cs stack marked e rest,
            AllFree-unblock p b stack marked rest,
          ),
          λ same. ground (arith, e, free),
        )
      where
        emptied :
            (left : List Name)
            → is_unblocked (p, left) ≡ true
            → (if p == p then some left else lookup p marked) ≡ some []
        emptied [] k = ground arith
        emptied (x ∷ xs) k = absurd (ground arith)

next_round :
    (p b : Name) (stack : List Name) (marked : Marked)
    → AllFree (b ∷ stack) marked
    → AllFree
        (if (unblock p b marked).1 then p ∷ stack else stack)
        (delete b (unblock p b marked).0)
      × (length (delete b (unblock p b marked).0) < length marked)
unfolding includes
next_round p b stack marked h = (
  elim (Bool-cases (unblock p b marked).1) [
    | inl e ↦
        let (all, ne) = unblock_frees p b stack marked h e in
        rw e (AllFree-delete b (p ∷ stack) _ (ground (arith, h.1, ne)) all)
    | inr e ↦ rw e (AllFree-delete b stack _ (h.1) (AllFree-unblock p b stack marked (h.2)))
  ],
  omega (
    arith,
    length-delete b (unblock p b marked).0 (rw ((AllFree-unblock p b (b ∷ stack) marked h).0) refl),
    length-unblock p b marked,
  ),
)

-- What a call has returned or thrown, with the state it leaves.
call_cases :
    {S A : Type 0} (r : Result A × S)
    → ((a : A) × (s : S) × (r ≡ (ok a, s))) ⊎ ((e : Error) × (s : S) × (r ≡ (err e, s)))
call_cases (ok a, s) = inl (a, s, refl)
call_cases (err e, s) = inr (e, s, refl)

bind-thrown :
    {S A B : Type 0} (m : Action S A) (f : A → Action S B) (s s' : S) (e : Error)
    → m s ≡ (err e, s')
    → (m >>= f) s ≡ (err e, s')
unfolding ◌>>=◌
bind-thrown m f s s' e h = ap (λ r. and_then (r.0) f (r.1)) h

bind-returned :
    {S A B : Type 0} (m : Action S A) (f : A → Action S B) (s s' : S) (a : A)
    → m s ≡ (ok a, s')
    → (m >>= f) s ≡ f a s'
unfolding ◌>>=◌
bind-returned m f s s' a h = ap (λ r. and_then (r.0) f (r.1)) h

module _ {W : Type 0} (env : ActionEnv W) where
  -- The rounds of the loop, to their end: the stack is empty, or one of the two calls of a round
  -- throws. No number bounds them here.
  pub data Deletes : List Name → Marked → Context W → Result Marked × Context W → Type 0 where
    nothing_left : (marked : Marked) (s : Context W) → Deletes [] marked s (ok marked, s)
    no_parent :
        (b : Name) (stack : List Name) (marked : Marked) (s s' : Context W) (e : Error)
        → on_engine (get_parent_precondition b) s ≡ (err e, s')
        → Deletes (b ∷ stack) marked s (err e, s')
    not_deleted :
        (b p : Name) (stack : List Name) (marked : Marked) (s s₁ s₂ : Context W) (e : Error)
        → on_engine (get_parent_precondition b) s ≡ (ok p, s₁)
        → delete_branch_action env b true s₁ ≡ (err e, s₂)
        → Deletes (b ∷ stack) marked s (err e, s₂)
    deleted :
        (b p : Name) (stack : List Name) (marked : Marked) (s s₁ s₂ : Context W)
        (r : Result Marked × Context W)
        → on_engine (get_parent_precondition b) s ≡ (ok p, s₁)
        → delete_branch_action env b true s₁ ≡ (ok tt, s₂)
        → Deletes
            (if (unblock p b marked).1 then p ∷ stack else stack)
            (delete b (unblock p b marked).0)
            s₂
            r
        → Deletes (b ∷ stack) marked s r

  -- Where the branches of the stack are distinct and nothing blocks them, the loop with as many
  -- rounds as branches are marked, or more, comes to its end: the stack is empty, or the look at the
  -- parent or the deletion of a branch throws. It is never stopped for want of rounds.
  pub delete_unblocked-Deletes :
      (rounds : ℕ) (stack : List Name) (marked : Marked) (s : Context W)
      → AllFree stack marked
      → length marked ≤ rounds
      → Deletes stack marked s (delete_unblocked env rounds stack marked s)
  unfolding delete_unblocked ◌>>=◌
  delete_unblocked-Deletes rounds [] marked s h few = nothing_left marked s
  delete_unblocked-Deletes zero (b ∷ stack) marked s h few =
      absurd (omega (arith, few, (next_round b b stack marked h).1))
  delete_unblocked-Deletes (suc rounds) (b ∷ stack) marked s h few =
      let Ends = Deletes (b ∷ stack) marked s in
      let finds = on_engine (get_parent_precondition b) in
      let deletes = delete_branch_action env b true in
      let goes_on : Name → Unit {0} → Action (Context W) Marked = λ p u.
        delete_unblocked env rounds (if (unblock p b marked).1 then p ∷ stack else stack)
          (delete b (unblock p b marked).0) in
      let then_deletes : Name → Action (Context W) Marked = λ p. deletes >>= goes_on p in
      elim (call_cases (on_engine (get_parent_precondition b) s)) [
        | inr (e, s', thrown) ↦
            subst Ends (sym (bind-thrown finds then_deletes s s' e thrown))
              (no_parent b stack marked s s' e thrown)
        | inl (p, s₁, found) ↦ elim (call_cases (delete_branch_action env b true s₁)) [
          | inr (e, s₂, thrown) ↦
              subst Ends
                (sym (
                  bind-returned finds then_deletes s s₁ p found
                  ∙ bind-thrown deletes (goes_on p) s₁ s₂ e thrown))
                (not_deleted b p stack marked s s₁ s₂ e found thrown)
          | inl (u, s₂, gone) ↦
              let (all, fewer) = next_round p b stack marked h in
              subst Ends
                (sym (
                  bind-returned finds then_deletes s s₁ p found
                  ∙ bind-returned deletes (goes_on p) s₁ s₂ u gone))
                (deleted b p stack marked s s₁ s₂ _ found gone
                  (delete_unblocked-Deletes rounds _ _ s₂ all (omega (arith, few, fewer))))
        ]
      ]
