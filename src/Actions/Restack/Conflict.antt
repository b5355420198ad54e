-- ===== src/Actions/Restack/Conflict.antt =====
-- What `restackBranches` leaves for `continue` when a rebase conflicts.
use freephite.Base.{false, List, [], ◌∷◌, ◌++◌, ◌≡◌, refl, some, arith, Bool-cases, inl, inr, ◌∙◌}
use freephite.Base.Action.{Result, ok, err, rebase_conflict, ◌>>=◌}
use freephite.Metadata.{Name, Sha}
use freephite.Engine.State.{Engine, is_trunk}
use freephite.Engine.Queries.{get_parent_precondition}
use freephite.Engine.Rebase.{Restacked, conflict, done, unneeded, restack_branch}
use freephite.Actions.Context.{ActionEnv, Context, persist_continuation}
use freephite.Actions.Restack.{after_restack, restack_branches}

module _ {W : Type 0} (env : ActionEnv W) where
  -- A branch that the loop passes leads to one state, from which whatever follows goes on.
  Passes : Name → Context W → Context W → Type 0
  Passes b s s₁ = (ys : List Name) → restack_branches env (b ∷ ys) s ≡ restack_branches env ys s₁

  after_restack_lem :
      (b : Name) (xs : List Name) (o : Restacked) (s s' : Context W)
      → after_restack env b xs (restack_branches env xs) o s ≡ (ok tt, s')
      → (s₁ : Context W) × (restack_branches env xs s₁ ≡ (ok tt, s'))
        × ((ys : List Name)
            → after_restack env b ys (restack_branches env ys) o s ≡ restack_branches env ys s₁)
  unfolding after_restack ◌>>=◌
  after_restack_lem b xs o s s' e = go o (get_parent_precondition b s.engine) refl e
    where
      go :
          (o : Restacked) (x : Result Name × Engine W)
          → get_parent_precondition b s.engine ≡ x
          → after_restack env b xs (restack_branches env xs) o s ≡ (ok tt, s')
          → (s₁ : Context W) × (restack_branches env xs s₁ ≡ (ok tt, s'))
            × ((ys : List Name)
                → after_restack env b ys (restack_branches env ys) o s ≡ restack_branches env ys s₁)
      go (conflict base) (ok p, e₁) q h = absurd (ground arith)
      go (conflict base) (err r, e₁) q h = absurd (ground arith)
      go done (ok p, e₁) q h = (record s { engine = e₁ }, ground arith, λ ys. ground arith)
      go done (err r, e₁) q h = absurd (ground arith)
      go unneeded (ok p, e₁) q h = (record s { engine = e₁ }, ground arith, λ ys. ground arith)
      go unneeded (err r, e₁) q h = absurd (ground arith)

  passes_lem :
      (b : Name) (xs : List Name) (s s' : Context W)
      → restack_branches env (b ∷ xs) s ≡ (ok tt, s')
      → (s₁ : Context W) × (restack_branches env xs s₁ ≡ (ok tt, s')) × Passes b s s₁
  unfolding restack_branches Passes ◌>>=◌
  passes_lem b xs s s' e = elim (Bool-cases (is_trunk b s.engine)) [
    | inl t ↦ (s, ground arith, λ ys. ground arith)
    | inr f ↦ go f (restack_branch env.env b s.engine) refl
  ]
    where
      go :
          is_trunk b s.engine ≡ false
          → (x : Result Restacked × Engine W) → restack_branch env.env b s.engine ≡ x
          → (s₁ : Context W) × (restack_branches env xs s₁ ≡ (ok tt, s')) × Passes b s s₁
      go f (err r, e₁) q = absurd (ground arith)
      go f (ok o, e₁) q =
          let (s₁, h, k) = after_restack_lem b xs o (record s { engine = e₁ }) s' (ground arith) in
          (s₁, h, λ ys. rw f (rw q (k ys)))

  -- The loop over two lists is the loop over the first, and then over the second.
  restack_branches-append :
      (xs ys : List Name) (s s' : Context W)
      → restack_branches env xs s ≡ (ok tt, s')
      → restack_branches env (xs ++ ys) s ≡ restack_branches env ys s'
  unfolding restack_branches Passes
  restack_branches-append [] ys s s' e = ground arith
  restack_branches-append (b ∷ xs) ys s s' e =
      let (s₁, h, k) = passes_lem b xs s s' e in
      k (xs ++ ys) ∙ restack_branches-append xs ys s₁ s' h

  -- Where the branches before `b` are restacked, `b` is not trunk, the rebase of `b` conflicts and
  -- `b` still has a valid parent, the loop stops with the conflict, and leaves for `continue` exactly the branches behind `b`, the base that
  -- `b` is rebased onto, and the current branch.
  pub restack_branches-conflict :
      (xs rest : List Name) (b parent : Name) (base : Sha) (s s' : Context W) (e : Engine W)
      → restack_branches env xs s ≡ (ok tt, s')
      → is_trunk b s'.engine ≡ false
      → restack_branch env.env b s'.engine ≡ (ok (conflict base), e)
      → get_parent_precondition b e ≡ (ok parent, e)
      → restack_branches env (xs ++ b ∷ rest) s ≡ (
        err rebase_conflict,
        record s' {
          engine = e;
          continuation = record {
            branches_to_sync = some [];
            branches_to_restack = some rest;
            current_branch_override = e.current_branch;
            rebased_branch_base = some base;
          };
        },
      )
  unfolding restack_branches after_restack persist_continuation ◌>>=◌
  restack_branches-conflict xs rest b parent base s s' e before h conflicts named =
      restack_branches-append xs (b ∷ rest) s s' before ∙ rw h (rw conflicts (rw named))
