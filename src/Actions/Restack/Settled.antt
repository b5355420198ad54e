-- ===== src/Actions/Restack/Settled.antt =====
-- `restackBranches` on branches that stand on their parents.
use freephite.Base.{true, some, List, [], ◌∷◌, ◌≡◌, refl, arith, lookup, Bool-cases, inl, inr}
use freephite.Base.Action.{ok, ◌>>=◌}
use freephite.Metadata.{Name, CachedMeta, ValidMeta, widen}
use freephite.Engine.State.{
  Addr, Engine, is_trunk, is_branch_fixed, valid_or_trunk_meta, valid_meta,
}
use freephite.Engine.Queries.{get_parent_precondition}
use freephite.Engine.Rebase.{unneeded, restack_branch}
use freephite.Actions.Context.{ActionEnv, Context}
use freephite.Actions.Restack.{after_restack, restack_branches}

-- The branch is valid, and stands on the revision that its parent has in the cache.
pub record IsSettled {W : Type 0} (s : Engine W) (b : Name) : Type 0 where
  pub meta : ValidMeta Addr
  pub cached : lookup b s.branches ≡ some (widen meta)
  pub parent : CachedMeta Addr
  pub parent_cached : lookup meta.parent_branch_name s.branches ≡ some parent
  pub restacked : meta.parent_branch_revision ≡ parent.branch_revision

abbrev pub AllSettled : {W : Type 0} → Engine W → List Name → Type 0
AllSettled s [] = Unit {0}
AllSettled s (b ∷ rest) = IsSettled s b × AllSettled s rest

module _ {W : Type 0} (env : ActionEnv W) where
  meta_lem :
      (b : Name) (s : Engine W) (h : IsSettled s b)
      → valid_or_trunk_meta b s ≡ (ok (widen h.meta), s)
  unfolding valid_or_trunk_meta
  meta_lem b s h = ground (arith, h.cached)

  parent_lem :
      (b : Name) (s : Engine W) (h : IsSettled s b)
      → get_parent_precondition b s ≡ (ok h.meta.parent_branch_name, s)
  unfolding get_parent_precondition valid_meta ◌>>=◌
  parent_lem b s h = ground (arith, h.cached)

  fixed_lem : (b : Name) (s : Engine W) → IsSettled s b → is_branch_fixed b s ≡ (ok true, s)
  unfolding is_branch_fixed valid_or_trunk_meta ◌>>=◌
  fixed_lem b s h = ground (arith, h.cached, h.parent_cached, h.restacked)

  restack_branch_settled :
      (b : Name) (s : Engine W) → IsSettled s b → restack_branch env.env b s ≡ (ok unneeded, s)
  unfolding restack_branch ◌>>=◌
  restack_branch_settled b s h = rw (meta_lem b s h) (rw (fixed_lem b s h) refl)

  -- Where every branch of the list is valid and the stored revision of its parent is the one that the
  -- parent has in the cache, restacking the list returns and changes nothing.
  pub restack_branches_settled :
      (bs : List Name) (s : Context W)
      → AllSettled s.engine bs
      → restack_branches env bs s ≡ (ok tt, s)
  unfolding restack_branches after_restack ◌>>=◌
  restack_branches_settled [] s h = refl
  restack_branches_settled (b ∷ rest) s (h, hs) = elim (Bool-cases (is_trunk b s.engine)) [
    | inl t ↦ rw t (restack_branches_settled rest s hs)
    | inr f ↦ rw f (
        rw (restack_branch_settled b s.engine h)
          (rw (parent_lem b s.engine h) (restack_branches_settled rest s hs)))
  ]
