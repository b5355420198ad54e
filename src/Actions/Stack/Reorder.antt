-- ===== src/Actions/Stack/Reorder.antt =====
-- What `reorderBranches` makes of the parents of the branches.
use freephite.Base.{
  Bool, true, false, not, ◌&&◌, some, List, [], ◌∷◌, ◌≡◌, refl, ◌∙◌, sym, ap, arith, includes,
}
use freephite.Base.Action.{ok}
use freephite.Base.Action.Keeps.{bind-ok}
use freephite.Metadata.{Name}
use freephite.Engine.State.{Engine, get_parent}
use freephite.Engine.Update.{set_parent}
use freephite.Engine.Update.Parents.{set_parent-moves}
use freephite.Actions.Context.{ActionEnv}
use freephite.Actions.Stack.{reorder_branches}
use mathlib.Core.Path.{subst}

-- Every branch stands on the one before it, the first on `p`.
abbrev pub IsChain : {W : Type 0} → Engine W → Name → List Name → Type 0
IsChain s p [] = Unit {0}
IsChain s p (b ∷ rest) = (get_parent b s ≡ some p) × IsChain s b rest

-- No name comes twice.
abbrev pub distinct : List Name → Bool
distinct [] = true
distinct (b ∷ rest) = not (includes b rest) && distinct rest

module _ {W : Type 0} (env : ActionEnv W) where
  -- Branches that are not reordered keep their parents.
  reorder_branches-others :
      (n p : Name) (bs : List Name) (s : Engine W)
      → includes n bs ≡ false
      → (reorder_branches env p bs s).0 ≡ ok tt
      → get_parent n (reorder_branches env p bs s).1 ≡ get_parent n s
  unfolding reorder_branches includes
  reorder_branches-others n p [] s h returned = refl
  reorder_branches-others n p (b ∷ rest) s h returned =
      let (u, e, step) =
        bind-ok (set_parent env.env b p) (λ x. reorder_branches env b rest) s tt returned in
      ap (λ x. get_parent n x.1) step
      ∙ reorder_branches-others n b rest (set_parent env.env b p s).1 (ground (arith, h))
          (sym (ap (λ x. x.0) step) ∙ returned)
      ∙ set_parent-moves env.env b p n s e
      ∙ ground (arith, h)

  -- Where the branches are distinct and `reorderBranches` returns, each of them stands on the
  -- one before it, and the first on the given parent.
  pub reorder_branches-IsChain :
      (p : Name) (bs : List Name) (s : Engine W)
      → distinct bs ≡ true
      → (reorder_branches env p bs s).0 ≡ ok tt
      → IsChain (reorder_branches env p bs s).1 p bs
  unfolding reorder_branches
  reorder_branches-IsChain p [] s h returned = tt
  reorder_branches-IsChain p (b ∷ rest) s h returned =
      let (u, e, step) =
        bind-ok (set_parent env.env b p) (λ x. reorder_branches env b rest) s tt returned in
      let s₁ = (set_parent env.env b p s).1 in
      let returned' = sym (ap (λ x. x.0) step) ∙ returned in
      let moved : get_parent b s₁ ≡ some p = set_parent-moves env.env b p b s e ∙ ground arith in
      let stays = reorder_branches-others b b rest s₁ (ground (arith, h)) returned' in
      (
        ap (λ x. get_parent b x.1) step ∙ stays ∙ moved,
        subst (λ x. IsChain x.1 b rest) (sym step)
            (reorder_branches-IsChain b rest s₁ (ground (arith, h)) returned'),
      )
