-- ===== src/Engine/Queries/Stacks.antt =====
-- The stack of a branch, described apart from the walks that collect it.
use freephite.Base.{
  ℕ, zero, suc, ◌<◌, true, false, some, List, [], ◌∷◌, ◌++◌, ◌≡◌, refl, sym, ap, append-nil, ◌≢◌,
  ◌∙◌, arith, lookup, length,
}
use freephite.Base.Action.{Result, ok, err, ◌>>=◌}
use freephite.Metadata.{Name, CachedMeta, ValidMeta, widen}
use freephite.Engine.State.{
  Env, Addr, Engine, is_trunk, get_parent, get_recursive_parents, get_recursive_children,
  valid_or_trunk_meta,
}
use freephite.Engine.Reads.{
  valid_or_trunk_meta-ReadOnly, get_recursive_children-ReadOnly, get_recursive_parents-ReadOnly,
}
use freephite.Engine.Queries.{
  get_relative_stack, scope_stack, scope_downstack, scope_upstack_exclusive,
}

module _ {W : Type 0} (s : Engine W) where
  -- `p` is the parent of the valid branch `b`, which is not trunk.
  pub record IsOn (b p : Name) : Type 0 where
    pub meta : ValidMeta Addr
    pub cached : lookup b s.branches ≡ some (widen meta)
    pub parent : meta.parent_branch_name ≡ p
    pub named : p ≢ 0
    pub branch_not_trunk : is_trunk b s ≡ false

  -- The branches between `b` and trunk, from `b` downwards.
  pub data IsDownstack : Name → List Name → Type 0 where
    on_trunk : {b p : Name} → IsOn b p → is_trunk p s ≡ true → IsDownstack b []
    on_branch :
        {b p : Name} {xs : List Name}
        → IsOn b p
        → is_trunk p s ≡ false
        → IsDownstack p xs
        → IsDownstack b (p ∷ xs)

-- the same branches, from trunk upwards
abbrev pub bottom_first : List Name → List Name
bottom_first [] = []
bottom_first (p ∷ xs) = bottom_first xs ++ p ∷ []

module _ {W : Type 0} (s : Engine W) where
  -- With a stack deeper than the branches between `b` and trunk, `getRecursiveParentsExcludingTrunk`
  -- returns exactly these, the one on trunk first.
  pub get_recursive_parents-IsDownstack :
      (depth : ℕ) (b : Name) (xs : List Name)
      → IsDownstack s b xs
      → length xs < depth
      → get_recursive_parents depth b s ≡ (ok (bottom_first xs), s)
  unfolding get_recursive_parents get_parent ◌>>=◌
  get_recursive_parents-IsDownstack zero b xs d h = absurd (omega arith)
  get_recursive_parents-IsDownstack (suc depth) b _ (on_trunk {p} on t) h =
      ground (arith, on.cached, on.parent, on.named)
  get_recursive_parents-IsDownstack (suc depth) b _ (on_branch {p} {xs} on t d) h = ground (
    arith,
    on.cached,
    on.parent,
    on.named,
    get_recursive_parents-IsDownstack depth p xs d (ground arith),
  )

abbrev names_of : Result (List Name) → List Name
names_of (ok l) = l
names_of (err e) = []

module _ {W : Type 0} (env : Env W) where
  -- Where the downstack of a branch, itself included, and what stands above it are returned, its
  -- whole stack is the one and then the other.
  pub get_relative_stack-split :
      (b : Name) (s : Engine W) (above upper : List Name)
      → get_relative_stack env b scope_downstack s ≡ (ok above, s)
      → get_relative_stack env b scope_upstack_exclusive s ≡ (ok upper, s)
      → get_relative_stack env b scope_stack s ≡ (ok (above ++ upper), s)
  unfolding get_relative_stack ◌>>=◌
  get_relative_stack-split b s above upper e e' =
      go (valid_or_trunk_meta b s) refl (get_recursive_parents env.stack_size b s) refl
        (get_recursive_children env.stack_size b s) refl
    where
      go :
          (x : Result (CachedMeta Addr) × Engine W)
          → valid_or_trunk_meta b s ≡ x
          → (y : Result (List Name) × Engine W) → get_recursive_parents env.stack_size b s ≡ y
          → (z : Result (List Name) × Engine W) → get_recursive_children env.stack_size b s ≡ z
          → get_relative_stack env b scope_stack s ≡ (ok (above ++ upper), s)
      go (err r, s₁) q y q' z q'' = absurd (ground arith)
      go (ok m, s₁) q (err r, s₂) q' z q'' =
          absurd (ground (arith, (valid_or_trunk_meta-ReadOnly b).same s))
      go (ok m, s₁) q (ok ps, s₂) q' (err r, s₃) q'' =
          absurd (ground (arith, (valid_or_trunk_meta-ReadOnly b).same s))
      go (ok m, s₁) q (ok ps, s₂) q' (ok cs, s₃) q'' =
          let same = (valid_or_trunk_meta-ReadOnly b).same s in
          let same' = (get_recursive_children-ReadOnly env.stack_size b).same s in
          let e₁ : s₁ ≡ s = sym (ap (λ x. x.1) q) ∙ same in
          let e₃ : s₃ ≡ s = sym (ap (λ x. x.1) q'') ∙ same' in
          let e₂ : s₂ ≡ s =
            sym (ap (λ x. x.1) q') ∙ (get_recursive_parents-ReadOnly env.stack_size b).same s in
          let q₁ : valid_or_trunk_meta b s ≡ (ok m, s) = q ∙ ap (λ x. (ok m, x)) e₁ in
          let q₂ : get_recursive_parents env.stack_size b s ≡ (ok ps, s) =
            q' ∙ ap (λ x. (ok ps, x)) e₂ in
          let q₃ : get_recursive_children env.stack_size b s ≡ (ok cs, s) =
            q'' ∙ ap (λ x. (ok cs, x)) e₃ in
          let down : get_relative_stack env b scope_downstack s ≡ (ok (ps ++ b ∷ []), s) =
            rw q₁ (rw q₂ (ap (λ l. (ok l, s)) (append-nil (ps ++ b ∷ [])))) in
          let up : get_relative_stack env b scope_upstack_exclusive s ≡ (ok cs, s) =
            rw q₁ (rw q₃ refl) in
          let all : get_relative_stack env b scope_stack s ≡ (ok (ps ++ b ∷ [] ++ cs), s) =
            rw q₁ (rw q₂ (rw q₃ refl)) in
          let ups : ps ++ b ∷ [] ≡ above = ap (λ x. names_of x.0) (sym down ∙ e) in
          let downs : cs ≡ upper = ap (λ x. names_of x.0) (sym up ∙ e') in
          all ∙ ap (λ x. (ok x, s)) (ap (λ x. x ++ cs) ups ∙ ap (λ x. above ++ x) downs)
