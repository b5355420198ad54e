-- ===== src/Engine/Queries/Descendants.antt =====
-- `getRecursiveChildren` finds every descendant, and `setParent` refuses them all.
use freephite.Base.{
  ℕ, zero, suc, Bool, true, false, ◌||◌, some, List, [], ◌∷◌, ◌++◌, ◌≡◌, refl, sym, ap, ◌∙◌, ◌⊎◌,
  inl, inr, arith, ◌==◌, lookup, includes, filter, Bool-cases, eq_cases,
}
use freephite.Base.Action.{Error, Result, ok, err, Action, preconditions_failed, ◌>>=◌}
use freephite.Base.Action.Keeps.{ReadOnly}
use freephite.Metadata.{Name, CachedMeta}
use freephite.Engine.State.{
  Env, Addr, Engine, children_of, is_valid_branch, get_children, flat_map_children,
  get_recursive_children, branch_exists,
}
use freephite.Engine.Update.{set_parent, validate_new_parent, refuse_descendant}
use freephite.Engine.Reads.{get_recursive_children-ReadOnly}

module _ {W : Type 0} (s : Engine W) where
  -- `c` is a valid child of `b`: what `getChildren` lists.
  pub record HasChild (b c : Name) : Type 0 where
    pub meta : CachedMeta Addr
    pub cached : lookup b s.branches ≡ some meta
    pub listed : includes c (children_of meta s) ≡ true
    pub child_valid : is_valid_branch s c ≡ true

  -- A chain of children leads from `b` to `d`.
  pub data IsAbove : Name → Name → Type 0 where
    child : {b d : Name} → HasChild b d → IsAbove b d
    beyond : {b c d : Name} → HasChild b c → IsAbove c d → IsAbove b d

  includes-filter :
      (f : Name → Bool) (c : Name) (xs : List Name)
      → includes c xs ≡ true
      → f c ≡ true
      → includes c (filter f xs) ≡ true
  unfolding includes
  includes-filter f c [] h k = absurd (ground arith)
  includes-filter f c (x ∷ xs) h k = ground (arith, includes-filter f c xs, k, eq_cases c x)

  includes-append :
      (c : Name) (xs ys : List Name) → includes c (xs ++ ys) ≡ (includes c xs || includes c ys)
  unfolding includes
  includes-append c [] ys = refl
  includes-append c (x ∷ xs) ys = ground (arith, includes-append c xs ys)

  get_children_lem :
      (b c : Name)
      → HasChild b c
      → (l : List Name) × (get_children b s ≡ (ok l, s)) × (includes c l ≡ true)
  unfolding get_children ◌>>=◌
  get_children_lem b c h = (
    filter (is_valid_branch s) (children_of h.meta s),
    rw (h.cached) refl,
    includes-filter (is_valid_branch s) c (children_of h.meta s) h.listed h.child_valid,
  )

  -- what a walk that returns has collected
  Collects : Action (Engine W) (List Name) → Name → Type 0
  Collects m d = (l : List Name) → (m s).0 ≡ ok l → includes d l ≡ true

  flat_map_children_lem :
      (f : Name → Action (Engine W) (List Name)) (cs : List Name) (c d : Name)
      → ((x : Name) → ReadOnly (f x))
      → includes c cs ≡ true
      → (c ≡ d) ⊎ Collects (f c) d
      → Collects (flat_map_children f cs) d
  unfolding flat_map_children Collects includes ◌>>=◌
  flat_map_children_lem f [] c d r h k l e = absurd (ground arith)
  flat_map_children_lem f (x ∷ cs) c d r h k l e =
      go (λ listed rest e'. flat_map_children_lem f cs c d r listed k rest e') (f x s) refl
        (flat_map_children f cs s) refl
    where
      go :
          (includes c cs ≡ true → Collects (flat_map_children f cs) d)
          → (a : Result (List Name) × Engine W) → f x s ≡ a
          → (a' : Result (List Name) × Engine W) → flat_map_children f cs s ≡ a'
          → includes d l ≡ true
      go again (err z, s') q a' q' = absurd (ground (arith, e))
      go again (ok below, s') q (err z, s'') q' = absurd (ground (arith, e, (r x).same s))
      go again (ok below, s') q (ok rest, s'') q' =
          let made : l ≡ x ∷ below ++ rest = ground (arith, e, (r x).same s) in
          let found = includes-append d below rest in
          elim (eq_cases c x) [
            | inl here ↦ elim k [
              | inl itself ↦ rw made (ground (arith, itself, here))
              | inr under ↦
                  let there : includes d below ≡ true = under below (rw here (ap (λ a. a.0) q)) in
                  rw made (rw found (rw there (ground arith)))
            ]
            | inr elsewhere ↦
                let listed : includes c cs ≡ true = ground (arith, elsewhere, h) in
                let there : includes d rest ≡ true = again listed rest (ap (λ a. a.0) q') in
                rw made (rw found (rw there (ground arith)))
          ]

  -- Where the walk returns, every descendant is among its results.
  pub get_recursive_children-IsAbove :
      (depth : ℕ) (b d : Name) (l : List Name)
      → IsAbove b d
      → (get_recursive_children depth b s).0 ≡ ok l
      → includes d l ≡ true
  unfolding get_recursive_children Collects ◌>>=◌
  get_recursive_children-IsAbove zero b d l a e = absurd (ground arith)
  get_recursive_children-IsAbove (suc depth) b d l (child h) e =
      let (cs, eq, listed) = get_children_lem b d h in
      flat_map_children_lem (get_recursive_children depth) cs d d
        (get_recursive_children-ReadOnly depth) listed (inl refl) l (sym (rw eq refl) ∙ e)
  get_recursive_children-IsAbove (suc depth) b d l (beyond {c} h a) e =
      let (cs, eq, listed) = get_children_lem b c h in
      flat_map_children_lem (get_recursive_children depth) cs c d
        (get_recursive_children-ReadOnly depth) listed
        (inr (λ l' e'. get_recursive_children-IsAbove depth c d l' a e')) l (sym (rw eq refl) ∙ e)

  IsAbove-branch_exists : (b d : Name) → IsAbove b d → branch_exists b s ≡ true
  unfolding branch_exists
  IsAbove-branch_exists b d (child h) = rw (h.cached) refl
  IsAbove-branch_exists b d (beyond h a) = rw (h.cached) refl

module _ {W : Type 0} (env : Env W) where
  validate_new_parent-refuses :
      (b d : Name) (s : Engine W)
      → IsAbove s b d
      → (e : Error) × (validate_new_parent env b d s ≡ (err e, s))
  unfolding validate_new_parent refuse_descendant ◌>>=◌
  validate_new_parent-refuses b d s a = elim (Bool-cases (b == d)) [
    | inl same ↦ (preconditions_failed, rw same refl)
    | inr other ↦ go other (get_recursive_children env.stack_size b s) refl
  ]
    where
      go :
          (b == d) ≡ false
          → (x : Result (List Name) × Engine W) → get_recursive_children env.stack_size b s ≡ x
          → (e : Error) × (validate_new_parent env b d s ≡ (err e, s))
      go other (err e, s') q =
          let there = IsAbove-branch_exists s b d a in
          let same = (get_recursive_children-ReadOnly env.stack_size b).same s in (e, ground arith)
      go other (ok l, s') q =
          let there = IsAbove-branch_exists s b d a in
          let same = (get_recursive_children-ReadOnly env.stack_size b).same s in
          let found = get_recursive_children-IsAbove s env.stack_size b d l a (ap (λ x. x.0) q) in
          (preconditions_failed, ground arith)

  -- Where a chain of valid children leads from `b` to `d`, `setParent` of `b` under `d` throws, and
  -- the cache and the repository stay.
  pub set_parent-refuses :
      (b d : Name) (s : Engine W)
      → IsAbove s b d
      → (e : Error) × (set_parent env b d s ≡ (err e, s))
  unfolding set_parent ◌>>=◌
  set_parent-refuses b d s a = let (e, eq) = validate_new_parent-refuses b d s a in (e, rw eq refl)
