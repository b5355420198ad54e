-- ===== src/Engine/Queries/Recursion.antt =====
-- `getRecursiveChildren` returns where the links between branches have no cycle.
use freephite.Base.{
  ℕ, zero, suc, ◌<◌, Bool, true, List, [], ◌∷◌, ◌++◌, ◌≡◌, refl, ap, ◌∙◌, arith, ◌==◌, lookup,
  includes, filter, Option-cases, Bool-cases, inl, inr, ==_refl, ==_iff,
}
use freephite.Base.Action.{ok, Action, ◌>>=◌}
use freephite.Metadata.{Name}
use freephite.Engine.State.{
  Engine, children_of, is_valid_branch, get_children, flat_map_children, get_recursive_children,
  branch_exists,
}
use freephite.Engine.Queries.Descendants.{HasChild, IsAbove, get_recursive_children-IsAbove}

filter-includes :
    (f : Name → Bool) (c : Name) (xs : List Name)
    → includes c (filter f xs) ≡ true
    → (includes c xs ≡ true) × (f c ≡ true)
unfolding includes
filter-includes f c [] h = absurd (ground arith)
filter-includes f c (x ∷ xs) h = elim (Bool-cases (f x)) [
  | inl kept ↦ elim (Bool-cases (c == x)) [
    | inl same ↦ (rw same refl, ap f ((==_iff c x).0 same) ∙ kept)
    | inr other ↦
        let (listed, holds) = filter-includes f c xs (ground arith) in (ground arith, holds)
  ]
  | inr dropped ↦
      let (listed, holds) = filter-includes f c xs (ground arith) in (ground arith, holds)
]

module _ {W : Type 0} (s : Engine W) where
  flat_map_children_returns :
      (f : Name → Action (Engine W) (List Name)) (cs : List Name)
      → ((c : Name) → includes c cs ≡ true → (l : List Name) × (f c s ≡ (ok l, s)))
      → (l : List Name) × (flat_map_children f cs s ≡ (ok l, s))
  unfolding flat_map_children includes ◌>>=◌
  flat_map_children_returns f [] h = ([], refl)
  flat_map_children_returns f (c ∷ cs) h =
      let (below, e) = h c (rw (==_refl c) refl) in
      let (rest, e') = flat_map_children_returns f cs (λ c' i. h c' (ground (arith, i))) in
      (c ∷ below ++ rest, rw e (rw e' refl))

  -- Where `rank` falls from a branch to each of its valid children, and the stack is deeper than
  -- the rank of a branch of the cache, `getRecursiveChildren` of this branch returns, and its list
  -- has every descendant.
  pub get_recursive_children_complete :
      (rank : Name → ℕ) (depth : ℕ) (b : Name)
      → ((p c : Name) → HasChild s p c → rank c < rank p)
      → branch_exists b s ≡ true
      → rank b < depth
      → (l : List Name) × (get_recursive_children depth b s ≡ (ok l, s))
        × ((d : Name) → IsAbove s b d → includes d l ≡ true)
  unfolding get_recursive_children get_children branch_exists ◌>>=◌
  get_recursive_children_complete rank zero b falls there deep = absurd (omega arith)
  get_recursive_children_complete rank (suc depth) b falls there deep =
      elim (Option-cases (lookup b s.branches)) [
        | inl gone ↦ absurd (ground arith)
        | inr (m, e) ↦
            let children = filter (is_valid_branch s) (children_of m s) in
            let below : (c : Name)
                → includes c children ≡ true
                → (l : List Name) × (get_recursive_children depth c s ≡ (ok l, s)) =
              λ c i.
                let (listed, valid) = filter-includes (is_valid_branch s) c (children_of m s) i in
                let h : HasChild s b c = record {
                  meta = m;
                  cached = e;
                  listed = listed;
                  child_valid = valid;
                } in
                let lower = falls b c h in
                let (l, returned, all) =
                  get_recursive_children_complete rank depth c falls (ground (arith, valid))
                    (omega arith) in
                (l, returned) in
            let (l, returned) =
              flat_map_children_returns (get_recursive_children depth) children below in
            let whole : get_recursive_children (suc depth) b s ≡ (ok l, s) = rw e returned in
            (
              l,
              whole,
              λ d a. get_recursive_children-IsAbove s (suc depth) b d l a (ap (λ x. x.0) whole),
            )
      ]
