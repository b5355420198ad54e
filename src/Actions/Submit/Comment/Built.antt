-- ===== src/Actions/Submit/Comment/Built.antt =====
-- The tree of a comment is built where the branches cannot stand on themselves.
use freephite.Base.{
  ℕ, zero, suc, ◌<◌, Option, none, some, List, [], ◌∷◌, ◌≡◌, refl, ap, ◌∙◌, arith, ◌==◌, lookup,
  Option-cases, Bool-cases, inl, inr, truthy,
}
use freephite.Metadata.{Name, PrInfo}
use freephite.Engine.State.{Engine, is_trunk, get_parent}
use freephite.Engine.Queries.{get_pr_info}
use freephite.Actions.Submit.Comment.{
  Entry, Tree, entry_of_pr, entry_of_parent, add_branch_to_tree, missing_entry, find_route_to_trunk,
  find_routes, add_all_prs, build_tree,
}
use freephite.Actions.Submit.Comment.Consistent.{
  IsConsistent, AllNew, IsRanked, add_branch_to_tree-IsConsistent, add_branch_to_tree-IsRanked,
  insert-AllNew,
}

abbrev pub AllRanked : (Name → ℕ) → List Entry → Type 0
AllRanked rank [] = Unit {0}
AllRanked rank (e ∷ es) = (rank e.base < rank e.ref) × AllRanked rank es

add_all_prs_lem :
    (rank : Name → ℕ) (prs : List Entry) (t : Tree)
    → AllNew t.reverse prs
    → AllRanked rank prs
    → IsConsistent t
    → IsRanked rank t
    → IsConsistent (add_all_prs prs t) × IsRanked rank (add_all_prs prs t)
unfolding add_all_prs add_branch_to_tree
add_all_prs_lem rank [] t new lower h r = (h, r)
add_all_prs_lem rank (e ∷ es) t (fresh, once, new) (low, lower) h r =
    add_all_prs_lem rank es (add_branch_to_tree e t)
      (insert-AllNew e.ref e.base t.reverse es once new) lower
      (add_branch_to_tree-IsConsistent e t fresh h) (add_branch_to_tree-IsRanked rank e t low r)

module _ {W : Type 0} (s : Engine W) where
  ref-missing_entry : (b : Name) (e : Entry) → missing_entry s b ≡ some e → e.ref ≡ b
  unfolding missing_entry
  ref-missing_entry b e h = go (entry_of_pr b (get_pr_info b s)) refl
    where
      from_pr : (o : Option PrInfo) → entry_of_pr b o ≡ some e → e.ref ≡ b
      from_pr o h' = ground arith

      from_parent : (o : Option Name) → entry_of_parent b o ≡ some e → e.ref ≡ b
      from_parent o h' = ground arith

      go : (o : Option Entry) → entry_of_pr b (get_pr_info b s) ≡ o → e.ref ≡ b
      go none q = from_parent (truthy (get_parent b s)) (rw q at h)
      go (some e') q = from_pr (get_pr_info b s) (q ∙ rw q at h)

  -- Nothing that a branch stands on has a rank that is not lower.
  abbrev pub Falls : (Name → ℕ) → Type 0
  Falls rank = (b : Name) (e : Entry) → missing_entry s b ≡ some e → rank e.base < rank b

  find_route_lem :
      (rank : Name → ℕ) (depth : ℕ) (b : Name) (t : Tree)
      → Falls rank
      → rank b < depth
      → IsConsistent t
      → IsRanked rank t
      → (t' : Tree) × (find_route_to_trunk s depth b t ≡ some t')
        × IsConsistent t'
        × IsRanked rank t'
  unfolding find_route_to_trunk
  find_route_lem rank zero b t falls few h r = absurd (omega arith)
  find_route_lem rank (suc depth) b t falls few h r = elim (Bool-cases (is_trunk b s)) [
    | inl trunk ↦ (t, rw trunk refl, h, r)
    | inr above ↦ elim (Option-cases (lookup b t.reverse)) [
      | inr (base, e) ↦
          let (t', q, h', r') =
            find_route_lem rank depth base t falls (omega (arith, r b base e, few)) h r in
          (t', rw above (rw e q), h', r')
      | inl fresh ↦ elim (Option-cases (missing_entry s b)) [
        | inl ends ↦ (t, rw above (rw fresh (rw ends refl)), h, r)
        | inr (e, found) ↦
            let ref = ref-missing_entry b e found in
            let low = falls b e found in
            let (t', q, h', r') =
              find_route_lem rank depth e.base (add_branch_to_tree e t) falls
                (omega (arith, low, few))
                (add_branch_to_tree-IsConsistent e t (ap (λ k. lookup k t.reverse) ref ∙ fresh) h)
                (add_branch_to_tree-IsRanked rank e t (rw ref low) r) in
            (t', rw above (rw fresh (rw found q)), h', r')
      ]
    ]
  ]

  find_routes_lem :
      (rank : Name → ℕ) (depth : ℕ) (bs : List Name) (t : Tree)
      → Falls rank
      → ((b : Name) → rank b < depth)
      → IsConsistent t
      → IsRanked rank t
      → (t' : Tree) × (find_routes s depth bs t ≡ some t') × IsConsistent t'
  unfolding find_routes
  find_routes_lem rank depth [] t falls few h r = (t, refl, h)
  find_routes_lem rank depth (b ∷ bs) t falls few h r =
      let (t', q, h', r') = find_route_lem rank depth b t falls (few b) h r in
      let (t'', q', h'') = find_routes_lem rank depth bs t' falls few h' r' in
      (t'', rw (q, find_routes) q', h'')

  start-IsConsistent : (t : Name) → IsConsistent (record { tree = (t, []) ∷ []; reverse = [] })
  unfolding lookup
  start-IsConsistent t = record {
    placed = λ b. elim (Bool-cases (t == b)) [ inl same ↦ rw same tt | inr other ↦ rw other tt ];
  }

  start-IsRanked :
      (rank : Name → ℕ) (t : Name) → IsRanked rank (record { tree = (t, []) ∷ []; reverse = [] })
  unfolding lookup
  start-IsRanked rank t c p found = absurd (ground arith)

  -- Where the pull requests are for distinct branches, and a rank that the depth of the stack bounds
  -- falls from every branch to its base, the tree is built: under each branch stand entries with that
  -- base, each branch under one base only, and only once.
  pub build_tree-IsConsistent :
      (rank : Name → ℕ) (depth : ℕ) (t : Name) (prs : List Entry)
      → AllNew [] prs
      → AllRanked rank prs
      → Falls rank
      → ((b : Name) → rank b < depth)
      → (tree : Tree) × (build_tree s depth t prs ≡ some tree) × IsConsistent tree
  unfolding build_tree
  build_tree-IsConsistent rank depth t prs new lower falls few =
      let start : Tree = record { tree = (t, []) ∷ []; reverse = [] } in
      let (h, r) =
        add_all_prs_lem rank prs start new lower (start-IsConsistent t) (start-IsRanked rank t) in
      find_routes_lem rank depth _ (add_all_prs prs start) falls few h r
