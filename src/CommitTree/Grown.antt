-- ===== src/CommitTree/Grown.antt =====
-- The trees of apps/gti-client/src/getCommitTree.ts against a description of them that knows no
-- table of children.
use mathlib.Core.Path.{subst}
use freephite.Base.{
  ℕ, zero, suc, ◌<◌, Bool, true, false, Option, none, some, List, [], ◌∷◌, ◌++◌, ◌≡◌, refl, sym, ap,
  ◌∙◌, ◌==◌, ◌&&◌, not, if◌then◌else◌, filter, Dict, lookup, insert, lookup-insert,
  lookup-insert_self, lookup-insert_ne, is_value, eq_cases, ==_refl, ==_ne, append-nil,
  append_assoc, Option-cases, inl, inr, arith,
}
use freephite.CommitTree.{
  BranchInfo, CommitTree, node, Forest, bare, tree, parent_of, add_child, add_under,
  child_nodes_by_parent, children_of, sort_by_time_decreasing, is_draft, map_trees, make_tree,
  is_initial, get_commit_tree,
}
use freephite.CommitTree.Sorted.{
  All, All-sort, All-filter, IsArranged, sort-IsArranged, filter-IsArranged,
}

-- The commits whose first parent is the branch.
abbrev pub children_in : List BranchInfo → ℕ → List BranchInfo
children_in commits branch = filter (λ c. is_value (parent_of c) branch) commits

-- The commit is not part of trunk, and the branch is the first of its parents; 0 is the empty name.
abbrev pub stands_on : ℕ → BranchInfo → Bool
stands_on branch c = elim c.part_of_trunk [
  | true ↦ false
  | false ↦ elim c.parents [ [] ↦ false | p ∷ ps ↦ not (p == 0) && (p == branch) ]
]

-- The commit is part of trunk, or has no parents.
abbrev pub starts : BranchInfo → Bool
starts c = elim c.part_of_trunk [
  | true ↦ true
  | false ↦ elim c.parents [ [] ↦ true | p ∷ ps ↦ false ]
]

-- The tree of a commit has below it, in order, the trees of the commits that stand on it.
mutual
  pub data TreeOf (commits : List BranchInfo) : BranchInfo → CommitTree → Type 0 where
    grown :
        (info : BranchInfo) (cs : List BranchInfo) (forest : Forest)
        → IsArranged (filter (stands_on info.branch) commits) cs
        → ForestOf commits cs forest
        → TreeOf commits info (node info forest)

  pub data ForestOf (commits : List BranchInfo) : List BranchInfo → Forest → Type 0 where
    no_trees : ForestOf commits [] bare
    trees :
        (c : BranchInfo) (cs : List BranchInfo) (t : CommitTree) (ts : Forest)
        → TreeOf commits c t
        → ForestOf commits cs ts
        → ForestOf commits (c ∷ cs) (tree t ts)

-- The drafts among the children, latest first, as the code finds them.
abbrev drafts : List BranchInfo → ℕ → List BranchInfo
drafts commits branch = filter is_draft (sort_by_time_decreasing (children_in commits branch))

filter_twice :
    (f g h : BranchInfo → Bool) (cs : List BranchInfo)
    → ((c : BranchInfo) → (f c && g c) ≡ h c)
    → filter f (filter g cs) ≡ filter h cs
filter_twice f g h [] e = refl
filter_twice f g h (c ∷ cs) e =
    let rest = filter_twice f g h cs e in rw (sym (e c)) (twice (g c) refl rest)
  where
    twice :
        (b : Bool)
        → g c ≡ b
        → filter f (filter g cs) ≡ filter h cs
        → filter f (filter g (c ∷ cs)) ≡ (if f c && g c then c ∷ filter h cs else filter h cs)
    twice b e rest = ground (arith, e, rest)

stands_on_lem :
    (branch : ℕ) (c : BranchInfo)
    → (is_draft c && is_value (parent_of c) branch) ≡ stands_on branch c
stands_on_lem branch c = go c.part_of_trunk c.parents
  where
    go :
        (t : Bool) (ps : List ℕ)
        → let d = record c { part_of_trunk = t; parents = ps } in
          (is_draft d && is_value (parent_of d) branch) ≡ stands_on branch d
    go true ps = ground arith
    go false [] = refl
    go false (p ∷ ps) = ground arith

starts_lem : (c : BranchInfo) → is_initial c ≡ starts c
starts_lem c = go c.part_of_trunk c.parents
  where
    go :
        (t : Bool) (ps : List ℕ)
        → let d = record c { part_of_trunk = t; parents = ps } in is_initial d ≡ starts d
    go true ps = refl
    go false [] = refl
    go false (p ∷ ps) = ground arith

drafts-IsArranged :
    (commits : List BranchInfo) (branch : ℕ)
    → IsArranged (filter (stands_on branch) commits) (drafts commits branch)
drafts-IsArranged commits branch =
    subst (λ xs. IsArranged xs (drafts commits branch))
      (filter_twice is_draft (λ c. is_value (parent_of c) branch) (stands_on branch) commits
        (stands_on_lem branch))
      (filter-IsArranged is_draft (children_in commits branch)
        (sort_by_time_decreasing (children_in commits branch))
        (sort-IsArranged (children_in commits branch)))

children_of-insert :
    (branch p : ℕ) (cs : List BranchInfo) (d : Dict (List BranchInfo))
    → children_of branch (insert p cs d) ≡ (if p == branch then cs else children_of branch d)
children_of-insert branch p cs d = ground (arith, lookup-insert p branch cs d)

children_of-add_under :
    (branch : ℕ) (o : Option ℕ) (c : BranchInfo) (d : Dict (List BranchInfo))
    → children_of branch (add_under o c d)
      ≡ children_of branch d ++ (if is_value o branch then c ∷ [] else [])
unfolding add_under
children_of-add_under branch none c d = sym (append-nil (children_of branch d))
children_of-add_under branch (some p) c d = elim (eq_cases p branch) [
  | inl same ↦
      subst
        (λ b.
          children_of b (add_under (some p) c d)
          ≡ children_of b d ++ (if p == b then c ∷ [] else []))
        same
        (elim (Option-cases (lookup p d)) [
          | inl e ↦
              rw (e, children_of, add_under) (rw (lookup-insert_self p (c ∷ []) d, ==_refl p) refl)
          | inr (set, e) ↦
              rw (e, children_of, add_under)
                (rw (lookup-insert_self p (set ++ c ∷ []) d, ==_refl p) refl)
        ])
  | inr other ↦ elim (Option-cases (lookup p d)) [
    | inl e ↦
        rw (e, children_of, add_under, ==_ne p branch other)
          (rw (lookup-insert_ne p branch (c ∷ []) d (λ q. other (sym q)))
            (sym (append-nil (children_of branch d))))
    | inr (set, e) ↦
        rw (e, children_of, add_under, ==_ne p branch other)
          (rw (lookup-insert_ne p branch (set ++ c ∷ []) d (λ q. other (sym q)))
            (sym (append-nil (children_of branch d))))
  ]
]

push_if :
    (xs : List BranchInfo) (b : Bool) (c : BranchInfo) (ys : List BranchInfo)
    → (xs ++ (if b then c ∷ [] else [])) ++ ys ≡ xs ++ (if b then c ∷ ys else ys)
push_if xs true c ys = append_assoc xs (c ∷ []) ys
push_if xs false c ys = append_assoc xs [] ys

children_of-child_nodes :
    (branch : ℕ) (cs : List BranchInfo) (d : Dict (List BranchInfo))
    → children_of branch (child_nodes_by_parent cs d)
      ≡ children_of branch d ++ children_in cs branch
unfolding child_nodes_by_parent add_child
children_of-child_nodes branch [] d = sym (append-nil (children_of branch d))
children_of-child_nodes branch (c ∷ cs) d =
    let step = children_of-add_under branch (parent_of c) c d in
    children_of-child_nodes branch cs (add_child c d)
    ∙ (ap (λ l. l ++ children_in cs branch) step
        ∙ push_if (children_of branch d) (is_value (parent_of c) branch) c (children_in cs branch))

children_of_lem :
    (branch : ℕ) (commits : List BranchInfo)
    → children_of branch (child_nodes_by_parent commits []) ≡ children_in commits branch
unfolding lookup
children_of_lem branch commits = children_of-child_nodes branch commits []

map_trees-cons :
    (make : BranchInfo → Option CommitTree) (c : BranchInfo) (cs : List BranchInfo) (t : CommitTree)
    (ts : Forest)
    → make c ≡ some t
    → map_trees make cs ≡ some ts
    → map_trees make (c ∷ cs) ≡ some (tree t ts)
unfolding map_trees
map_trees-cons make c cs t ts made mades = rw (made, map_trees) (rw mades refl)

map_trees-ForestOf :
    (commits : List BranchInfo) (make : BranchInfo → Option CommitTree) (P : BranchInfo → Type 0)
    → ((c : BranchInfo) → P c → (t : CommitTree) × (make c ≡ some t) × TreeOf commits c t)
    → (cs : List BranchInfo) → All P cs
    → (forest : Forest) × (map_trees make cs ≡ some forest) × ForestOf commits cs forest
unfolding map_trees
map_trees-ForestOf commits make P f [] h = (bare, refl, no_trees)
map_trees-ForestOf commits make P f (c ∷ cs) h =
    let (t, made, of) = f c h.0 in
    let (ts, mades, ofs) = map_trees-ForestOf commits make P f cs h.1 in
    (tree t ts, map_trees-cons make c cs t ts made mades, trees c cs t ts of ofs)

-- A commit lies lower than the one it stands on.
abbrev pub Descends : (ℕ → ℕ) → BranchInfo → Type 0
Descends height c = (p : ℕ) → stands_on p c ≡ true → height c.branch < height p

module _ (height : ℕ → ℕ) (commits : List BranchInfo) (down : All (Descends height) commits) where
  drafts-lower : (branch : ℕ) → All (λ c. height c.branch < height branch) (drafts commits branch)
  drafts-lower branch =
      let lower_draft : BranchInfo → Type 0 =
        λ c. is_draft c ≡ true → height c.branch < height branch in
      All-filter lower_draft (λ c. height c.branch < height branch) is_draft
        (sort_by_time_decreasing (children_in commits branch)) (λ c h k. h k)
        (All-sort lower_draft (children_in commits branch) (
          All-filter (Descends height) lower_draft (λ c. is_value (parent_of c) branch) commits
            (λ c h v k. h branch (sym (stands_on_lem branch c) ∙ rw (k, v) refl)) down))

  make_tree-TreeOf :
      (levels : ℕ) (info : BranchInfo)
      → height info.branch < levels
      → (t : CommitTree) × (make_tree levels (child_nodes_by_parent commits []) info ≡ some t)
        × TreeOf commits info t
  unfolding make_tree
  make_tree-TreeOf zero info h = absurd (omega arith)
  make_tree-TreeOf (suc levels) info h =
      let (forest, made, of) =
        map_trees-ForestOf commits (make_tree levels (child_nodes_by_parent commits []))
          (λ c. height c.branch < height info.branch)
          (λ c lt. make_tree-TreeOf levels c (omega arith)) (drafts commits info.branch)
          (drafts-lower info.branch) in
      (
        node info forest,
        rw (children_of_lem info.branch commits, made) refl,
        grown info (drafts commits info.branch) forest (drafts-IsArranged commits info.branch) of,
      )

-- Where a number falls from every commit to those that stand on it, and is less than the levels
-- allowed at every commit: the trees are made. They are those of the commits that are part of trunk,
-- with drafts on them or without, and of those without parents, latest first, and each has below it,
-- at every depth, the trees of just the commits that are not part of trunk and have it as their first
-- parent, latest first. Commits of one time stay in the order given.
pub get_commit_tree-ForestOf :
    (height : ℕ → ℕ) (levels : ℕ) (commits : List BranchInfo)
    → All (Descends height) commits
    → All (λ c. height c.branch < levels) commits
    → (forest : Forest) × (cs : List BranchInfo) × (get_commit_tree levels commits ≡ some forest)
      × IsArranged (filter starts commits) cs
      × ForestOf commits cs forest
unfolding get_commit_tree
get_commit_tree-ForestOf height levels commits down below =
    let low : BranchInfo → Type 0 = λ c. height c.branch < levels in
    let cs = sort_by_time_decreasing (filter is_initial commits) in
    let (forest, made, of) =
      map_trees-ForestOf commits (make_tree levels (child_nodes_by_parent commits [])) low
        (λ c lt. make_tree-TreeOf height commits down levels c lt) cs
        (All-sort low (filter is_initial commits)
          (All-filter low low is_initial commits (λ c h k. h) below)) in
    let same : filter is_initial commits ≡ filter starts commits =
      ap (λ f. filter f commits) (λ i c. starts_lem c i) in
    (
      forest,
      cs,
      made,
      subst (λ xs. IsArranged xs cs) same (sort-IsArranged (filter is_initial commits)),
      of,
    )
