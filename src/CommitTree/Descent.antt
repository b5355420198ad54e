-- ===== src/CommitTree/Descent.antt =====
-- `isDescendant` of apps/gti-client/src/getCommitTree.ts, on a tree that getCommitTree has made.
use mathlib.Core.Path.{subst}
use freephite.Base.{
  ℕ, Bool, true, false, List, [], ◌∷◌, ◌≡◌, refl, sym, ap, ◌∙◌, ◌==◌, ==_refl, ◌||◌, if◌then◌else◌,
  filter, Bool-cases, inl, inr, arith,
}
use freephite.CommitTree.{
  BranchInfo, CommitTree, node, Forest, bare, tree, has_branch, walk_tree, walk_tree_postorder,
  is_descendant,
}
use freephite.CommitTree.Grown.{TreeOf, grown, ForestOf, no_trees, trees, stands_on}
use freephite.CommitTree.Sorted.{IsArranged}

-- The commit is one of the list.
pub data In (c : BranchInfo) : List BranchInfo → Type 0 where
  first : (d : BranchInfo) (ds : List BranchInfo) → d ≡ c → In c (d ∷ ds)
  later : (d : BranchInfo) (ds : List BranchInfo) → In c ds → In c (d ∷ ds)

-- From the commit down to the branch leads a chain of commits outside trunk, each with the one before
-- as first parent.
pub data Above (commits : List BranchInfo) (hash : ℕ) : BranchInfo → Type 0 where
  itself : (info : BranchInfo) → info.branch ≡ hash → Above commits hash info
  through :
      (info c : BranchInfo)
      → In c commits
      → stands_on info.branch c ≡ true
      → Above commits hash c
      → Above commits hash info

In-filter :
    (test : BranchInfo → Bool) (c : BranchInfo) {cs : List BranchInfo}
    → In c cs
    → test c ≡ true
    → In c (filter test cs)
In-filter test c (first d ds e) k = rw (ap test e ∙ k) (first d (filter test ds) e)
In-filter test c (later d ds i) k =
    let below = In-filter test c i k in
    elim (Bool-cases (test d)) [
      | inl kept ↦ rw kept (later d (filter test ds) below)
      | inr left ↦ rw left below
    ]

In-of_filter :
    (test : BranchInfo → Bool) (c : BranchInfo) (cs : List BranchInfo)
    → In c (filter test cs)
    → In c cs × (test c ≡ true)
In-of_filter test c [] i = elim i [ ]
In-of_filter test c (d ∷ ds) i = go (In-of_filter test c ds) (test d) refl i
  where
    go :
        (In c (filter test ds) → In c ds × (test c ≡ true))
        → (b : Bool) → test d ≡ b
        → In c (if b then d ∷ filter test ds else filter test ds)
        → In c (d ∷ ds) × (test c ≡ true)
    go rest true e (first _ _ same) = (first d ds same, ap test (sym same) ∙ e)
    go rest true e (later _ _ i) = let (inside, k) = rest i in (later d ds inside, k)
    go rest false e i = let (inside, k) = rest i in (later d ds inside, k)

-- An arranged list has the same commits.
In-arranged :
    (c : BranchInfo) {xs cs : List BranchInfo}
    → IsArranged xs cs
    → (In c xs → In c cs) × (In c cs → In c xs)
In-arranged c {xs} {cs} h =
    let now : BranchInfo → Bool = λ d. d.date == c.date in
    let same = h.same_at c.date in
    (
      λ i. (In-of_filter now c cs (subst (In c) (sym same) (In-filter now c i (==_refl c.date)))).0,
      λ i. (In-of_filter now c xs (subst (In c) same (In-filter now c i (==_refl c.date)))).0,
    )

mutual
  within : ℕ → CommitTree → Bool
  within hash (node info children) = within_any hash children || (info.branch == hash)

  within_any : ℕ → Forest → Bool
  within_any hash bare = false
  within_any hash (tree t ts) = within hash t || within_any hash ts

mutual
  unfolding within walk_tree has_branch

  has_branch-walk_tree :
      (hash : ℕ) (t : CommitTree) (rest : List CommitTree)
      → has_branch hash (walk_tree t rest) ≡ (within hash t || has_branch hash rest)
  has_branch-walk_tree hash (node info children) rest =
      rw (has_branch-walk_postorder hash children (node info children ∷ rest)) (ground arith)

  has_branch-walk_postorder :
      (hash : ℕ) (ts : Forest) (rest : List CommitTree)
      → has_branch hash (walk_tree_postorder ts rest) ≡ (within_any hash ts || has_branch hash rest)
  has_branch-walk_postorder hash bare rest = refl
  has_branch-walk_postorder hash (tree t ts) rest =
      rw
        (
          has_branch-walk_tree hash t (walk_tree_postorder ts rest),
          has_branch-walk_postorder hash ts rest,
        )
        (ground arith)

is_descendant-within : (hash : ℕ) (t : CommitTree) → is_descendant hash t ≡ within hash t
unfolding is_descendant within has_branch
is_descendant-within hash t = rw (has_branch-walk_postorder hash (tree t bare) []) (ground arith)

module _ (commits : List BranchInfo) (hash : ℕ) where
  mutual
    unfolding within

    within-Above :
        {info : BranchInfo} {t : CommitTree}
        → TreeOf commits info t
        → within hash t ≡ true
        → Above commits hash info
    within-Above (grown info cs forest at of) w = elim (Bool-cases (within_any hash forest)) [
      | inl below ↦
          let (c, i, a) = within_any-Above of below in
          let (inside, on) =
            In-of_filter (stands_on info.branch) c commits ((In-arranged c at).1 i) in
          through info c inside on a
      | inr other ↦ itself info (ground arith)
    ]

    within_any-Above :
        {cs : List BranchInfo} {ts : Forest}
        → ForestOf commits cs ts
        → within_any hash ts ≡ true
        → (c : BranchInfo) × In c cs × Above commits hash c
    within_any-Above no_trees w = absurd (cc w)
    within_any-Above (trees c cs t ts of ofs) w = elim (Bool-cases (within hash t)) [
      | inl here ↦ (c, first c cs refl, within-Above of here)
      | inr other ↦ let (d, i, a) = within_any-Above ofs (ground arith) in (d, later c cs i, a)
    ]

  -- The tree of one of the commits of a forest.
  tree_at :
      (c : BranchInfo) {cs : List BranchInfo} {ts : Forest}
      → In c cs
      → ForestOf commits cs ts
      → (t : CommitTree) × TreeOf commits c t × (within hash t ≡ true → within_any hash ts ≡ true)
  unfolding within
  tree_at c (first _ _ e) (trees d ds t ts of ofs) =
      (t, subst (λ x. TreeOf commits x t) e of, λ w. ground arith)
  tree_at c (later _ _ i) (trees d ds t ts of ofs) =
      let (t', of', found) = tree_at c i ofs in (t', of', λ w. ground (arith, found w))

  Above-within :
      {info : BranchInfo} {t : CommitTree}
      → Above commits hash info
      → TreeOf commits info t
      → within hash t ≡ true
  unfolding within
  Above-within (itself _ e) (grown info cs forest at of) = ground arith
  Above-within (through _ c i on a) (grown info cs forest at of) =
      let listed = (In-arranged c at).0 (In-filter (stands_on info.branch) c i on) in
      let (t, of', found) = tree_at c listed of in ground (arith, found (Above-within a of'))

-- In the tree that is made of a commit, a branch is found exactly where a chain of commits outside
-- trunk, each with the one before as its first parent, leads from the commit down to it, the commit's
-- own branch included.
pub is_descendant_iff :
    (commits : List BranchInfo) (hash : ℕ) (info : BranchInfo) (t : CommitTree)
    → TreeOf commits info t
    → (is_descendant hash t ≡ true → Above commits hash info)
      × (Above commits hash info → is_descendant hash t ≡ true)
is_descendant_iff commits hash info t of =
    rw (is_descendant-within hash t)
      ((λ w. within-Above commits hash of w), λ a. Above-within commits hash a of)
