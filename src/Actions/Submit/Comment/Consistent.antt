-- ===== src/Actions/Submit/Comment/Consistent.antt =====
-- The tree of a comment is built, and shows each branch once, under its base.
use freephite.Base.{
  ℕ, ◌<◌, Bool, false, ◌||◌, none, some, List, [], ◌∷◌, ◌++◌, ◌≡◌, refl, sym, ap, ◌∙◌, arith, ◌==◌,
  Dict, lookup, insert, lookup-insert, Bool-cases, inl, inr, if◌then◌else◌,
}
use mathlib.Core.Path.{subst}
use freephite.Metadata.{Name}
use freephite.Actions.Submit.Comment.{Entry, Tree, or_none, add_branch_to_tree}

-- Whether one of the entries is for the branch.
abbrev pub shows : Name → List Entry → Bool
shows b [] = false
shows b (e ∷ es) = e.ref == b || shows b es

-- The entries under `b` have the base `b`, which is what is known of their branches, and no two of
-- them are for one branch.
abbrev pub IsPlaced : Dict Name → Name → List Entry → Type 0
IsPlaced reverse b [] = Unit {0}
IsPlaced reverse b (e ∷ es) =
    (e.base ≡ b)
    × (lookup e.ref reverse ≡ some b)
    × (shows e.ref es ≡ false)
    × IsPlaced reverse b es

pub record IsConsistent (t : Tree) : Type 0 where
  pub placed : (b : Name) → IsPlaced t.reverse b (or_none (lookup b t.tree))

shows-push :
    (b : Name) (es : List Entry) (e : Entry) → shows b (es ++ e ∷ []) ≡ (e.ref == b || shows b es)
shows-push b [] e = refl
shows-push b (x ∷ es) e = ground (arith, shows-push b es e)

insert-IsPlaced :
    (reverse : Dict Name) (b r p : Name) (es : List Entry)
    → lookup r reverse ≡ none
    → IsPlaced reverse b es
    → IsPlaced (insert r p reverse) b es
insert-IsPlaced reverse b r p [] fresh h = tt
insert-IsPlaced reverse b r p (e ∷ es) fresh (base, known, once, rest) = (
  base,
  lookup-insert r e.ref p reverse ∙ ground arith,
  once,
  insert-IsPlaced reverse b r p es fresh rest,
)

push-IsPlaced :
    (reverse : Dict Name) (e : Entry) (es : List Entry)
    → lookup e.ref reverse ≡ none
    → IsPlaced reverse e.base es
    → IsPlaced (insert e.ref e.base reverse) e.base (es ++ e ∷ [])
push-IsPlaced reverse e [] fresh h =
    (refl, lookup-insert e.ref e.ref e.base reverse ∙ ground arith, refl, tt)
push-IsPlaced reverse e (x ∷ es) fresh (base, known, once, rest) = (
  base,
  lookup-insert e.ref x.ref e.base reverse ∙ ground arith,
  shows-push x.ref es e ∙ ground arith,
  push-IsPlaced reverse e es fresh rest,
)

-- To store what a lookup finds, or an empty list, changes no list.
reinsert_lem :
    (r b : Name) (d : Dict (List Entry))
    → or_none (lookup b (insert r (or_none (lookup r d)) d)) ≡ or_none (lookup b d)
reinsert_lem r b d = ap or_none (lookup-insert r b (or_none (lookup r d)) d) ∙ same
  where
    same :
        or_none (if r == b then some (or_none (lookup r d)) else lookup b d) ≡ or_none (lookup b d)
    same = elim (Bool-cases (r == b)) [
      | inl e ↦ rw e (ap (λ k. or_none (lookup k d)) (ground arith))
      | inr e ↦ rw e refl
    ]

append_lem :
    (e : Entry) (b : Name) (d : Dict (List Entry))
    → or_none (lookup b (insert e.base (or_none (lookup e.base d) ++ e ∷ []) d))
      ≡ (if e.base == b then or_none (lookup b d) ++ e ∷ [] else or_none (lookup b d))
append_lem e b d = ap or_none (lookup-insert e.base b _ d) ∙ same
  where
    same :
        or_none (if e.base == b then some (or_none (lookup e.base d) ++ e ∷ []) else lookup b d)
        ≡ (if e.base == b then or_none (lookup b d) ++ e ∷ [] else or_none (lookup b d))
    same = elim (Bool-cases (e.base == b)) [
      | inl h ↦ rw h (ap (λ k. or_none (lookup k d) ++ e ∷ []) (ground arith))
      | inr h ↦ rw h refl
    ]

-- The list under a branch after an entry has been added.
lookup-add :
    (e : Entry) (t : Tree) (b : Name)
    → or_none (lookup b (add_branch_to_tree e t).tree)
      ≡ (if e.base == b then or_none (lookup b t.tree) ++ e ∷ [] else or_none (lookup b t.tree))
unfolding add_branch_to_tree
lookup-add e t b = reinsert_lem e.ref b _ ∙ append_lem e b t.tree

pub add_branch_to_tree-IsConsistent :
    (e : Entry) (t : Tree)
    → lookup e.ref t.reverse ≡ none
    → IsConsistent t
    → IsConsistent (add_branch_to_tree e t)
unfolding add_branch_to_tree
add_branch_to_tree-IsConsistent e t fresh h = record {
  placed = λ b. elim (Bool-cases (e.base == b)) [
    | inl here ↦
        let same : e.base ≡ b = ground arith in
        subst (IsPlaced (insert e.ref e.base t.reverse) b) (sym (lookup-add e t b ∙ rw here refl)) (
          subst
            (λ c. IsPlaced (insert e.ref e.base t.reverse) c (or_none (lookup c t.tree) ++ e ∷ []))
            same (push-IsPlaced t.reverse e _ fresh (h.placed e.base)))
    | inr other ↦
        subst (IsPlaced (insert e.ref e.base t.reverse) b) (sym (lookup-add e t b ∙ rw other refl))
          (insert-IsPlaced t.reverse b e.ref e.base _ fresh (h.placed b))
  ];
}

-- Where no branch of the requests is in the tree yet, and none comes twice.
abbrev pub AllNew : Dict Name → List Entry → Type 0
AllNew reverse [] = Unit {0}
AllNew reverse (e ∷ es) =
    (lookup e.ref reverse ≡ none) × (shows e.ref es ≡ false) × AllNew reverse es

pub insert-AllNew :
    (r p : Name) (reverse : Dict Name) (es : List Entry)
    → shows r es ≡ false
    → AllNew reverse es
    → AllNew (insert r p reverse) es
insert-AllNew r p reverse [] n h = tt
insert-AllNew r p reverse (e ∷ es) n (fresh, once, rest) = (
  lookup-insert r e.ref p reverse ∙ ground (arith, n, fresh),
  once,
  insert-AllNew r p reverse es (ground (arith, n)) rest,
)

-- Every branch that is placed has a lower rank than what it stands on.
abbrev pub IsRanked : (Name → ℕ) → Tree → Type 0
IsRanked rank t = (c p : Name) → lookup c t.reverse ≡ some p → rank p < rank c

pub add_branch_to_tree-IsRanked :
    (rank : Name → ℕ) (e : Entry) (t : Tree)
    → rank e.base < rank e.ref
    → IsRanked rank t
    → IsRanked rank (add_branch_to_tree e t)
unfolding add_branch_to_tree
add_branch_to_tree-IsRanked rank e t lower h c p found = elim (Bool-cases (e.ref == c)) [
  | inl here ↦
      let same : e.ref ≡ c = ground arith in
      let known : some e.base ≡ some p =
        sym (lookup-insert e.ref c e.base t.reverse ∙ rw here refl) ∙ found in
      let base : e.base ≡ p = ground (arith, known) in
      subst (λ k. rank p < rank k) same (subst (λ k. rank k < rank e.ref) base lower)
  | inr other ↦ h c p (sym (lookup-insert e.ref c e.base t.reverse ∙ rw other refl) ∙ found)
]
