-- ===== src/Engine/Links/Update.antt =====
-- `updateMeta` keeps the links of the cache, whatever git answers.
use freephite.Base.{
  true, false, some, List, ◌≡◌, refl, ◌≢◌, inl, inr, arith, includes, lookup, insert, lookup-insert,
  lookup-insert_self, lookup-insert_ne, sym, ◌∙◌, Option-cases, eq_cases, ==_refl, ==_ne,
}
use freephite.Base.Action.{ok, ◌>>=◌}
use freephite.Metadata.{Name, Validation, CachedMeta, ValidMeta, widen, parent_of, is_trunk_meta}
use freephite.Engine.State.{Env, Addr, Branches, Engine, assert_branch, branch_exists}
use freephite.Engine.Update.{
  old_validation, leave_old_parent, join_new_parent, store_meta, update_meta,
}
use freephite.Engine.Links.{
  Lists, IsLinkedFor, Everyone, IsLinked, SameBut, join_new_parent_lem, leave_old_parent_lem,
}

-- The new metadata of a branch holds the array of children that the old one held.
abbrev pub KeepsArray : Branches → Name → Addr → Type 0
KeepsArray branches b a = (m : CachedMeta Addr) → lookup b branches ≡ some m → m.children ≡ a

abbrev Others : Name → Name → Type 0
Others b c = c ≢ b

module _ (b : Name) (new : ValidMeta Addr) where
  -- Where a branch is listed as a child, it still is when the metadata of `b` is replaced.
  insert-Lists :
      (branches : Branches) (arrays : Addr → List Name) (p c : Name)
      → KeepsArray branches b new.children
      → Lists branches arrays p c
      → Lists (insert b (widen new) branches) arrays p c
  insert-Lists branches arrays p c keeps (m, e, there) = elim (eq_cases b p) [
    | inl same ↦
        (widen new, rw lookup-insert (rw (← same) (rw ==_refl)), rw (← keeps m (rw same e)) there)
    | inr other ↦ (m, rw lookup-insert (rw (==_ne b p other) e), there)
  ]

  insert-IsLinkedFor :
      (branches : Branches) (arrays : Addr → List Name)
      → KeepsArray branches b new.children
      → IsLinkedFor Everyone branches arrays
      → IsLinkedFor (Others b) (insert b (widen new) branches) arrays
  insert-IsLinkedFor branches arrays keeps h = record {
    linked = λ c p m ne e parent.
        insert-Lists branches arrays p c keeps
          (h.linked c p m tt (sym (lookup-insert_ne b c (widen new) branches ne) ∙ e) parent);
  }

-- Arrays that agree but for `b` leave the links of the others whole.
SameBut-IsLinkedFor :
    (b : Name) (branches : Branches) (arrays arrays' : Addr → List Name)
    → SameBut b arrays arrays'
    → IsLinkedFor (Others b) branches arrays
    → IsLinkedFor (Others b) branches arrays'
SameBut-IsLinkedFor b branches arrays arrays' same h = record {
  linked = λ c p m ne e parent.
      let (mp, there, listed) = h.linked c p m ne e parent in
      (mp, there, same mp.children c ne ∙ listed);
}

-- With the link of `b` the links are whole.
all-IsLinkedFor :
    (b p : Name) (m mp : CachedMeta Addr) (branches : Branches) (arrays : Addr → List Name)
    → lookup b branches ≡ some m
    → parent_of m.validation ≡ some p
    → lookup p branches ≡ some mp
    → includes b (arrays mp.children) ≡ true
    → IsLinkedFor (Others b) branches arrays
    → IsLinkedFor Everyone branches arrays
all-IsLinkedFor b p m mp branches arrays e parent there listed h = record {
  linked = λ c p' m' u e' parent'. elim (eq_cases c b) [
    | inl same ↦ let p-eq : p' ≡ p = ground arith in (mp, rw p-eq there, rw same listed)
    | inr ne ↦ h.linked c p' m' ne e' parent'
  ];
}

module _ {W : Type 0} (env : Env W) where
  -- The steps of `updateMeta` up to its end, given what each of them does.
  pub update_meta_steps :
      (b : Name) (new : ValidMeta Addr) (old : Validation) (mp : CachedMeta Addr) (s : Engine W)
      (arrays arrays' : Addr → List Name)
      → let s₁ = record s { branches = insert b (widen new) s.branches } in
        old_validation env b s ≡ (ok old, s)
        → is_trunk_meta old ≡ false
        → lookup new.parent_branch_name s₁.branches ≡ some mp
        → leave_old_parent b (parent_of old) new.parent_branch_name s₁
          ≡ (ok tt, record s₁ { arrays = arrays })
        → join_new_parent b new.parent_branch_name (record s₁ { arrays = arrays })
          ≡ (ok tt, record s₁ { arrays = arrays' })
        → update_meta env b new s ≡ store_meta env b new old (record s₁ { arrays = arrays' })
  unfolding update_meta assert_branch branch_exists ◌>>=◌
  update_meta_steps b new old mp s arrays arrays' e not_trunk there left joined =
      rw (e, not_trunk, there, left, joined)

  -- Once the old metadata is known not to be trunk's, `updateMeta` reaches its end in a state with
  -- whole links.
  pub update_meta_lem :
      (b : Name) (new : ValidMeta Addr) (old : Validation) (mp : CachedMeta Addr) (s : Engine W)
      → old_validation env b s ≡ (ok old, s)
      → is_trunk_meta old ≡ false
      → lookup new.parent_branch_name (insert b (widen new) s.branches) ≡ some mp
      → KeepsArray s.branches b new.children
      → IsLinked s
      → (s' : Engine W) × (update_meta env b new s ≡ store_meta env b new old s') × IsLinked s'
  update_meta_lem b new old mp s e not_trunk there keeps h =
      let s₁ : Engine W = record s { branches = insert b (widen new) s.branches } in
      let p = new.parent_branch_name in
      let (arrays, left, same) = leave_old_parent_lem b (parent_of old) p s₁ in
      let s₂ : Engine W = record s₁ { arrays = arrays } in
      let (arrays', joined, same', listed) = join_new_parent_lem b p mp s₂ there in
      (
        record s₁ { arrays = arrays' },
        update_meta_steps b new old mp s arrays arrays' e not_trunk there left joined,
        all-IsLinkedFor b p (widen new) mp s₁.branches arrays'
            (lookup-insert_self b (widen new) s.branches) refl there listed
            (SameBut-IsLinkedFor b s₁.branches arrays arrays' same' (
              SameBut-IsLinkedFor b s₁.branches s.arrays arrays same
                (insert-IsLinkedFor b new s.branches s.arrays keeps h))),
      )

  -- The parent that is written is in the cache, also after the write.
  pub parent_stays :
      (b p : Name) (m : CachedMeta Addr) (s : Engine W)
      → branch_exists p s ≡ true
      → (mp : CachedMeta Addr) × (lookup p (insert b m s.branches) ≡ some mp)
  unfolding branch_exists
  parent_stays b p m s there = elim (eq_cases p b) [
    | inl same ↦ (m, rw same (lookup-insert_self b m s.branches))
    | inr other ↦ elim (Option-cases (lookup p s.branches)) [
      | inl gone ↦ absurd (ground arith)
      | inr (mp, e) ↦ (mp, lookup-insert_ne b p m s.branches other ∙ e)
    ]
  ]
