-- ===== src/Engine/Links.antt =====
-- The links between branches in the cache: what a branch names as its parent is there, and lists
-- it as a child.
pub mod Update
pub mod Methods
pub mod Rebases
pub mod Session
use freephite.Base.{
  true, Option, some, List, [], ◌∷◌, ◌++◌, ◌≡◌, refl, ◌≢◌, inl, inr, arith, ◌==◌, truthy, includes,
  splice, lookup, includes-push, includes-splice_ne, Option-cases, Bool-cases, ==_refl, ==_ne,
}
use freephite.Base.Action.{ok, ◌>>=◌}
use freephite.Metadata.{Name, CachedMeta, parent_of}
use freephite.Engine.State.{
  Addr, Branches, Engine, branch_exists, assert_branch, remove_child, write_array,
}
use freephite.Engine.Update.{leave_old_parent, join_new_parent}

-- `c` stands in the array of children of `p`, which is in the cache.
abbrev pub Lists : Branches → (Addr → List Name) → Name → Name → Type 0
Lists branches arrays p c =
    (m : CachedMeta Addr) × (lookup p branches ≡ some m) × (includes c (arrays m.children) ≡ true)

-- What every branch but those that `P` leaves out names as its parent lists it as a child.
pub record IsLinkedFor (P : Name → Type 0) (branches : Branches) (arrays : Addr → List Name)
    : Type 0 where
  pub linked :
      (c p : Name) (m : CachedMeta Addr)
      → P c
      → lookup c branches ≡ some m
      → parent_of m.validation ≡ some p
      → Lists branches arrays p c

abbrev pub Everyone : Name → Type 0
Everyone c = Unit

-- The links of the cache are whole.
abbrev pub IsLinked : {W : Type 0} → Engine W → Type 0
IsLinked s = IsLinkedFor Everyone s.branches s.arrays

-- Arrays that agree on who is listed, but for `b`.
abbrev pub SameBut : Name → (Addr → List Name) → (Addr → List Name) → Type 0
SameBut b arrays arrays' =
    (a : Addr) (c : Name) → c ≢ b → includes c (arrays' a) ≡ includes c (arrays a)

write_array-SameBut :
    (b : Name) (arrays : Addr → List Name) (a : Addr) (xs : List Name)
    → ((c : Name) → c ≢ b → includes c xs ≡ includes c (arrays a))
    → SameBut b arrays (write_array arrays a xs)
write_array-SameBut b arrays a xs h a' c ne = ground (arith, h c ne)

module _ {W : Type 0} where
  -- `removeChild` changes one array, in which only the child is lost.
  pub remove_child_lem :
      (p c : Name) (m : CachedMeta Addr) (s : Engine W)
      → lookup p s.branches ≡ some m
      → remove_child p c s ≡ (
        ok tt,
        record s { arrays = write_array s.arrays m.children (splice c (s.arrays m.children)) },
      )
  unfolding remove_child assert_branch branch_exists ◌>>=◌
  remove_child_lem p c m s e = ground arith

  pub join_new_parent_lem :
      (b p : Name) (m : CachedMeta Addr) (s : Engine W)
      → lookup p s.branches ≡ some m
      → (arrays : Addr → List Name) × (join_new_parent b p s
          ≡ (ok tt, record s { arrays = arrays }))
        × SameBut b s.arrays arrays
        × (includes b (arrays m.children) ≡ true)
  unfolding join_new_parent ◌>>=◌
  join_new_parent_lem b p m s e = elim (Bool-cases (includes b (s.arrays m.children))) [
    | inl there ↦ (s.arrays, rw e (rw there), λ a c ne. refl, there)
    | inr new ↦ (
      write_array s.arrays m.children (s.arrays m.children ++ b ∷ []),
      rw e (rw new),
      write_array-SameBut b s.arrays m.children (s.arrays m.children ++ b ∷ [])
          (λ c ne. rw includes-push (rw (==_ne c b ne))),
      rw (==_refl m.children) (rw includes-push (rw (==_refl b))),
    )
  ]

  pub leave_old_parent_lem :
      (b : Name) (old : Option Name) (new : Name) (s : Engine W)
      → (arrays : Addr → List Name) × (leave_old_parent b old new s
          ≡ (ok tt, record s { arrays = arrays }))
        × SameBut b s.arrays arrays
  unfolding leave_old_parent branch_exists ◌>>=◌
  leave_old_parent_lem b old new s = elim (Option-cases (truthy old)) [
    | inl e ↦ (s.arrays, ground arith, λ a c ne. refl)
    | inr (o, e) ↦ elim (Bool-cases (o == new)) [
      | inl stays ↦ (s.arrays, ground arith, λ a c ne. refl)
      | inr leaves ↦ elim (Option-cases (lookup o s.branches)) [
        | inl gone ↦ (s.arrays, ground arith, λ a c ne. refl)
        | inr (m, there) ↦ (
          write_array s.arrays m.children (splice b (s.arrays m.children)),
          ground (arith, remove_child_lem o b m s there),
          write_array-SameBut b s.arrays m.children (splice b (s.arrays m.children))
              (λ c ne. includes-splice_ne c b (s.arrays m.children) ne),
        )
      ]
    ]
  ]
