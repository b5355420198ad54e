-- ===== src/Engine/Update/Succeeds.antt =====
-- When `setParent` returns.
use freephite.Base.{
  true, false, some, List, ◌≡◌, refl, ◌∙◌, ap, arith, ◌==◌, if◌then◌else◌, lookup, includes, insert,
  Bool-cases, inl, inr,
}
use freephite.Base.Action.{ok, ◌>>=◌}
use freephite.Metadata.{Name, Sha, Meta, CachedMeta, ValidMeta, valid, widen, assert_valid_or_trunk}
use freephite.Engine.State.{
  Env, Addr, Engine, on_git, branch_exists, valid_meta, valid_or_trunk_meta, get_parent,
  get_recursive_children,
}
use freephite.Engine.Update.{
  meta_of, update_meta, store_meta, old_validation, set_parent, validate_new_parent,
  refuse_descendant,
}
use freephite.Engine.Links.{leave_old_parent_lem, join_new_parent_lem}
use freephite.Engine.Links.Update.{update_meta_steps, parent_stays}
use freephite.Engine.Update.Parents.{set_parent-moves}

module _ {W : Type 0} (env : Env W) where
  store_meta_ok :
      (b p : Name) (r : Sha) (new : ValidMeta Addr) (s : Engine W)
      → (env.git.write_metadata_ref b (meta_of new) s.repository).0 ≡ ok tt
      → (store_meta env b new (valid p r) s).0 ≡ ok tt
  unfolding store_meta on_git ◌>>=◌
  store_meta_ok b p r new s e = ground arith

  update_meta_ok :
      (b : Name) (m new : ValidMeta Addr) (s : Engine W)
      → lookup b s.branches ≡ some (widen m)
      → branch_exists new.parent_branch_name s ≡ true
      → (env.git.write_metadata_ref b (meta_of new) s.repository).0 ≡ ok tt
      → (update_meta env b new s).0 ≡ ok tt
  unfolding old_validation
  update_meta_ok b m new s e there written =
      let p = new.parent_branch_name in
      let old = valid m.parent_branch_name m.parent_branch_revision in
      let s₁ : Engine W = record s { branches = insert b (widen new) s.branches } in
      let (mp, there') = parent_stays env b p (widen new) s there in
      let (arrays, left, same) = leave_old_parent_lem b (some m.parent_branch_name) p s₁ in
      let s₂ : Engine W = record s₁ { arrays = arrays } in
      let (arrays', joined, same', listed) = join_new_parent_lem b p mp s₂ there' in
      ap (λ x. x.0)
        (update_meta_steps env b new old mp s arrays arrays' (rw (e, old_validation)) refl there'
          left joined)
      ∙ store_meta_ok b m.parent_branch_name m.parent_branch_revision new
          (record s₁ { arrays = arrays' }) written

  accepts :
      (b p : Name) (m : CachedMeta Addr) (l : List Name) (s : Engine W)
      → lookup b s.branches ≡ some m
      → (b == p) ≡ false
      → get_recursive_children env.stack_size b s ≡ (ok l, s)
      → includes p l ≡ false
      → validate_new_parent env b p s ≡ (ok tt, s)
  unfolding validate_new_parent refuse_descendant branch_exists ◌>>=◌
  accepts b p m l s e other walked new = rw other (rw e (rw walked (rw new refl)))

  set_parent_ok :
      (b p : Name) (m : ValidMeta Addr) (mp : CachedMeta Addr) (s : Engine W)
      → lookup b s.branches ≡ some (widen m)
      → lookup p s.branches ≡ some mp
      → assert_valid_or_trunk p mp ≡ ok mp
      → validate_new_parent env b p s ≡ (ok tt, s)
      → (update_meta env b (record m { parent_branch_name = p }) s).0 ≡ ok tt
      → (set_parent env b p s).0 ≡ ok tt
  unfolding set_parent valid_meta valid_or_trunk_meta ◌>>=◌
  set_parent_ok b p m mp s e there checked accepted updated =
      elim (Bool-cases (m.parent_branch_name == p)) [
        | inl stays ↦ ground arith
        | inr moves ↦ ground arith
      ]

  -- Where a branch is valid, the new parent is another branch, valid or trunk, the walk over the
  -- branch's descendants returns and does not meet the new parent, and git writes the metadata,
  -- `setParent` returns, the branch has the new parent, and every other branch the one it had.
  pub set_parent_succeeds :
      (b p : Name) (m : ValidMeta Addr) (mp : CachedMeta Addr) (l : List Name) (s : Engine W)
      → lookup b s.branches ≡ some (widen m)
      → lookup p s.branches ≡ some mp
      → assert_valid_or_trunk p mp ≡ ok mp
      → (b == p) ≡ false
      → get_recursive_children env.stack_size b s ≡ (ok l, s)
      → includes p l ≡ false
      → ((new : Meta) → (env.git.write_metadata_ref b new s.repository).0 ≡ ok tt)
      → ((set_parent env b p s).0 ≡ ok tt)
        × ((n : Name)
            → get_parent n (set_parent env b p s).1 ≡ (if n == b then some p else get_parent n s))
  unfolding branch_exists
  set_parent_succeeds b p m mp l s e there checked other walked new written =
      let updated =
        update_meta_ok b m (record m { parent_branch_name = p }) s e (rw there refl) (written _) in
      let returned =
        set_parent_ok b p m mp s e there checked (accepts b p (widen m) l s e other walked new)
          updated in
      (returned, λ n. set_parent-moves env b p n s returned)
