-- ===== src/Engine/Update/Parents.antt =====
-- Which entries of the cache `updateMeta` and `setParent` change.
use freephite.Base.{
  Bool, true, false, some, ◌≡◌, refl, ◌∙◌, sym, arith, ◌==◌, lookup, insert, lookup-insert, ap,
  if◌then◌else◌, ==_iff,
}
use freephite.Base.Action.{pure, ok, ◌>>=◌, ◌>>◌}
use freephite.Base.Action.Keeps.{bind_read-ok}
use freephite.Metadata.{Name, Sha, ValidMeta, valid, widen}
use freephite.Engine.State.{
  Env, Addr, Engine, on_git, branch_exists, valid_meta, valid_or_trunk_meta, get_parent,
}
use freephite.Engine.Update.{
  meta_of, update_meta, store_meta, old_validation, set_parent, validate_new_parent,
}
use freephite.Engine.Reads.{
  valid_meta_ok, valid_or_trunk_meta_ok, valid_meta-ReadOnly, valid_or_trunk_meta-ReadOnly,
  validate_new_parent-ReadOnly,
}
use freephite.Engine.Links.{leave_old_parent_lem, join_new_parent_lem}
use freephite.Engine.Links.Update.{update_meta_steps, parent_stays}

module _ {W : Type 0} (env : Env W) where
  -- After the update of a valid branch nothing is left but the write to disk.
  pub store_meta_valid :
      (b p : Name) (r : Sha) (new : ValidMeta Addr) (s : Engine W)
      → (store_meta env b new (valid p r) s).1
        ≡ record s { repository = (env.git.write_metadata_ref b (meta_of new) s.repository).1 }
  unfolding store_meta on_git ◌>>=◌
  store_meta_valid b p r new s = ground arith

  -- An update of a valid branch replaces its metadata, and no other.
  pub branches-update_meta :
      (b : Name) (m new : ValidMeta Addr) (s : Engine W)
      → lookup b s.branches ≡ some (widen m)
      → branch_exists new.parent_branch_name s ≡ true
      → (update_meta env b new s).1.branches ≡ insert b (widen new) s.branches
  unfolding old_validation
  branches-update_meta b m new s e there =
      let p = new.parent_branch_name in
      let old = valid m.parent_branch_name m.parent_branch_revision in
      let s₁ : Engine W = record s { branches = insert b (widen new) s.branches } in
      let (mp, there') = parent_stays env b p (widen new) s there in
      let (arrays, left, same) = leave_old_parent_lem b (some m.parent_branch_name) p s₁ in
      let s₂ : Engine W = record s₁ { arrays = arrays } in
      let (arrays', joined, same', listed) = join_new_parent_lem b p mp s₂ there' in
      rw
        (update_meta_steps env b new old mp s arrays arrays' (rw (e, old_validation)) refl there'
          left joined)
        (rw (
          store_meta_valid b m.parent_branch_name m.parent_branch_revision new
            (record s₁ { arrays = arrays' })))

  get_parent-insert :
      (b n : Name) (m : ValidMeta Addr) (s s' : Engine W)
      → s'.branches ≡ insert b (widen m) s.branches
      → get_parent n s' ≡ (if n == b then some m.parent_branch_name else get_parent n s)
  unfolding get_parent
  get_parent-insert b n m s s' e =
      let found : lookup n s'.branches ≡ (if b == n then some (widen m) else lookup n s.branches) =
        ap (lookup n) e ∙ lookup-insert b n (widen m) s.branches in
      ground arith

  get_parent-cached :
      (b n : Name) (m : ValidMeta Addr) (s : Engine W)
      → lookup b s.branches ≡ some (widen m)
      → get_parent n s ≡ (if n == b then some m.parent_branch_name else get_parent n s)
  unfolding get_parent
  get_parent-cached b n m s e = ground arith

  -- the write of `setParent`, once the new parent has been checked
  update_parent :
      (b p n : Name) (m : ValidMeta Addr) (s : Engine W)
      → lookup b s.branches ≡ some (widen m)
      → ((valid_or_trunk_meta p >> update_meta env b (record m { parent_branch_name = p })) s).0
        ≡ ok tt
      → get_parent n
          ((valid_or_trunk_meta p >> update_meta env b (record m { parent_branch_name = p })) s).1
        ≡ (if n == b then some p else get_parent n s)
  unfolding branch_exists
  update_parent b p n m s found returned =
      let new = record m { parent_branch_name = p } in
      let (mp, e, step) =
        bind_read-ok (valid_or_trunk_meta p) (λ x. update_meta env b new) s tt
          (valid_or_trunk_meta-ReadOnly p) returned in
      ap (λ x. get_parent n x.1) step
      ∙ get_parent-insert b n new s _
          (branches-update_meta b m new s found (rw (valid_or_trunk_meta_ok p mp s e) refl))

  move_if :
      (b p n : Name) (m : ValidMeta Addr) (s : Engine W)
      → lookup b s.branches ≡ some (widen m)
      → (stays : Bool) → (m.parent_branch_name == p) ≡ stays
      → ((if stays
            then pure tt
            else valid_or_trunk_meta p >> update_meta env b (record m { parent_branch_name = p }))
          s).0
        ≡ ok tt
      → get_parent n
          ((if stays
              then pure tt
              else valid_or_trunk_meta p >> update_meta env b (record m { parent_branch_name = p }))
            s).1
        ≡ (if n == b then some p else get_parent n s)
  move_if b p n m s found true e returned =
      get_parent-cached b n m s found
      ∙ ap (λ q. if n == b then some q else get_parent n s) ((==_iff m.parent_branch_name p).0 e)
  move_if b p n m s found false e returned = update_parent b p n m s found returned

  -- `setParent` that returns makes `p` the parent of `b`, and leaves the parent of every other
  -- branch.
  pub set_parent-moves :
      (b p n : Name) (s : Engine W)
      → (set_parent env b p s).0 ≡ ok tt
      → get_parent n (set_parent env b p s).1 ≡ (if n == b then some p else get_parent n s)
  unfolding set_parent
  set_parent-moves b p n s returned =
      let (u, e, step) =
        bind_read-ok (validate_new_parent env b p) _ s tt (validate_new_parent-ReadOnly env b p)
          returned in
      let returned' = sym (ap (λ x. x.0) step) ∙ returned in
      let (m, e', step') = bind_read-ok (valid_meta b) _ s tt (valid_meta-ReadOnly b) returned' in
      let found = valid_meta_ok b m s e' in
      let returned'' = sym (ap (λ x. x.0) step') ∙ returned' in
      ap (λ x. get_parent n x.1) (step ∙ step')
      ∙ move_if b p n m s found (m.parent_branch_name == p) refl returned''
