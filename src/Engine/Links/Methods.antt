-- ===== src/Engine/Links/Methods.antt =====
-- The methods of the engine keep the links of the cache, whether they return or throw.
use freephite.Base.{
  ℕ, zero, suc, true, false, Option, none, some, ◌≡◌, refl, sym, ◌∙◌, inl, inr, arith, ◌==◌, lookup,
  insert, Bool-cases, lookup-insert_self, lookup-insert_ne, eq_cases, get_elem?, length,
}
use freephite.Base.Action.{Result, ok, err, Action, pure, gets, ◌>>=◌, ◌>>◌}
use freephite.Base.Action.Keeps.{
  Keeps, Keeps-ReadOnly, Keeps-pure, Keeps-raise, Keeps-reads, Keeps-if, Keeps-bind, bind_read-kept,
  bind-kept,
}
use freephite.Metadata.{
  Name, Sha, CachedMeta, ValidMeta, Validation, invalid_parent, widen, is_valid, is_trunk_meta,
  parent_of,
}
use freephite.Parse.{Verdict, is_valid_at, is_bad}
use freephite.Engine.State.{
  Env, Addr, Engine, on_git, get_meta, put_meta, assert_branch, branch_exists, valid_or_trunk_meta,
  valid_meta, for_each_index, for_each_live,
}
use freephite.Engine.Update.{
  revalidate_as, revalidated, revalidate_child, revalidate_children, store_meta, update_meta,
  old_validation, validate_new_parent, set_parent, meta_of,
}
use freephite.Engine.Reads.{
  get_meta-ReadOnly, assert_branch-ReadOnly, valid_meta-ReadOnly, valid_or_trunk_meta-ReadOnly,
  validate_new_parent-ReadOnly, old_validation-ReadOnly, valid_meta_ok, valid_or_trunk_meta_ok,
}
use freephite.Engine.Links.{Lists, IsLinked}
use freephite.Engine.Links.Update.{KeepsArray, update_meta_lem, parent_stays}

module _ {W : Type 0} where
  pub on_git-IsLinked : {A : Type 0} (m : Action W A) → Keeps IsLinked (on_git m)
  unfolding on_git
  on_git-IsLinked m = record { kept = λ s h. h }

  -- New metadata with the old parent, or none, and the old array keeps the links.
  pub put_meta-IsLinked :
      (b : Name) (old new : CachedMeta Addr) (s : Engine W)
      → lookup b s.branches ≡ some old
      → ((q : Name) → parent_of new.validation ≡ some q → parent_of old.validation ≡ some q)
      → new.children ≡ old.children
      → IsLinked s
      → IsLinked (put_meta b new s).1
  put_meta-IsLinked b old new s e parents arrays h = record {
    linked = λ c p m u there parent.
        let (old-m, old-there, old-parent) = before c p m there parent in
        after p c (h.linked c p old-m tt old-there old-parent);
  }
    where
      before :
          (c p : Name) (m : CachedMeta Addr)
          → lookup c (insert b new s.branches) ≡ some m
          → parent_of m.validation ≡ some p
          → (m' : CachedMeta Addr) × (lookup c s.branches ≡ some m')
            × (parent_of m'.validation ≡ some p)
      before c p m there parent = elim (eq_cases c b) [
        | inl same ↦
            let n : new ≡ m = ground (arith, lookup-insert_self b new s.branches) in
            (old, rw same e, parents p (rw n parent))
        | inr other ↦ (m, sym (lookup-insert_ne b c new s.branches other) ∙ there, parent)
      ]

      after :
          (p c : Name)
          → Lists s.branches s.arrays p c
          → Lists (insert b new s.branches) s.arrays p c
      after p c (m, there, listed) = elim (eq_cases p b) [
        | inl same ↦
            let o : old ≡ m = ground arith in
            (new, rw same (lookup-insert_self b new s.branches), rw arrays (rw o listed))
        | inr other ↦ (m, lookup-insert_ne b p new s.branches other ∙ there, listed)
      ]

  -- The links are whole, and `b` has the metadata `m`.
  abbrev pub LinkedWith : Name → CachedMeta Addr → Engine W → Type 0
  LinkedWith b m s = IsLinked s × (lookup b s.branches ≡ some m)

  for_each_index-IsLinked :
      (body : Name → Action (Engine W) (Unit {0})) (a : Addr) (i n : ℕ)
      → ((c : Name) → Keeps IsLinked (body c))
      → Keeps IsLinked (for_each_index body a i n)
  unfolding for_each_index
  for_each_index-IsLinked body a i zero k = Keeps-pure tt
  for_each_index-IsLinked body a i (suc n) k =
      Keeps-bind (gets λ s. get_elem? (s.arrays a) i) _ (Keeps-reads _)
        λ x. Keeps-bind _ _ (at_element x) λ u. for_each_index-IsLinked body a (suc i) n k
    where
      at_element :
          (x : Option Name)
          → Keeps IsLinked (elim x [ none ↦ pure {S = Engine W} tt | some c ↦ body c ])
      at_element none = Keeps-pure tt
      at_element (some c) = k c

  pub for_each_live-IsLinked :
      (a : Addr) (body : Name → Action (Engine W) (Unit {0}))
      → ((c : Name) → Keeps IsLinked (body c))
      → Keeps IsLinked (for_each_live a body)
  unfolding for_each_live
  for_each_live-IsLinked a body k =
      Keeps-bind (gets λ s. length (s.arrays a)) _ (Keeps-reads _)
        λ n. for_each_index-IsLinked body a 0 n k

parent_of-revalidated :
    (p : Name) (r : Option Sha) (v : Verdict) → parent_of (revalidated p r v) ≡ some p
parent_of-revalidated p r (is_valid_at r') = refl
parent_of-revalidated p r is_bad = refl

module _ {W : Type 0} (env : Env W) where
  revalidate_as-IsLinked :
      (rec : Addr → Action (Engine W) (Unit {0})) (c : Name) (m : CachedMeta Addr) (v : Validation)
      (s : Engine W)
      → ((a : Addr) → Keeps IsLinked (rec a))
      → m.validation ≡ v
      → LinkedWith c m s
      → IsLinked (revalidate_as env rec c m v s).1
  unfolding revalidate_as on_git
  revalidate_as-IsLinked rec c m (invalid_parent p r) s k e (h, there) =
      bind_read-kept IsLinked (get_meta p) _ s (get_meta-ReadOnly p)
        (λ parent got.
          bind-kept (LinkedWith c m) IsLinked (on_git _) _ s (h, there) (λ s' q. q.0)
            λ verdict s' q.
              bind-kept IsLinked IsLinked (put_meta c _) _ s'
                (put_meta-IsLinked c m _ s' q.1
                  (λ q' same. rw e (sym (parent_of-revalidated p r verdict) ∙ same)) refl q.0)
                (λ s'' q'. q') λ u s'' q'. (k m.children).kept s'' q')
        h
  revalidate_as-IsLinked rec c m v s k e (h, there) = h

  revalidate_child-IsLinked :
      (rec : Addr → Action (Engine W) (Unit {0})) (c : Name)
      → ((a : Addr) → Keeps IsLinked (rec a))
      → Keeps IsLinked (revalidate_child env rec c)
  unfolding revalidate_child
  revalidate_child-IsLinked rec c k =
      Keeps-bind (assert_branch c) _ (Keeps-ReadOnly _ (assert_branch-ReadOnly c)) λ u. record {
        kept = λ s h.
            bind_read-kept IsLinked (get_meta c) _ s (get_meta-ReadOnly c)
              (λ m e. revalidate_as-IsLinked rec c m m.validation s k refl (h, ground arith)) h;
      }

  revalidate_children-IsLinked :
      (depth : ℕ) (a : Addr) → Keeps IsLinked (revalidate_children env depth a)
  unfolding revalidate_children
  revalidate_children-IsLinked zero a = Keeps-raise _
  revalidate_children-IsLinked (suc depth) a =
      for_each_live-IsLinked a (revalidate_child env (revalidate_children env depth)) (λ c.
        revalidate_child-IsLinked (revalidate_children env depth) c
          (revalidate_children-IsLinked depth))

  store_meta-IsLinked :
      (b : Name) (new : ValidMeta Addr) (old : Validation)
      → Keeps IsLinked (store_meta env b new old)
  unfolding store_meta
  store_meta-IsLinked b new old =
      Keeps-bind (on_git (env.git.write_metadata_ref b (meta_of new))) _ (on_git-IsLinked _) λ u.
        Keeps-if (is_valid old) _ _ (Keeps-pure tt)
          (revalidate_children-IsLinked env.stack_size new.children)

  -- `updateMeta` refuses trunk, and a branch that git does not know, and then changes nothing.
  update_meta_refused :
      (b : Name) (new : ValidMeta Addr) (s : Engine W)
      → (r : Result Validation) → old_validation env b s ≡ (r, s)
      → ((old : Validation) → r ≡ ok old → is_trunk_meta old ≡ true)
      → (update_meta env b new s).1 ≡ s
  unfolding update_meta ◌>>=◌
  update_meta_refused b new s (ok old) e t = rw (e, t old refl)
  update_meta_refused b new s (err x) e t = rw e

  update_meta_accepted :
      (b : Name) (new : ValidMeta Addr) (old : Validation) (s : Engine W)
      → branch_exists new.parent_branch_name s ≡ true
      → KeepsArray s.branches b new.children
      → IsLinked s
      → old_validation env b s ≡ (ok old, s)
      → is_trunk_meta old ≡ false
      → IsLinked (update_meta env b new s).1
  update_meta_accepted b new old s there keeps h e not_trunk =
      let (mp, there') = parent_stays env b new.parent_branch_name (widen new) s there in
      let (s', e', h') = update_meta_lem env b new old mp s e not_trunk there' keeps h in
      rw e' ((store_meta-IsLinked b new old).kept s' h')

  -- `updateMeta` under a parent that is there, for the array that the branch had, keeps the links.
  pub update_meta-IsLinked :
      (b : Name) (new : ValidMeta Addr) (s : Engine W)
      → branch_exists new.parent_branch_name s ≡ true
      → KeepsArray s.branches b new.children
      → IsLinked s
      → IsLinked (update_meta env b new s).1
  update_meta-IsLinked b new s there keeps h = after (old_validation env b s).0 same
    where
      same : old_validation env b s ≡ ((old_validation env b s).0, s)
      same = λ i. ((old_validation env b s).0, (old_validation-ReadOnly env b).same s i)

      after :
          (r : Result Validation)
          → old_validation env b s ≡ (r, s)
          → IsLinked (update_meta env b new s).1
      after (err x) e = rw (update_meta_refused b new s (err x) e (λ old q. cc)) h
      after (ok old) e = elim (Bool-cases (is_trunk_meta old)) [
        | inl t ↦ rw (update_meta_refused b new s (ok old) e (λ old' q. ground arith)) h
        | inr t ↦ update_meta_accepted b new old s there keeps h e t
      ]

  -- A branch that is looked up with success is there, and its array is the one in its metadata.
  pub array_of :
      (b : Name) (m : ValidMeta Addr) (s : Engine W)
      → lookup b s.branches ≡ some (widen m)
      → KeepsArray s.branches b m.children
  array_of b m s e m' e' = ground arith

  pub exists_of :
      (p : Name) (m : CachedMeta Addr) (s : Engine W)
      → lookup p s.branches ≡ some m
      → branch_exists p s ≡ true
  unfolding branch_exists
  exists_of p m s e = rw e

  -- A branch whose metadata has been read moves under a parent that is checked first.
  pub move_under :
      (b p : Name) (m new : ValidMeta Addr) (s : Engine W)
      → (valid_meta b s).0 ≡ ok m
      → new.parent_branch_name ≡ p
      → new.children ≡ m.children
      → IsLinked s
      → IsLinked ((valid_or_trunk_meta p >> update_meta env b new) s).1
  move_under b p m new s got parent array h =
      bind_read-kept IsLinked (valid_or_trunk_meta p) _ s (valid_or_trunk_meta-ReadOnly p)
        (λ mp got'.
          update_meta-IsLinked b new s
            (rw parent (exists_of p mp s (valid_or_trunk_meta_ok p mp s got')))
            (rw array (array_of b m s (valid_meta_ok b m s got))) h)
        h

  pub set_parent-IsLinked : (b p : Name) → Keeps IsLinked (set_parent env b p)
  unfolding set_parent
  set_parent-IsLinked b p = record {
    kept = λ s h.
        bind_read-kept IsLinked (validate_new_parent env b p) _ s
          (validate_new_parent-ReadOnly env b p)
          (λ u e.
            bind_read-kept IsLinked (valid_meta b) _ s (valid_meta-ReadOnly b)
              (λ m got. elim (Bool-cases (m.parent_branch_name == p)) [
                | inl stays ↦ rw stays h
                | inr moves ↦ rw moves (move_under b p m _ s got refl refl h)
              ])
              h)
          h;
  }
