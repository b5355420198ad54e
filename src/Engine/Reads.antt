-- ===== src/Engine/Reads.antt =====
-- The reads of the engine change nothing, and what their success says of the cache.
use freephite.Base.{
  ℕ, zero, suc, Bool, true, false, some, List, [], ◌∷◌, ◌≡◌, refl, inl, inr, arith, ◌==◌, truthy,
  lookup, Option-cases,
}
use freephite.Base.Action.{ok, Action, gets, raise_if, preconditions_failed, ◌>>=◌}
use freephite.Base.Action.Keeps.{
  ReadOnly, ReadOnly-bind, ReadOnly-if, ReadOnly-pure, ReadOnly-raise, ReadOnly-reads,
}
use freephite.Metadata.{Name, CachedMeta, ValidMeta, widen}
use freephite.Engine.State.{
  Env, Addr, Engine, get_meta, assert_branch, branch_exists, get_current_branch_or_throw,
  valid_or_trunk_meta, valid_meta, is_branch_fixed, get_children, get_parent, flat_map_children,
  get_recursive_children, get_recursive_parents,
}
use freephite.Engine.Update.{refuse_descendant, validate_new_parent, old_validation}

module _ {W : Type 0} where
  pub get_meta-ReadOnly : (b : Name) → ReadOnly (get_meta {W = W} b)
  get_meta-ReadOnly b = record { same = λ s. ground arith }

  pub assert_branch-ReadOnly : (b : Name) → ReadOnly (assert_branch {W = W} b)
  unfolding assert_branch
  assert_branch-ReadOnly b = record { same = λ s. refl }

  pub valid_meta-ReadOnly : (b : Name) → ReadOnly (valid_meta {W = W} b)
  unfolding valid_meta
  valid_meta-ReadOnly b = record { same = λ s. ground arith }

  pub valid_or_trunk_meta-ReadOnly : (b : Name) → ReadOnly (valid_or_trunk_meta {W = W} b)
  unfolding valid_or_trunk_meta
  valid_or_trunk_meta-ReadOnly b = record { same = λ s. ground arith }

  pub get_current_branch_or_throw-ReadOnly : ReadOnly (get_current_branch_or_throw {W = W})
  unfolding get_current_branch_or_throw ◌>>=◌
  get_current_branch_or_throw-ReadOnly = record { same = λ s. ground arith }

  pub is_branch_fixed-ReadOnly : (b : Name) → ReadOnly (is_branch_fixed {W = W} b)
  unfolding is_branch_fixed ◌>>=◌
  is_branch_fixed-ReadOnly b = record { same = λ s. ground arith }

  pub get_children-ReadOnly : (b : Name) → ReadOnly (get_children {W = W} b)
  unfolding get_children ◌>>=◌
  get_children-ReadOnly b = record { same = λ s. ground arith }

  pub flat_map_children-ReadOnly :
      (f : Name → Action (Engine W) (List Name)) (cs : List Name)
      → ((c : Name) → ReadOnly (f c))
      → ReadOnly (flat_map_children f cs)
  unfolding flat_map_children
  flat_map_children-ReadOnly f [] r = ReadOnly-pure []
  flat_map_children-ReadOnly f (c ∷ cs) r = ReadOnly-bind (f c) _ (r c) λ below.
      ReadOnly-bind (flat_map_children f cs) _ (flat_map_children-ReadOnly f cs r)
        λ rest. ReadOnly-pure _

  pub get_recursive_children-ReadOnly :
      (depth : ℕ) (b : Name) → ReadOnly (get_recursive_children {W = W} depth b)
  unfolding get_recursive_children
  get_recursive_children-ReadOnly zero b = ReadOnly-raise _
  get_recursive_children-ReadOnly (suc depth) b =
      ReadOnly-bind (get_children b) _ (get_children-ReadOnly b)
        λ cs. flat_map_children-ReadOnly _ cs (get_recursive_children-ReadOnly depth)

  pub get_recursive_parents-ReadOnly :
      (depth : ℕ) (b : Name) → ReadOnly (get_recursive_parents {W = W} depth b)
  unfolding get_recursive_parents ◌>>=◌
  get_recursive_parents-ReadOnly zero b = ReadOnly-raise _
  get_recursive_parents-ReadOnly (suc depth) b = record {
    same = λ s. elim (Option-cases (truthy (get_parent b s))) [
      | inl e ↦ ground arith
      | inr (p, e) ↦ ground (arith, (get_recursive_parents-ReadOnly depth p).same s)
    ];
  }

  pub raise_if-ReadOnly : (c : Bool) → ReadOnly (raise_if {S = Engine W} c preconditions_failed)
  raise_if-ReadOnly true = ReadOnly-raise _
  raise_if-ReadOnly false = ReadOnly-pure _

  -- What a successful check says of the cache.
  pub valid_meta_ok :
      (b : Name) (m : ValidMeta Addr) (s : Engine W)
      → (valid_meta b s).0 ≡ ok m
      → lookup b s.branches ≡ some (widen m)
  unfolding valid_meta
  valid_meta_ok b m s e = ground arith

  pub valid_or_trunk_meta_ok :
      (b : Name) (m : CachedMeta Addr) (s : Engine W)
      → (valid_or_trunk_meta b s).0 ≡ ok m
      → lookup b s.branches ≡ some m
  unfolding valid_or_trunk_meta
  valid_or_trunk_meta_ok b m s e = ground arith

module _ {W : Type 0} (env : Env W) where
  refuse_descendant-ReadOnly :
      (b p : Name) (there : Bool) → ReadOnly (refuse_descendant env b p there)
  unfolding refuse_descendant
  refuse_descendant-ReadOnly b p true =
      ReadOnly-bind (get_recursive_children env.stack_size b) _
        (get_recursive_children-ReadOnly env.stack_size b) (λ below. raise_if-ReadOnly _)
  refuse_descendant-ReadOnly b p false = ReadOnly-pure _

  pub validate_new_parent-ReadOnly : (b p : Name) → ReadOnly (validate_new_parent env b p)
  unfolding validate_new_parent
  validate_new_parent-ReadOnly b p =
      ReadOnly-if (b == p) _ _ (ReadOnly-raise _) (
        ReadOnly-bind (gets (branch_exists b)) _ (ReadOnly-reads _)
          (refuse_descendant-ReadOnly b p))

  pub old_validation-ReadOnly : (b : Name) → ReadOnly (old_validation env b)
  unfolding old_validation ◌>>=◌
  old_validation-ReadOnly b = record { same = λ s. ground arith }
