-- ===== src/Engine/State.antt =====
-- The state that `composeEngine` closes over, and its small helpers. The arrays of children are
-- shared by reference between copies of a branch's metadata, so they live in a store and the
-- metadata holds their addresses.
use freephite.Base.{
  ℕ, zero, suc, Bool, true, false, Option, none, some, List, [], ◌∷◌, ◌++◌, ◌==◌, if◌then◌else◌,
  truthy, is_value, is_some, length, get_elem?, filter, splice, Dict, lookup, insert, keys,
}
use freephite.Base.Action.{
  no_branch, detached, preconditions_failed, type_error, stack_overflow, Result, ok, err, Action,
  pure, raise, gets, reads, or_raise, modify, ◌>>=◌, ◌>>◌,
}
use freephite.Metadata.{
  Name, valid, trunk, CachedMeta, ValidMeta, is_valid, parent_of, assert_valid_and_not_trunk,
  assert_valid_or_trunk,
}
use freephite.Git.{Git}

-- `TCacheLoader`
pub record CacheLoader (W : Type 0) : Type 0 where
  pub load_cached_branches : Option Name → Action W (Dict (CachedMeta (List Name)))
  pub persist_cache : Option Name → Dict (CachedMeta (List Name)) → Action W (Unit {0})
  pub clear_persisted_cache : Action W (Unit {0})

-- The arguments of `composeEngine` that never change, the hash of `fast-json-stable-hash`, and the
-- depth of recursion at which the runtime throws.
pub record Env (W : Type 0) : Type 0 where
  pub git : Git W
  pub cache_loader : CacheLoader W
  pub hash_branches : Dict (CachedMeta (List Name)) → ℕ
  pub no_verify : Bool
  pub restack_committer_date_is_author_date : Bool
  pub stack_size : ℕ

abbrev pub Addr : Type 0
Addr = ℕ

abbrev pub Branches : Type 0
Branches = Dict (CachedMeta Addr)

-- `original` is `none` while `cache.branches` is the very object `originallyLoadedBranches`, and
-- holds the latter's entries once `cache.branches` is another object.
pub record Engine (W : Type 0) : Type 0 where
  pub repository : W
  pub trunk_name : Option Name
  pub current_branch : Option Name
  pub branches : Branches
  pub arrays : Addr → List Name
  pub next : Addr
  pub original : Option Branches

abbrev pub write_array : (Addr → List Name) → Addr → List Name → Addr → List Name
write_array arrays a xs a' = if a == a' then xs else arrays a'

module _ {W : Type 0} where
  unfoldable pub on_git : {A : Type 0} → Action W A → Action (Engine W) A
  on_git m s = let (r, w) = m s.repository in (r, record s { repository = w })

  abbrev pub read_git : {A : Type 0} → (W → Result A) → Action (Engine W) A
  read_git f = reads λ s. f s.repository

  -- `cache.branches[branchName] = meta`
  abbrev pub put_meta : Name → CachedMeta Addr → Action (Engine W) (Unit {0})
  put_meta b m = modify λ s. record s { branches = insert b m s.branches }

  abbrev pub set_current_branch : Option Name → Action (Engine W) (Unit {0})
  set_current_branch b = modify λ s. record s { current_branch = b }

  -- `children: []`
  abbrev pub new_array : Action (Engine W) Addr
  new_array s = (ok s.next, record s { next = suc s.next; arrays = write_array s.arrays s.next [] })

  abbrev pub set_array : Addr → List Name → Action (Engine W) (Unit {0})
  set_array a xs = modify λ s. record s { arrays = write_array s.arrays a xs }

  -- `cache.branches[branchName]`, of which a property is read next
  abbrev pub get_meta : Name → Action (Engine W) (CachedMeta Addr)
  get_meta b s = or_raise (lookup b s.branches) type_error s

  abbrev pub children_of : CachedMeta Addr → Engine W → List Name
  children_of m s = s.arrays m.children

  -- `xs.forEach(body)` where `body` may write to `xs`: the length is read once, and each element
  -- when its turn comes; an index that is gone by then is passed over.
  unfoldable pub for_each_index :
      (Name → Action (Engine W) (Unit {0})) → Addr → ℕ → ℕ → Action (Engine W) (Unit {0})
  for_each_index body a i zero = pure tt
  for_each_index body a i (suc n) = do
    x ← gets λ s. get_elem? (s.arrays a) i
    elim x [ none ↦ pure tt | some c ↦ body c ]
    for_each_index body a (suc i) n

  unfoldable pub for_each_live :
      Addr → (Name → Action (Engine W) (Unit {0})) → Action (Engine W) (Unit {0})
  unfolding for_each_index
  for_each_live a body = do n ← gets λ s. length (s.arrays a); for_each_index body a 0 n

  unfoldable pub branch_exists : Name → Engine W → Bool
  branch_exists b s = is_some (lookup b s.branches)

  -- `assertBranch`
  unfoldable pub assert_branch : Name → Action (Engine W) (Unit {0})
  unfolding branch_exists
  assert_branch b s = (if branch_exists b s then ok tt else err (no_branch b), s)

  -- `assertTrunk`
  unfoldable pub assert_trunk : Action (Engine W) Name
  assert_trunk s = or_raise (truthy s.trunk_name) preconditions_failed s

  -- `getCurrentBranchOrThrow`
  unfoldable pub get_current_branch_or_throw : Action (Engine W) Name
  unfolding assert_branch
  get_current_branch_or_throw s = elim (truthy s.current_branch) [
    | none ↦ (err detached, s)
    | some b ↦ (do assert_branch b; pure b) s
  ]

  -- `assertBranchIsValidOrTrunkAndGetMeta`
  unfoldable pub valid_or_trunk_meta : Name → Action (Engine W) (CachedMeta Addr)
  valid_or_trunk_meta b s = elim (lookup b s.branches) [
    | none ↦ (err (no_branch b), s)
    | some m ↦ (assert_valid_or_trunk b m, s)
  ]

  -- `assertBranchIsValidAndNotTrunkAndGetMeta`
  unfoldable pub valid_meta : Name → Action (Engine W) (ValidMeta Addr)
  valid_meta b s = elim (lookup b s.branches) [
    | none ↦ (err (no_branch b), s)
    | some m ↦ (assert_valid_and_not_trunk b m, s)
  ]

  unfoldable pub is_trunk : Name → Engine W → Bool
  is_trunk b s = is_value s.trunk_name b

  -- `allBranchNames`
  unfoldable pub all_branch_names : Engine W → List Name
  all_branch_names s = keys s.branches

  unfoldable pub is_branch_tracked : Name → Action (Engine W) Bool
  unfolding assert_branch
  is_branch_tracked b = do assert_branch b; m ← get_meta b; pure (is_valid m.validation)

  -- `isBranchFixed`
  unfoldable pub is_branch_fixed : Name → Action (Engine W) Bool
  is_branch_fixed b s = elim (lookup b s.branches) [
    | none ↦ (ok false, s)
    | some m ↦ elim m.validation [
      | trunk ↦ (ok true, s)
      | valid p r ↦ (do parent ← get_meta p; pure (r == parent.branch_revision)) s
      | _ ↦ (ok false, s)
    ]
  ]

  -- `cache.branches[childBranchName]?.validationResult === 'VALID'`
  abbrev pub is_valid_branch : Engine W → Name → Bool
  is_valid_branch s b = elim (lookup b s.branches) [ none ↦ false | some m ↦ is_valid m.validation ]

  -- `getChildren`
  unfoldable pub get_children : Name → Action (Engine W) (List Name)
  get_children b = do m ← get_meta b; gets λ s. filter (is_valid_branch s) (children_of m s)

  -- `getParent`
  unfoldable pub get_parent : Name → Engine W → Option Name
  get_parent b s = elim (lookup b s.branches) [ none ↦ none | some m ↦ parent_of m.validation ]

  -- `children.flatMap((child) => [child, ...f(child)])`
  unfoldable pub flat_map_children :
      (Name → Action (Engine W) (List Name)) → List Name → Action (Engine W) (List Name)
  flat_map_children f [] = pure []
  flat_map_children f (c ∷ cs) = do
    below ← f c
    rest ← flat_map_children f cs
    pure (c ∷ below ++ rest)

  -- `getRecursiveChildren`; the fuel is the stack that is left.
  unfoldable pub get_recursive_children : ℕ → Name → Action (Engine W) (List Name)
  unfolding get_children flat_map_children
  get_recursive_children zero b = raise stack_overflow
  get_recursive_children (suc depth) b = do
    children ← get_children b
    flat_map_children (get_recursive_children depth) children

  -- `getRecursiveParentsExcludingTrunk`
  unfoldable pub get_recursive_parents : ℕ → Name → Action (Engine W) (List Name)
  unfolding get_parent is_trunk
  get_recursive_parents zero b = raise stack_overflow
  get_recursive_parents (suc depth) b = do
    parent ← gets λ s. truthy (get_parent b s)
    elim parent [
      | none ↦ pure []
      | some p ↦ do
        at_trunk ← gets (is_trunk p)
        elim at_trunk [
          | true ↦ pure []
          | false ↦ do above ← get_recursive_parents depth p; pure (above ++ p ∷ [])
        ]
    ]

  -- `removeChild`
  unfoldable pub remove_child : Name → Name → Action (Engine W) (Unit {0})
  unfolding assert_branch
  remove_child p c = do
    assert_branch p
    m ← get_meta p
    children ← gets (children_of m)
    set_array m.children (splice c children)
