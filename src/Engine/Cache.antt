-- ===== src/Engine/Cache.antt =====
-- The engine and the cache on disk: loading, persisting, resetting.
use freephite.Base.{Option, none, some, List, [], ◌∷◌, ◌==◌, if◌then◌else◌, Dict}
use freephite.Base.Action.{Result, Action, pure, gets, modify, ◌>>=◌, ◌>>◌, for_each}
use freephite.Metadata.{Name, CachedMeta}
use freephite.Engine.State.{Env, Addr, Branches, Engine, on_git, read_git, set_array, new_array}

-- The cached branches with their arrays read out.
unfoldable pub snapshot : (Addr → List Name) → Branches → Dict (CachedMeta (List Name))
snapshot arrays [] = []
snapshot arrays ((b, m) ∷ d) =
    (
      b,
      record {
        validation = m.validation;
        branch_revision = m.branch_revision;
        children = arrays m.children;
        pr_info = m.pr_info;
      },
    )
    ∷ snapshot arrays d

module _ {W : Type 0} (env : Env W) where
  -- A change of representation with no call in the source: the arrays of the loaded branches enter the
  -- store, each at an address of its own.
  unfoldable pub allocate : Dict (CachedMeta (List Name)) → Action (Engine W) Branches
  allocate [] = pure []
  allocate ((b, m) ∷ d) = do
    a ← new_array
    set_array a m.children
    rest ← allocate d
    pure (
        (
          b,
          record {
            validation = m.validation;
            branch_revision = m.branch_revision;
            children = a;
            pr_info = m.pr_info;
          },
        )
        ∷ rest)

  -- `composeEngine`, given the arguments `trunkName` and `currentBranchOverride`. The cache and
  -- `originallyLoadedBranches` are one object.
  unfoldable pub compose_engine : W → Option Name → Option Name → Result (Unit {0}) × Engine W
  unfolding allocate
  compose_engine w trunk_name override =
      (do
        loaded ← on_git (env.cache_loader.load_cached_branches trunk_name)
        current ← gets λ s. elim override [
          | none ↦ env.git.get_current_branch_name s.repository
          | some b ↦ some b
        ]
        branches ← allocate loaded
        modify λ s. record s { branches = branches; current_branch = current })
        (record {
          repository = w;
          trunk_name = trunk_name;
          current_branch = none;
          branches = [];
          arrays = λ a. [];
          next = 0;
          original = none;
        })

  -- The entries of `originallyLoadedBranches` as they are now.
  abbrev pub original_branches : Engine W → Branches
  original_branches s = elim s.original [ none ↦ s.branches | some d ↦ d ]

  unfoldable pub persist : Action (Engine W) (Unit {0})
  unfolding snapshot
  persist = do
    before_hash ← gets λ s. env.hash_branches (snapshot s.arrays (original_branches s))
    now ← gets λ s. snapshot s.arrays s.branches
    trunk_name ← gets λ s. s.trunk_name
    if before_hash == env.hash_branches now
        then pure tt
        else on_git (env.cache_loader.persist_cache trunk_name now)

  unfoldable pub clear : Action (Engine W) (Unit {0})
  clear = on_git env.cache_loader.clear_persisted_cache

  -- `cache.branches = cacheLoader.loadCachedBranches(trunkName)`, after which the original object
  -- is no longer the cache
  unfoldable pub rebuild : Option Name → Action (Engine W) (Unit {0})
  unfolding allocate
  rebuild new_trunk = do
    modify λ s. record s { trunk_name = elim new_trunk [ none ↦ s.trunk_name | some t ↦ some t ] }
    trunk_name ← gets λ s. s.trunk_name
    loaded ← on_git (env.cache_loader.load_cached_branches trunk_name)
    branches ← allocate loaded
    modify λ s. record s { branches = branches; original = some (original_branches s) }

  unfoldable pub reset : Option Name → Action (Engine W) (Unit {0})
  unfolding rebuild
  reset new_trunk = do
    modify λ s. record s { trunk_name = elim new_trunk [ none ↦ s.trunk_name | some t ↦ some t ] }
    refs ← read_git env.git.get_metadata_ref_list
    for_each (λ b. on_git (env.git.delete_metadata_ref b)) refs
    rebuild none
