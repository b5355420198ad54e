-- ===== src/Engine/CacheFiles.antt =====
-- The two files beside the repository: the lock of apps/cli/src/lib/engine/cache_lock.ts, and the cache
-- that apps/cli/src/lib/engine/cache_loader.ts persists.
use freephite.Base.{
  ℕ, ◌||◌, Option, none, some, List, if◌then◌else◌, truthy, is_some, is_value, Dict,
}
use freephite.Base.Action.{concurrent_execution, Result, ok, err}
use freephite.Metadata.{Name, Sha, CachedMeta}

-- The data of the lock file; a file that is not there has neither.
pub record LockFile : Type 0 where
  pub pid : Option ℕ
  pub timestamp : Option ℕ

abbrev unlocked : LockFile
unlocked = record { pid = none; timestamp = none }

-- The two steps of `lock` between which other processes may run: the test of what it has loaded, and
-- the update that writes the file, in the process `pid` at the time `now`.
unfoldable pub test_lock : LockFile → Result (Unit {0})
test_lock loaded =
    if is_some (truthy loaded.pid) || is_some (truthy loaded.timestamp)
    then err concurrent_execution
    else ok tt

unfoldable pub write_lock : ℕ → ℕ → LockFile → LockFile
write_lock pid now loaded = record { pid = some pid; timestamp = some now }

-- `release`
unfoldable pub release : LockFile → LockFile
release file = unlocked

-- `TCacheSeed`
pub record CacheSeed : Type 0 where
  pub version : ℕ
  pub trunk_name : Option Name
  pub rebase_head : Option Name
  pub git_branch_names_and_revisions : List (Name × Sha)
  pub metadata_ref_list : List (Name × Sha)

-- The data of the persisted cache.
pub record PersistedCache : Type 0 where
  pub sha : Option ℕ
  pub branches : Dict (CachedMeta (List Name))

-- What `composeCacheLoader` keeps: the file, and the data in memory that `load` has read from it
-- once.
pub record LoaderState : Type 0 where
  pub file : Option PersistedCache
  pub memory : PersistedCache

module _ (hash_seed : CacheSeed → ℕ) where
  -- `loadCachedBranches`, given what the parser makes of the seed
  unfoldable pub load_cached_branches :
      (CacheSeed → Dict (CachedMeta (List Name)))
      → CacheSeed
      → LoaderState
      → Dict (CachedMeta (List Name))
  load_cached_branches parse seed loader =
      if is_value loader.memory.sha (hash_seed seed) then loader.memory.branches else parse seed

  -- `persistCache` and `clearPersistedCache`: the one writes the data and the file, the other removes
  -- the file alone.
  unfoldable pub persist_cache :
      CacheSeed → Dict (CachedMeta (List Name)) → LoaderState → LoaderState
  persist_cache seed branches loader =
      let written : PersistedCache = record { sha = some (hash_seed seed); branches = branches } in
      record { file = some written; memory = written }

  unfoldable pub clear_persisted_cache : LoaderState → LoaderState
  clear_persisted_cache loader = record loader { file = none }
