-- ===== src/Examples.antt =====
-- A small repository with a linear history, in which a larger revision is a later commit, and an
-- engine over it: the instances at which the theorems are applied.
pub mod Client
pub mod Commands
pub mod Files
pub mod Parsing
pub mod Queues
pub mod Repositories
pub mod Serialized
pub mod Session
pub mod Stacking
pub mod Submitting
pub mod Texts
pub mod Trees
use freephite.Base.{
  ℕ, false, Option, none, some, List, [], ◌∷◌, ◌+◌, Dict, lookup, insert, delete, includes,
  if◌then◌else◌, leb, ◌==◌, map,
}
use freephite.Base.Action.{Result, ok, err, Action, command_failed}
use freephite.Metadata.{
  Name, Sha, Meta, empty_meta, Validation, valid, trunk, bad_parent_name, CachedMeta,
}
use freephite.Git.{Git, Rev, branch, sha, RebaseResult, rebase_done, rebase_conflicted, pull_ok}
use freephite.Engine.State.{Env, CacheLoader, Addr, Engine}
use freephite.Actions.Context.{ActionEnv, choose_abort}

pub record Repo : Type 0 where
  pub heads : Dict Sha
  pub refs : Dict Meta

abbrev or_zero : Option ℕ → ℕ
or_zero none = 0
or_zero (some n) = n

-- unfolded wherever a test computes
unfoldable pub sha_of : Rev → Repo → Sha
sha_of (branch b) w = or_zero (lookup b w.heads)
sha_of (sha r) w = r
sha_of r w = 0

unfoldable pub merge_base : Rev → Rev → Repo → Result Sha
unfolding sha_of
merge_base l r w = if leb (sha_of l w) (sha_of r w) then ok (sha_of l w) else ok (sha_of r w)

abbrev nothing : Action Repo (Unit {0})
nothing w = (ok tt, w)

abbrev or_failed : Option Sha → Result Sha
or_failed none = err command_failed
or_failed (some r) = ok r

unfoldable pub read_head : Rev → Repo → Result Sha
read_head (branch b) w = or_failed (lookup b w.heads)
read_head (sha r) w = ok r
read_head r w = err command_failed

-- A rebase of one of the branches that conflict stops; any other writes a new commit.
unfoldable pub rebase_onto : List Name → Name → Action Repo RebaseResult
rebase_onto conflicting b w =
    if includes b conflicting
    then (ok rebase_conflicted, w)
    else (ok rebase_done, record w { heads = insert b (100 + or_zero (lookup b w.heads)) w.heads })

unfoldable pub write_ref : Name → Meta → Action Repo (Unit {0})
write_ref b m w = (ok tt, record w { refs = insert b m w.refs })

unfoldable pub read_ref : Name → Repo → Meta
read_ref b w = elim (lookup b w.refs) [ none ↦ empty_meta | some m ↦ m ]

unfoldable pub delete_ref : Name → Action Repo (Unit {0})
delete_ref b w = (ok tt, record w { refs = delete b w.refs })

abbrev pub small_git : List Name → Git Repo
small_git conflicting = record {
  get_current_branch_name = λ w. none;
  get_sha_or_throw = read_head;
  get_merge_base = merge_base;
  get_commit_range = λ from to w. ok (to ∷ []);
  get_remote_sha = λ b w. none;
  is_merged = λ b t w. ok false;
  is_diff_empty = λ b r w. ok false;
  read_fetch_head = λ w. ok 50;
  read_fetch_base = λ w. ok 10;
  rebase_in_progress = λ w. false;
  switch_branch = λ r opts. nothing;
  move_branch = λ b. nothing;
  delete_branch = λ b. nothing;
  force_create_branch = λ b r. nothing;
  force_checkout_new_branch = λ b r. nothing;
  commit = λ opts. nothing;
  soft_reset = λ r. nothing;
  mixed_reset = λ r. nothing;
  hard_reset = λ r. nothing;
  tracked_reset = λ r. nothing;
  rebase = λ onto from b by_author. rebase_onto conflicting b;
  rebase_interactive = λ from b. rebase_onto conflicting b;
  rebase_continue = λ w. (ok rebase_done, w);
  rebase_abort = nothing;
  set_remote_tracking = λ b r. nothing;
  fetch_branch = λ b. nothing;
  write_fetch_base = λ r. nothing;
  pull_branch = λ b w. (ok pull_ok, w);
  push_branch = λ b force no_verify. nothing;
  prune_remote = nothing;
  get_branch_names_and_revisions = λ w. ok w.heads;
  get_metadata_ref_list = λ w. ok (map (λ e. e.0) w.refs);
  read_metadata_ref = read_ref;
  write_metadata_ref = write_ref;
  delete_metadata_ref = delete_ref;
}

abbrev no_cache : CacheLoader Repo
no_cache = record {
  load_cached_branches = λ t w. (ok [], w);
  persist_cache = λ t branches. nothing;
  clear_persisted_cache = nothing;
}

abbrev pub small_env : List Name → Env Repo
small_env conflicting = record {
  git = small_git conflicting;
  cache_loader = no_cache;
  hash_branches = λ branches. 0;
  no_verify = false;
  restack_committer_date_is_author_date = false;
  stack_size = 8;
}

abbrev pub small_action_env : List Name → ActionEnv Repo
small_action_env conflicting = record {
  env = small_env conflicting;
  interactive = false;
  choose = λ names w. none;
  confirm = λ w. false;
  fetch_choice = λ w. choose_abort;
  add_all = nothing;
  detect_staged_changes = λ w. false;
}

abbrev pub cached : Validation → Sha → Addr → CachedMeta Addr
cached v r a = record { validation = v; branch_revision = r; children = a; pr_info = none }

abbrev pub small_repo : Repo
small_repo = record { heads = (1, 10) ∷ (2, 20) ∷ (3, 30) ∷ (4, 40) ∷ []; refs = [] }

abbrev pub engine_with : Dict (CachedMeta Addr) → (Addr → List Name) → Engine Repo
engine_with branches arrays = record {
  repository = small_repo;
  trunk_name = some 1;
  current_branch = some 4;
  branches = branches;
  arrays = arrays;
  next = 5;
  original = none;
}

-- Trunk, and three branches that are not tracked yet.
abbrev pub untracked : Engine Repo
untracked =
    engine_with
      ((1, cached trunk 10 1)
        ∷ (2, cached bad_parent_name 20 2)
        ∷ (3, cached bad_parent_name 30 3)
        ∷ (4, cached bad_parent_name 40 4)
        ∷ [])
      λ a. []

-- The array of the children of branch `n` has the address `n`.
abbrev stack_arrays : Addr → List Name
stack_arrays a = if a == 1 then 2 ∷ [] else if a == 2 then 3 ∷ [] else if a == 3 then 4 ∷ [] else []

-- A stack of three branches on trunk, of which branch 3 has to be restacked.
abbrev pub stacked : Engine Repo
stacked =
    engine_with
      ((1, cached trunk 10 1)
        ∷ (2, cached (valid 1 10) 20 2)
        ∷ (3, cached (valid 2 15) 30 3)
        ∷ (4, cached (valid 3 30) 40 4)
        ∷ [])
      stack_arrays
