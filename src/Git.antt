-- ===== src/Git.antt =====
-- What the engine uses of git: the functions that apps/cli/src/lib/git/git.ts collects, each of
-- which runs one git command, and the refs under refs/branch-metadata/
-- (apps/cli/src/lib/engine/metadata_ref.ts). `W` is the repository. A read leaves it alone.
use freephite.Base.{ℕ, Bool, Option, List}
use freephite.Base.Action.{Result, Action}
use freephite.Metadata.{Name, Sha, Meta}

-- The revisions that the program writes on a command line.
pub data Rev : Type 0 where
  branch : Name → Rev
  sha : Sha → Rev
  -- `${branchName}~`
  before : Name → Rev
  -- `@~${n}`
  head_ago : ℕ → Rev
  -- `${remote}/${branchName}`
  remote_branch : Name → Rev

-- The options of `switchBranch`.
pub record SwitchOpts : Type 0 where
  pub new : Bool
  pub detach : Bool
  pub force : Bool

pub record CommitOpts : Type 0 where
  pub amend : Bool
  pub message : Option ℕ
  pub no_edit : Bool
  pub edit : Bool
  pub patch : Bool
  pub no_verify : Bool

pub data RebaseResult : Type 0 where
  rebase_done rebase_conflicted : RebaseResult

pub data PullBranch : Type 0 where
  pull_ok pull_conflicted : PullBranch

pub record Git (W : Type 0) : Type 0 where
  pub get_current_branch_name : W → Option Name
  pub get_sha_or_throw : Rev → W → Result Sha
  pub get_merge_base : Rev → Rev → W → Result Sha
  pub get_commit_range : Option Sha → Sha → W → Result (List Sha)
  pub get_remote_sha : Name → W → Option Sha
  pub is_merged : Name → Name → W → Result Bool
  pub is_diff_empty : Name → Sha → W → Result Bool
  pub read_fetch_head : W → Result Sha
  pub read_fetch_base : W → Result Sha
  pub rebase_in_progress : W → Bool
  pub switch_branch : Rev → SwitchOpts → Action W (Unit {0})
  pub move_branch : Name → Action W (Unit {0})
  pub delete_branch : Name → Action W (Unit {0})
  pub force_create_branch : Name → Sha → Action W (Unit {0})
  pub force_checkout_new_branch : Name → Sha → Action W (Unit {0})
  pub commit : CommitOpts → Action W (Unit {0})
  pub soft_reset : Option Sha → Action W (Unit {0})
  pub mixed_reset : Rev → Action W (Unit {0})
  pub hard_reset : Option Sha → Action W (Unit {0})
  pub tracked_reset : Sha → Action W (Unit {0})
  -- `rebase --onto onto from branch`, with or without `--committer-date-is-author-date`
  pub rebase : Rev → Sha → Name → Bool → Action W RebaseResult
  pub rebase_interactive : Sha → Name → Action W RebaseResult
  pub rebase_continue : Action W RebaseResult
  pub rebase_abort : Action W (Unit {0})
  pub set_remote_tracking : Name → Sha → Action W (Unit {0})
  pub fetch_branch : Name → Action W (Unit {0})
  pub write_fetch_base : Sha → Action W (Unit {0})
  pub pull_branch : Name → Action W PullBranch
  pub push_branch : Name → Bool → Bool → Action W (Unit {0})
  pub prune_remote : Action W (Unit {0})
  pub get_branch_names_and_revisions : W → Result (List (Name × Sha))
  pub get_metadata_ref_list : W → Result (List Name)
  pub read_metadata_ref : Name → W → Meta
  pub write_metadata_ref : Name → Meta → Action W (Unit {0})
  pub delete_metadata_ref : Name → Action W (Unit {0})
