-- ===== src/Actions/Split.antt =====
-- apps/cli/src/actions/split.ts: the current branch becomes several, by its commits or by hunks.
pub mod Points
use freephite.Base.{
  ℕ, zero, suc, ◌+◌, Bool, true, false, not, ◌||◌, ◌&&◌, Option, none, some, List, [], ◌∷◌, ◌++◌,
  ◌==◌, length, includes, leb, if◌then◌else◌,
}
use freephite.Base.Action.{
  preconditions_failed, killed, stack_overflow, Result, ok, err, Action, pure, raise, raise_if,
  gets, ◌>>=◌, ◌>>◌, on_error,
}
use freephite.Metadata.{Name}
use freephite.Git.{CommitOpts}
use freephite.Engine.State.{Engine, on_git, is_branch_tracked, get_children}
use freephite.Engine.Queries.{
  current_branch_precondition, get_relative_stack, scope_upstack_exclusive, get_all_commits,
  get_parent_precondition,
}
use freephite.Engine.Commits.{
  commit, detach, detach_and_reset_branch_changes, apply_split_to_commits, force_checkout_branch,
}
use freephite.Actions.Context.{ActionEnv, Prompts, Context, on_engine, engine_gets}
use freephite.Actions.Restack.{restack_branches}
use freephite.Actions.Track.{Sort, track_branch_action}

-- `TSplit`
pub record Split : Type 0 where
  pub branch_names : List Name
  pub branch_points : List ℕ

pub data Style : Type 0 where
  by_commit by_hunk abort : Style

-- What the user answers: the commit to toggle, `none` to confirm; the name of the next branch, as
-- `replaceUnsupportedCharacters` leaves it, given those before it; and the style.
pub record SplitPrompts (W : Type 0) : Type 0 where
  pub toggle : List Bool → Action W (Option ℕ)
  pub next_branch_name : Name → List Name → Action W Name
  pub style : Name → Action W Style

-- `isBranchPoint[i] = !isBranchPoint[i]`; an index past the end, which no choice has, is passed over
unfoldable pub toggle_at : ℕ → List Bool → List Bool
toggle_at i [] = []
toggle_at zero (b ∷ bs) = not b ∷ bs
toggle_at (suc i) (b ∷ bs) = b ∷ toggle_at i bs

-- `isBranchPoint.map((value, index) => (value ? index : undefined)).filter(…)` from the index `i` on
unfoldable pub points_from : ℕ → List Bool → List ℕ
points_from i [] = []
points_from i (b ∷ bs) = let rest = points_from (suc i) bs in if b then i ∷ rest else rest

-- `readableCommits.map((_, idx) => idx === 0)`
abbrev falses : ℕ → List Bool
falses zero = []
falses (suc n) = false ∷ falses n

abbrev pub first_point : ℕ → List Bool
first_point zero = []
first_point (suc n) = true ∷ falses n

-- `isBranchPoint` after a choice: the first commit is never toggled
abbrev pub toggled : ℕ → List Bool → List Bool
toggled i bs = if i == 0 then bs else toggle_at i bs

module _ {W : Type 0} (env : ActionEnv W) (ask : SplitPrompts W) where
  -- The loop of `getBranchPoints`; the fuel is the answers that are left.
  unfoldable pub choose_points : ℕ → List Bool → Action (Engine W) (List Bool)
  choose_points zero bs = raise stack_overflow
  choose_points (suc n) bs = do
    answer ← on_git (ask.toggle bs)
    elim answer [ none ↦ pure bs | some i ↦ choose_points n (toggled i bs) ]

  unfoldable pub get_branch_points : ℕ → ℕ → Action (Engine W) (List ℕ)
  unfolding choose_points points_from
  get_branch_points answers commits = do
    chosen ← choose_points answers (first_point commits)
    pure (points_from 0 chosen)

  -- one name for each of the branch points
  unfoldable pub name_branches : Name → List Name → List ℕ → Action (Engine W) (List Name)
  name_branches b names [] = pure names
  name_branches b names (p ∷ points) = do
    name ← on_git (ask.next_branch_name b names)
    name_branches b (names ++ name ∷ []) points

  -- `splitByCommit`
  unfoldable pub split_by_commit : ℕ → Name → Action (Engine W) Split
  unfolding get_branch_points name_branches
  split_by_commit answers b = do
    commits ← get_all_commits env.env b
    get_children b
    get_parent_precondition b
    points ← get_branch_points answers (length commits)
    names ← name_branches b [] points
    detach env.env
    pure (record { branch_names = names; branch_points = points })

-- `getUnstagedChanges` where only its emptiness counts, and the joined messages of the commits
pub record Hunks (W : Type 0) : Type 0 where
  pub has_unstaged_changes : W → Bool
  pub default_commit_message : Name → Action (Engine W) ℕ

-- `try { m } catch (e) { f; throw e; }`, where an error of `f` is thrown in its place
abbrev restoring : {S A : Type 0} → Action S A → Action S (Unit {0}) → Action S A
restoring m f s = let (r, s') = m s in elim r [ ok a ↦ (ok a, s') | err e ↦ (f >> raise e) s' ]

module _ {W : Type 0} (env : ActionEnv W) (ask : SplitPrompts W) (hunks : Hunks W) where
  abbrev hunk_opts : ℕ → CommitOpts
  hunk_opts message = record {
    amend = false;
    message = some message;
    no_edit = false;
    edit = true;
    patch = true;
    no_verify = env.env.no_verify;
  }

  -- The loop of `splitByHunk`; the fuel is the commits that are left.
  unfoldable pub commit_hunks : ℕ → Name → ℕ → List Name → Action (Engine W) (List Name)
  commit_hunks zero b message names = raise stack_overflow
  commit_hunks (suc n) b message names = do
    unstaged ← gets λ s. hunks.has_unstaged_changes s.repository
    elim unstaged [
      | false ↦ pure names
      | true ↦ do
        commit env.env (hunk_opts message)
        name ← on_git (ask.next_branch_name b names)
        commit_hunks n b message (names ++ name ∷ [])
    ]

  abbrev pub indices_from : ℕ → List Name → List ℕ
  indices_from i [] = []
  indices_from i (x ∷ xs) = i ∷ indices_from (suc i) xs

  abbrev try_hunks : ℕ → Name → Action (Engine W) (List Name)
  try_hunks commits b = do
    message ← hunks.default_commit_message b
    commit_hunks commits b message []

  -- `splitByHunk`: after an error the branch is checked out again.
  unfoldable pub split_by_hunk : ℕ → Name → Action (Engine W) Split
  unfolding commit_hunks
  split_by_hunk commits b = do
    detach_and_reset_branch_changes env.env
    names ← restoring (try_hunks commits b) (force_checkout_branch env.env b)
    pure (record { branch_names = names; branch_points = indices_from 0 names })

  unfoldable pub split_in_style : ℕ → ℕ → Style → Name → Action (Engine W) Split
  unfolding split_by_commit split_by_hunk
  split_in_style answers commits by_commit b = split_by_commit env ask answers b
  split_in_style answers commits by_hunk b = split_by_hunk commits b
  split_in_style answers commits abort b = raise killed

  abbrev chosen_style : Option Style → Name → Action (Engine W) Style
  chosen_style (some style) b = pure style
  chosen_style none b = do
    commits ← get_all_commits env.env b
    if leb 2 (length commits) then on_git (ask.style b) else pure by_hunk

  -- `splitCurrentBranch`
  unfoldable pub split_current_branch :
      Prompts W → Sort W → (W → Bool) → ℕ → ℕ → Option Style → Action (Context W) (Unit {0})
  unfolding split_in_style track_branch_action
  split_current_branch prompts sort uncommitted answers commits style = do
    raise_if (not env.interactive) preconditions_failed
    changes ← engine_gets λ s. uncommitted s.repository
    raise_if changes preconditions_failed
    b ← on_engine current_branch_precondition
    tracked ← on_engine (is_branch_tracked b)
    if tracked
        then pure tt
        else on_engine (track_branch_action env prompts sort (some b) none false)
    chosen ← on_engine (chosen_style style b)
    split ← on_engine (split_in_style answers commits chosen b)
    children ← on_engine (get_relative_stack env.env b scope_upstack_exclusive)
    on_engine (apply_split_to_commits env.env b split.branch_names split.branch_points)
    restack_branches env children
