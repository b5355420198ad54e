-- ===== src/Actions/Submit.antt =====
-- apps/cli/src/actions/submit/validate_branches.ts and apps/cli/src/actions/sync_pr_info.ts: what
-- is checked before branches are submitted, and the information on pull requests that the server
-- has.
pub mod Ready
pub mod Prepare
pub mod Requests
pub mod Run
pub mod DryRun
pub mod Comment
use freephite.Base.{
  ℕ, Bool, true, false, not, ◌||◌, Option, none, some, List, [], ◌∷◌, ◌++◌, map, includes, is_some,
  if◌then◌else◌,
}
use freephite.Base.Action.{
  exit_failed, killed, Action, pure, raise, gets, raise_if, ◌>>=◌, ◌>>◌, on_error, for_each,
}
use freephite.Metadata.{Name, PrInfo, PrState, open_pr, closed_pr, merged_pr}
use freephite.Engine.State.{Engine, on_git, is_trunk, is_branch_fixed}
use freephite.Engine.Queries.{
  get_parent_precondition, get_pr_info, is_branch_empty, branch_matches_remote,
}
use freephite.Engine.Tracking.{upsert_decided_pr_info, clear_pr_info}
use freephite.Actions.Context.{ActionEnv, Prompts}

-- `xs.filter(f)` for a test that may throw
unfoldable pub filter_action : {S A : Type 0} → (A → Action S Bool) → List A → Action S (List A)
filter_action f [] = pure []
filter_action f (x ∷ xs) = do
  keeps ← f x
  rest ← filter_action f xs
  pure (if keeps then x ∷ rest else rest)

-- The server: the user's token, and `getPrInfoForBranches`, which is given the names
-- of the branches with the numbers of their pull requests.
pub record Server (W : Type 0) : Type 0 where
  pub auth_token : Option ℕ
  pub get_pr_info_for_branches : List (Name × Option ℕ) → Action W (List (Name × PrInfo))

abbrev pub number_of : Option PrInfo → Option ℕ
number_of none = none
number_of (some info) = info.number

abbrev is_closed : Option PrState → Bool
is_closed none = false
is_closed (some open_pr) = false
is_closed (some s) = true

abbrev state_of : Option PrInfo → Option PrState
state_of none = none
state_of (some info) = info.state

module _ {W : Type 0} (env : ActionEnv W) where
  -- One round of the loop in `validateBaseRevisions`: whether the parent is trunk, and whether it has
  -- been validated before.
  abbrev pub validate_base : Name → Name → Bool → Bool → Action (Engine W) (Unit {0})
  validate_base b p true before = do is_branch_fixed b; pure tt
  validate_base b p false true = do fixed ← is_branch_fixed b; raise_if (not fixed) exit_failed
  validate_base b p false false = do
    same ← branch_matches_remote env.env p
    raise_if (not same) exit_failed

  -- The loop, with the branches that have been validated.
  unfoldable pub validate_bases : List Name → List Name → Action (Engine W) (Unit {0})
  validate_bases validated [] = pure tt
  validate_bases validated (b ∷ rest) = do
    p ← get_parent_precondition b
    at_trunk ← gets (is_trunk p)
    validate_base b p at_trunk (includes p validated)
    validate_bases (validated ++ b ∷ []) rest

  unfoldable pub validate_base_revisions : List Name → Action (Engine W) (Unit {0})
  unfolding validate_bases
  validate_base_revisions bs = validate_bases [] bs

module _ {W : Type 0} (env : ActionEnv W) (ask : Prompts W) where
  -- `throw` where the command is not interactive, and else the prompt of the two validations
  abbrev warn_and_ask : Action (Engine W) (Unit {0})
  warn_and_ask =
      if not env.interactive
      then raise exit_failed
      else (do goes_on ← on_git ask.proceed; raise_if (not goes_on) killed)

  unfoldable pub validate_no_empty_branches : List Name → Action (Engine W) (Unit {0})
  unfolding filter_action
  validate_no_empty_branches bs = do
    empty ← filter_action (is_branch_empty env.env) bs
    elim empty [ [] ↦ pure tt | b ∷ rest ↦ warn_and_ask ]

  unfoldable pub validate_no_merged_or_closed_branches : List Name → Action (Engine W) (Unit {0})
  unfolding filter_action
  validate_no_merged_or_closed_branches bs = do
    closed ← filter_action (λ b. gets λ s. is_closed (state_of (get_pr_info b s))) bs
    elim closed [ [] ↦ pure tt | b ∷ rest ↦ do warn_and_ask; for_each (clear_pr_info env.env) bs ]

module _ {W : Type 0} (env : ActionEnv W) (server : Server W) where
  -- `upsertPrInfoForBranches`
  unfoldable pub upsert_pr_info_for_branches : List (Name × PrInfo) → Action (Engine W) (Unit {0})
  upsert_pr_info_for_branches = for_each (λ pr. upsert_decided_pr_info env.env pr.0 pr.1)

  -- `syncPrInfo` in two parts: what it asks the server for, and the rest
  unfoldable pub pr_numbers : List Name → Action (Engine W) (List (Name × Option ℕ))
  pr_numbers bs = gets λ s. map (λ b. (b, number_of (get_pr_info b s))) bs

  unfoldable pub await_pr_info : List (Name × Option ℕ) → Action (Engine W) (Unit {0})
  unfolding upsert_pr_info_for_branches
  await_pr_info asked =
      if is_some server.auth_token
      then (do
        infos ← on_git (server.get_pr_info_for_branches asked)
        upsert_pr_info_for_branches infos)
      else pure tt

  unfoldable pub sync_pr_info : List Name → Action (Engine W) (Unit {0})
  unfolding pr_numbers await_pr_info
  sync_pr_info bs = do asked ← pr_numbers bs; await_pr_info asked

  -- `validateBranchesToSubmit`: the server is asked first and its answer awaited last, also where a
  -- validation throws.
  unfoldable pub validate_branches_to_submit : Prompts W → List Name → Action (Engine W) (List Name)
  unfolding validate_base_revisions validate_no_empty_branches validate_no_merged_or_closed_branches
      pr_numbers await_pr_info
  validate_branches_to_submit ask bs = do
    asked ← pr_numbers bs
    on_error (do validate_base_revisions env bs; validate_no_empty_branches env ask bs)
        (await_pr_info asked)
    await_pr_info asked
    validate_no_merged_or_closed_branches env ask bs
    pure bs
