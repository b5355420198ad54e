-- ===== src/Actions/Track.antt =====
-- apps/cli/src/actions/track_branch.ts, checkout_branch.ts and the onboarding of init.ts: choosing a
-- parent for a branch that is not tracked yet.
use freephite.Base.{
  ℕ, zero, suc, Bool, true, false, not, ◌||◌, Option, none, some, List, [], ◌∷◌, ◌==◌,
  if◌then◌else◌, truthy, is_value,
}
use freephite.Base.Action.{
  exit_failed, killed, stack_overflow, Action, pure, raise, gets, raise_if, ◌>>=◌, ◌>>◌,
}
use freephite.Metadata.{Name}
use freephite.Engine.State.{Engine, on_git, is_trunk, is_branch_tracked, all_branch_names}
use freephite.Engine.Update.{checkout_branch}
use freephite.Engine.Queries.{is_descendant_of, current_branch_precondition}
use freephite.Engine.Tracking.{track_branch}
use freephite.Actions.Context.{ActionEnv, Prompts}
use freephite.Actions.Submit.{filter_action}

-- The sign of what a comparison returns.
pub data Sign : Type 0 where
  same_place goes_before goes_behind : Sign

-- `Array.prototype.sort` with a comparison that reads the engine
abbrev pub Sort : Type 0 → Type 0
Sort W = (Name → Name → Action (Engine W) Sign) → List Name → Action (Engine W) (List Name)

-- `named ?? current`
abbrev pub or_current : Option Name → Option Name → Option Name
or_current none current = current
or_current (some b) current = some b

-- `if (a && b())`, `if (a || b())`: the second test runs only where the first does not decide.
abbrev pub and_also : {S : Type 0} → Bool → Action S Bool → Action S Bool
and_also true m = m
and_also false m = pure false

abbrev pub or_else : {S : Type 0} → Bool → Action S Bool → Action S Bool
or_else true m = pure true
or_else false m = m

module _ {W : Type 0} (env : ActionEnv W) where
  -- `checkoutBranch` of checkout_branch.ts, given the branch that was asked for or selected
  unfoldable pub checkout_action : Name → Action (Engine W) (Unit {0})
  checkout_action b = do
    current ← gets λ s. s.current_branch
    if is_value current b then pure tt else checkout_branch env.env b

  -- The test of `getPotentialParents`.
  unfoldable pub is_potential_parent : Name → Bool → Name → Action (Engine W) Bool
  is_potential_parent b only_tracked p = do
    at_trunk ← gets (is_trunk p)
    or_else at_trunk (do
      tracked ← or_else (not only_tracked) (is_branch_tracked p)
      and_also tracked (is_descendant_of env.env b p))

  -- The comparison of `getPotentialParents`.
  unfoldable pub compare_parents : Name → Name → Action (Engine W) Sign
  compare_parents left right = if left == right then pure same_place else do
    at_trunk ← gets (is_trunk right)
    above ← or_else at_trunk (is_descendant_of env.env left right)
    pure (if above then goes_before else goes_behind)

module _ {W : Type 0} (env : ActionEnv W) (ask : Prompts W) (sort : Sort W) where
  unfoldable pub get_potential_parents : Name → Bool → Action (Engine W) (List Name)
  unfolding filter_action is_potential_parent compare_parents
  get_potential_parents b only_tracked = do
    names ← gets all_branch_names
    candidates ← filter_action (is_potential_parent env b only_tracked) names
    sort (compare_parents env) candidates

  -- The parent that `trackStack` takes among the choices.
  abbrev pub pick_stack_parent : Bool → List Name → Action (Engine W) Name
  pick_stack_parent force [] = raise exit_failed
  pick_stack_parent force (p ∷ []) = pure p
  pick_stack_parent force (p ∷ q ∷ ps) =
      if force then pure p else on_git (ask.select_branch (p ∷ q ∷ ps))

  -- The recursion of `trackStack`; the fuel is the stack that is left.
  unfoldable pub track_stack : ℕ → Bool → Name → Action (Engine W) (Unit {0})
  unfolding get_potential_parents
  track_stack zero force b = raise stack_overflow
  track_stack (suc depth) force b = do
    at_trunk ← gets (is_trunk b)
    tracked ← or_else at_trunk (is_branch_tracked b)
    elim tracked [
      | true ↦ pure tt
      | false ↦ do
        choices ← get_potential_parents b false
        p ← pick_stack_parent force choices
        track_stack depth force p
        track_branch env.env b p
    ]

  -- `trackStack` of the branch that is named or else the current one
  unfoldable pub track_stack_from : Bool → Option Name → Action (Engine W) (Unit {0})
  unfolding track_stack
  track_stack_from force none = raise exit_failed
  track_stack_from force (some b) = track_stack env.env.stack_size (force || not env.interactive) b

  unfoldable pub track_stack_action : Option Name → Bool → Action (Engine W) (Unit {0})
  unfolding track_stack_from
  track_stack_action named force = do
    current ← gets λ s. s.current_branch
    track_stack_from force (truthy (or_current named current))

  -- The parent that `trackBranch` takes among the choices.
  abbrev pub pick_parent : Bool → List Name → Action (Engine W) Name
  pick_parent force [] = raise exit_failed
  pick_parent force (p ∷ []) = pure p
  pick_parent force (p ∷ q ∷ ps) =
      if force
      then pure p
      else if not env.interactive
      then raise exit_failed
      else on_git (ask.select_branch (p ∷ q ∷ ps))

  -- `trackBranch` of a branch under a parent that is named
  unfoldable pub track_under : Name → Name → Action (Engine W) (Unit {0})
  track_under b p = do
    at_trunk ← gets (is_trunk p)
    below ← or_else at_trunk (is_descendant_of env.env b p)
    raise_if (not below) exit_failed
    track_branch env.env b p

  -- `trackBranch` of the branch that is named or else the current one, under the parent that is
  -- named and not overruled
  unfoldable pub track_branch_from : Bool → Option Name → Option Name → Action (Engine W) (Unit {0})
  unfolding track_under get_potential_parents
  track_branch_from force parent none = raise exit_failed
  track_branch_from force (some p) (some b) = track_under b p
  track_branch_from force none (some b) = do
    choices ← get_potential_parents b true
    p ← pick_parent force choices
    track_branch env.env b p

  unfoldable pub track_branch_action :
      Option Name → Option Name → Bool → Action (Engine W) (Unit {0})
  unfolding track_branch_from
  track_branch_action named parent force = do
    current ← gets λ s. s.current_branch
    track_branch_from force (if force then none else truthy parent)
        (truthy (or_current named current))

  -- The test of `trackBranchInteractive`.
  unfoldable pub is_trackable : Name → Name → Action (Engine W) Bool
  is_trackable p b = do
    at_trunk ← gets (is_trunk b)
    fresh ← and_also (not at_trunk) (do tracked ← is_branch_tracked b; pure (not tracked))
    parent_is_trunk ← gets (is_trunk p)
    and_also fresh (or_else parent_is_trunk (is_descendant_of env.env b p))

  -- `trackBranchInteractive`, up to the checkout at its end, which prompts for a branch again: the
  -- branch that has been tracked, and `none` where no branch can be
  unfoldable pub track_branch_interactive : Action (Engine W) (Option Name)
  unfolding filter_action is_trackable
  track_branch_interactive = do
    p ← current_branch_precondition
    names ← gets all_branch_names
    choices ← filter_action (is_trackable p) names
    elim choices [
      | [] ↦ pure none
      | c ∷ cs ↦ do
        b ← on_git (ask.select_branch (c ∷ cs))
        elim (truthy (some b)) [
          | none ↦ raise killed
          | some b' ↦ do track_branch env.env b' p; pure (some b')
        ]
    ]
