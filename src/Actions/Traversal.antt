-- ===== src/Actions/Traversal.antt =====
-- apps/cli/src/actions/branch_traversal.ts
pub mod Down
use freephite.Base.{
  ℕ, zero, suc, ◌-◌, Bool, true, false, ◌&&◌, ◌||◌, Option, none, some, List, [], ◌∷◌, ◌==◌, leb,
  if◌then◌else◌,
}
use freephite.Base.Action.{
  exit_failed, killed, stack_overflow, err, Action, pure, raise, gets, or_raise, ◌>>=◌,
}
use freephite.Metadata.{Name}
use freephite.Engine.State.{Engine, is_trunk, get_children}
use freephite.Engine.Update.{checkout_branch}
use freephite.Engine.Queries.{current_branch_precondition, get_parent_precondition}
use freephite.Actions.Context.{ActionEnv}

-- The steps that are left: a number, or all the way.
pub data Steps : Type 0 where
  steps : ℕ → Steps
  to_end : Steps

-- `TBranchNavigation`
pub data BranchNavigation : Type 0 where
  up down : ℕ → BranchNavigation
  top bottom : BranchNavigation

abbrev pub one_step_less : Steps → Steps
one_step_less (steps n) = steps (n - 1)
one_step_less to_end = to_end

abbrev pub no_steps : Steps → Bool
no_steps (steps n) = n == 0
no_steps to_end = false

abbrev pub goes_to_end : Steps → Bool
goes_to_end (steps n) = false
goes_to_end to_end = true

-- `numSteps > 1 ? numSteps : 1`
abbrev pub at_least_one : ℕ → ℕ
at_least_one n = if leb n 1 then 1 else n

module _ {W : Type 0} (env : ActionEnv W) where
  -- `traverseDownward`; the fuel is the stack that is left.
  unfoldable pub traverse_downward : ℕ → Name → Steps → Action (Engine W) Name
  traverse_downward zero b n = raise stack_overflow
  traverse_downward (suc depth) b n = do
    at_trunk ← gets (is_trunk b)
    elim (no_steps n || at_trunk) [
      | true ↦ pure b
      | false ↦ do
        p ← get_parent_precondition b
        above_trunk ← gets (is_trunk p)
        elim (goes_to_end n && above_trunk) [
          | true ↦ pure b
          | false ↦ traverse_downward depth p (one_step_less n)
        ]
    ]

  -- `handleMultipleChildren`
  handle_multiple_children : List Name → Action (Engine W) Name
  handle_multiple_children children s =
      if env.interactive
      then or_raise (env.choose children s.repository) killed s
      else (err exit_failed, s)

  pick_child : List Name → Action (Engine W) (Option Name)
  unfolding handle_multiple_children
  pick_child [] = pure none
  pick_child (c ∷ []) = pure (some c)
  pick_child (c ∷ c' ∷ cs) = do x ← handle_multiple_children (c ∷ c' ∷ cs); pure (some x)

  -- `traverseUpward`
  unfoldable pub traverse_upward : ℕ → Name → Steps → Action (Engine W) Name
  unfolding pick_child
  traverse_upward zero b n = raise stack_overflow
  traverse_upward (suc depth) b n = elim (no_steps n) [
    | true ↦ pure b
    | false ↦ do
      children ← get_children b
      child ← pick_child children
      elim child [ none ↦ pure b | some c ↦ traverse_upward depth c (one_step_less n) ]
  ]

  unfoldable pub traverse_branches : BranchNavigation → Name → Action (Engine W) Name
  traverse_branches bottom b = traverse_downward env.env.stack_size b to_end
  traverse_branches (down n) b = traverse_downward env.env.stack_size b (steps (at_least_one n))
  traverse_branches top b = traverse_upward env.env.stack_size b to_end
  traverse_branches (up n) b = traverse_upward env.env.stack_size b (steps (at_least_one n))

  -- `switchBranchAction`, with the checkout of `checkoutBranch` in checkout_branch.ts
  unfoldable pub switch_branch_action : BranchNavigation → Action (Engine W) (Unit {0})
  unfolding traverse_branches
  switch_branch_action navigation = do
    current ← current_branch_precondition
    b ← traverse_branches navigation current
    if b == current then pure tt else checkout_branch env.env b
