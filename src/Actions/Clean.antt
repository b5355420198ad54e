-- ===== src/Actions/Clean.antt =====
-- apps/cli/src/actions/sync/clean_branches.ts: a walk up from trunk that deletes the merged branches,
-- each once no child is left that blocks it.
pub mod Rounds
pub mod Deletes
use freephite.Base.{
  ℕ, zero, suc, Bool, true, false, not, ◌||◌, ◌&&◌, Option, none, some, List, [], ◌∷◌, ◌++◌, ◌==◌,
  filter, length, includes, Dict, lookup, insert, delete, if◌then◌else◌, truthy, is_some,
}
use freephite.Base.Action.{stack_overflow, Action, pure, raise, gets, ◌>>=◌, ◌>>◌}
use freephite.Metadata.{Name}
use freephite.Engine.State.{Engine, on_git, assert_trunk, get_children}
use freephite.Engine.Update.{set_parent}
use freephite.Engine.Queries.{get_parent_precondition, get_pr_info, is_branch_empty}
use freephite.Actions.Context.{ActionEnv, Prompts, Context, on_engine}
use freephite.Actions.Stack.{is_safe_to_delete, delete_branch_action}
use freephite.Actions.Changes.{has_number}
use mathlib.Core.List.{reverse}

-- `branchesToDelete`: for each branch to delete the set of the children that block it
abbrev pub Marked : Type 0
Marked = Dict (List Name)

abbrev pub is_marked : Name → Marked → Bool
is_marked b marked = is_some (lookup b marked)

abbrev pub is_unblocked : (Name × List Name) → Bool
is_unblocked (b, []) = true
is_unblocked (b, c ∷ cs) = false

-- `Object.keys(branchesToDelete).filter(…)`
-- `new Set(xs)`
unfoldable pub unique : List Name → List Name
unique [] = []
unique (x ∷ xs) = x ∷ filter (λ y. not (x == y)) (unique xs)

unfoldable pub unblocked : Marked → List Name
unblocked [] = []
unblocked (entry ∷ marked) =
    let rest = unblocked marked in if is_unblocked entry then entry.0 ∷ rest else rest

-- `branchesToDelete[parent]?.delete(branch)`: the marked branches, and whether the set has lost its
-- last element by it
unfoldable pub unblock : Name → Name → Marked → Marked × Bool
unblock p b marked = elim (lookup p marked) [
  | none ↦ (marked, false)
  | some blockers ↦
      let left = filter (λ c. not (c == b)) blockers in
      (insert p left marked, includes b blockers && is_unblocked (p, left))
]

module _ {W : Type 0} (env : ActionEnv W) (ask : Prompts W) where
  -- `shouldDeleteBranch`
  unfoldable pub should_delete_branch : Name → Bool → Action (Engine W) Bool
  unfolding is_safe_to_delete
  should_delete_branch b force = do
    safe ← is_safe_to_delete env b
    if not safe then pure false else do
      empty ← is_branch_empty env.env b
      numbered ← gets λ s. has_number (get_pr_info b s)
      if empty && not numbered
          then pure false
          else if force
          then pure true
          else if not env.interactive
          then pure false
          else on_git (ask.confirm_deletion b)

module _ {W : Type 0} (env : ActionEnv W) where
  -- The loop of `greedilyDeleteUnblockedBranches` over the stack of unblocked branches, its top
  -- first; the fuel is the rounds that are left.
  unfoldable pub delete_unblocked : ℕ → List Name → Marked → Action (Context W) Marked
  unfolding unblock
  delete_unblocked rounds [] marked = pure marked
  delete_unblocked zero (b ∷ stack) marked = raise stack_overflow
  delete_unblocked (suc rounds) (b ∷ stack) marked = do
    p ← on_engine (get_parent_precondition b)
    delete_branch_action env b true
    let (left, free) = unblock p b marked
    delete_unblocked rounds (if free then p ∷ stack else stack) (delete b left)

module _ {W : Type 0} where
  -- The nearest ancestor that is not marked; the fuel is the rounds that are left.
  unfoldable pub unmarked_ancestor : ℕ → Marked → Name → Action (Engine W) Name
  unmarked_ancestor zero marked p = raise stack_overflow
  unmarked_ancestor (suc rounds) marked p = elim (is_marked p marked) [
    | true ↦ do q ← get_parent_precondition p; unmarked_ancestor rounds marked q
    | false ↦ pure p
  ]

-- What the walk of `cleanBranches` keeps: the branches to process, the last one first, those marked
-- for deletion, and those that have been given a new parent.
pub record Walk : Type 0 where
  pub to_process : List Name
  pub marked : Marked
  pub moved : List Name

module _ {W : Type 0} (env : ActionEnv W) (ask : Prompts W) where
  -- A branch that stays leaves its parent, where that is to be deleted.
  unfoldable pub keep_branch : ℕ → Name → Walk → Action (Engine W) Walk
  unfolding unmarked_ancestor
  keep_branch rounds b w = do
    p ← get_parent_precondition b
    q ← unmarked_ancestor rounds w.marked p
    if q == p then pure w else do
      set_parent env.env b q
      pure (record w { moved = w.moved ++ b ∷ []; marked = (unblock p b w.marked).0 })

  -- A branch that goes is marked, with its children as what blocks it.
  unfoldable pub mark_branch : Name → Walk → Action (Engine W) Walk
  mark_branch b w = do
    children ← get_children b
    pure (record w {
      to_process = reverse children ++ w.to_process;
      marked = insert b (unique children) w.marked;
    })

  -- One round of the loop in `cleanBranches`, for the branch that has been popped.
  unfoldable pub clean_round : ℕ → Bool → Name → Walk → Action (Context W) Walk
  unfolding should_delete_branch keep_branch mark_branch delete_unblocked unblocked
  clean_round rounds force b w = if is_marked b w.marked then pure w else do
    goes ← on_engine (should_delete_branch env ask b force)
    w' ← on_engine (if goes then mark_branch b w else keep_branch rounds b w)
    marked ← delete_unblocked env (length w'.marked) (reverse (unblocked w'.marked)) w'.marked
    pure (record w' { marked = marked })

  -- The loop; the fuel is the rounds that are left.
  unfoldable pub clean_loop : ℕ → Bool → Walk → Action (Context W) Walk
  unfolding clean_round
  clean_loop zero force w = raise stack_overflow
  clean_loop (suc n) force w = elim w.to_process [
    | [] ↦ pure w
    | b ∷ stack ↦ do
      w' ← clean_round n force b (record w { to_process = stack })
      clean_loop n force w'
  ]

  -- `cleanBranches`: the branches that have been given a new parent
  unfoldable pub clean_branches : ℕ → Bool → Action (Context W) (List Name)
  unfolding clean_loop
  clean_branches rounds force = do
    t ← on_engine assert_trunk
    children ← on_engine (get_children t)
    w ← clean_loop rounds force (record { to_process = reverse children; marked = []; moved = [] })
    pure w.moved
