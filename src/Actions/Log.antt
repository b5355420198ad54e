-- ===== src/Actions/Log.antt =====
-- apps/cli/src/actions/log.ts at its style 'SHORT': which branches are shown, in which order and how far
-- indented. How a line is drawn and coloured is not modelled.
pub mod Complete
use freephite.Base.{
  ℕ, zero, suc, ◌+◌, ◌-◌, Bool, true, false, not, ◌&&◌, ◌||◌, Option, none, some, List, [], ◌∷◌,
  ◌++◌, map, ◌==◌, leb, length, filter, includes, if◌then◌else◌,
}
use freephite.Base.Action.{stack_overflow, Action, pure, raise, gets, ◌>>=◌, ◌>>◌}
use freephite.Metadata.{Name}
use freephite.Engine.State.{
  Engine, assert_trunk, is_trunk, is_branch_tracked, is_branch_fixed, get_children,
  all_branch_names,
}
use freephite.Engine.Queries.{ScopeSpec, get_relative_stack, current_branch_precondition}
use freephite.Actions.Context.{ActionEnv}
use freephite.Actions.Submit.{filter_action}
use freephite.Actions.Track.{and_also}
use mathlib.Core.List.{reverse}

-- The fields of `TPrintStackArgs` that do not change on the way.
pub record LogArgs : Type 0 where
  pub reversed : Bool
  pub omit_current_branch : Bool
  pub no_style_branch_name : Bool

-- A line: its branch, its indentation, the children to which it branches, and the note beside it
pub record Line : Type 0 where
  pub branch : Name
  pub indent_level : ℕ
  pub branching : ℕ
  pub needs_restack : Bool

abbrev pub scope_parents : ScopeSpec
scope_parents = record {
  recursive_parents = true;
  current_branch = false;
  recursive_children = false;
}

abbrev drop_names : ℕ → List Name → List Name
drop_names zero bs = bs
drop_names (suc n) [] = []
drop_names (suc n) (b ∷ bs) = drop_names n bs

-- `bs.slice(-(steps ?? 0))`: a slice from -0 is the whole
unfoldable pub slice_last : Option ℕ → List Name → List Name
slice_last none bs = bs
slice_last (some zero) bs = bs
slice_last (some (suc n)) bs = drop_names (length bs - suc n) bs

-- `steps ? steps - 1 : undefined`
abbrev pub fewer_steps : Option ℕ → Option ℕ
fewer_steps none = none
fewer_steps (some zero) = none
fewer_steps (some (suc n)) = some n

abbrev pub no_more : Option ℕ → Bool
no_more none = false
no_more (some n) = n == 0

module _ {W : Type 0} (args : LogArgs) where
  -- `child !== currentBranchPrecondition`, which is read only where it is to be left out
  unfoldable pub is_shown : Name → Action (Engine W) Bool
  is_shown c =
      if not args.omit_current_branch
      then pure true
      else do current ← current_branch_precondition; pure (not (c == current))

  omitted : List Name → Action (Engine W) ℕ
  omitted children = if not args.omit_current_branch then pure 0 else do
    current ← current_branch_precondition
    pure (if includes current children then 1 else 0)

  -- `getBranchLines`
  unfoldable pub get_branch_lines : Name → ℕ → Bool → Action (Engine W) Line
  unfolding omitted
  get_branch_lines b indent skip = do
    children ← get_children b
    left_out ← omitted children
    fixed ← if args.no_style_branch_name then pure true else is_branch_fixed b
    pure (record {
      branch = b;
      indent_level = indent;
      branching = if skip then 0 else length children - left_out;
      needs_restack = not fixed;
    })

  -- The loop over the children, from the index `i` of `n`, each at its indentation.
  unfoldable pub lines_over :
      (Name → ℕ → Action (Engine W) (List Line))
      → ℕ
      → ℕ
      → ℕ
      → List Name
      → Action (Engine W) (List Line)
  lines_over f indent n i [] = pure []
  lines_over f indent n i (c ∷ cs) = do
    lines ← f c (indent + (if args.reversed then n - i - 1 else i))
    rest ← lines_over f indent n (suc i) cs
    pure (lines ++ rest)

  -- `getUpstackExclusiveLines`, given what it calls for each child with the steps that are left
  unfoldable pub get_upstack_exclusive_lines :
      (Option ℕ → Name → ℕ → Action (Engine W) (List Line))
      → Option ℕ
      → Name
      → ℕ
      → Action (Engine W) (List Line)
  unfolding lines_over is_shown filter_action
  get_upstack_exclusive_lines f steps b indent = elim (no_more steps) [
    | true ↦ pure []
    | false ↦ do
      children ← get_children b
      shown ← filter_action is_shown children
      lines_over (f (fewer_steps steps)) indent (length shown) 0 shown
  ]

  -- `getUpstackInclusiveLines`; the fuel is the stack that is left.
  unfoldable pub get_upstack_inclusive_lines :
      ℕ → Option ℕ → Name → ℕ → Action (Engine W) (List Line)
  unfolding get_upstack_exclusive_lines get_branch_lines
  get_upstack_inclusive_lines zero steps b indent = raise stack_overflow
  get_upstack_inclusive_lines (suc depth) steps b indent = do
    above ← get_upstack_exclusive_lines (get_upstack_inclusive_lines depth) steps b indent
    line ← get_branch_lines b indent false
    pure (if args.reversed then line ∷ above else above ++ line ∷ [])

  unfoldable pub lines_of : List Name → ℕ → Action (Engine W) (List Line)
  unfolding get_branch_lines
  lines_of [] indent = pure []
  lines_of (b ∷ bs) indent = do
    line ← get_branch_lines b indent true
    rest ← lines_of bs indent
    pure (line ∷ rest)

module _ {W : Type 0} (env : ActionEnv W) (args : LogArgs) where
  -- `getDownstackExclusiveLines`
  unfoldable pub get_downstack_exclusive_lines : Option ℕ → Name → ℕ → Action (Engine W) (List Line)
  unfolding lines_of slice_last
  get_downstack_exclusive_lines steps b indent = do
    at_trunk ← gets (is_trunk b)
    if at_trunk then pure [] else do
      t ← assert_trunk
      parents ← get_relative_stack env.env b scope_parents
      lines ← lines_of args (slice_last steps (t ∷ parents)) indent
      pure (if args.reversed then lines else reverse lines)

  -- `getStackLines`
  unfoldable pub get_stack_lines : Option ℕ → Name → Action (Engine W) (List Line)
  unfolding get_upstack_inclusive_lines get_upstack_exclusive_lines get_downstack_exclusive_lines
  get_stack_lines steps b = do
    above ←
        get_upstack_exclusive_lines args (get_upstack_inclusive_lines args env.env.stack_size) steps
          b 0
    line ← get_branch_lines args b 0 false
    below ← get_downstack_exclusive_lines steps b 0
    pure (if args.reversed then below ++ line ∷ above else above ++ line ∷ below)

module _ {W : Type 0} where
  -- `getUntrackedBranchNames`
  unfoldable pub get_untracked_branch_names : Action (Engine W) (List Name)
  unfolding filter_action
  get_untracked_branch_names = do
    names ← gets all_branch_names
    filter_action
        (λ b. do
          at_trunk ← gets (is_trunk b)
          and_also (not at_trunk) (do tracked ← is_branch_tracked b; pure (not tracked)))
        names
