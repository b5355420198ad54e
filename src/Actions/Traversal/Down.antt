-- ===== src/Actions/Traversal/Down.antt =====
-- Walks down a stack: `bottom` and `down`.
use freephite.Base.{ℕ, zero, suc, ◌<◌, List, [], ◌∷◌, ◌≡◌, arith, length}
use freephite.Base.Action.{ok, ◌>>=◌}
use freephite.Metadata.{Name}
use freephite.Engine.State.{Engine, valid_meta}
use freephite.Engine.Queries.{get_parent_precondition}
use freephite.Engine.Queries.Stacks.{IsOn, IsDownstack, on_trunk, on_branch}
use freephite.Actions.Context.{ActionEnv}
use freephite.Actions.Traversal.{steps, to_end, traverse_downward}

-- the last of the branches below `b`, or `b`
abbrev pub lowest : Name → List Name → Name
lowest b [] = b
lowest b (p ∷ xs) = lowest p xs

-- the branch `n` places below `b` in the stack, or the last branch above trunk's place
abbrev pub below : ℕ → Name → List Name → Name
below zero b xs = b
below (suc n) b [] = b
below (suc n) b (p ∷ xs) = below n p xs

module _ {W : Type 0} (env : ActionEnv W) (s : Engine W) where
  parent_lem : (b p : Name) → IsOn s b p → get_parent_precondition b s ≡ (ok p, s)
  unfolding get_parent_precondition valid_meta ◌>>=◌
  parent_lem b p on = ground (arith, on.cached, on.parent)

  -- With a stack deeper than the branches between `b` and trunk, `bottom` leads to the last of
  -- them, or stays at `b`.
  pub traverse_downward-to_end :
      (depth : ℕ) (b : Name) (xs : List Name)
      → IsDownstack s b xs
      → length xs < depth
      → traverse_downward env depth b to_end s ≡ (ok (lowest b xs), s)
  unfolding traverse_downward ◌>>=◌
  traverse_downward-to_end zero b xs d h = absurd (omega arith)
  traverse_downward-to_end (suc depth) b _ (on_trunk {p} on t) h =
      ground (arith, on.branch_not_trunk, parent_lem b p on, t)
  traverse_downward-to_end (suc depth) b _ (on_branch {p} {xs} on t d) h = ground (
    arith,
    on.branch_not_trunk,
    parent_lem b p on,
    t,
    traverse_downward-to_end depth p xs d (ground arith),
  )

  -- Where at least `n` branches stand between `b` and trunk, and the stack is deeper than `n`,
  -- `down n` leads to the branch `n` places below.
  pub traverse_downward-steps :
      (depth n : ℕ) (b : Name) (xs : List Name)
      → IsDownstack s b xs
      → n < suc (length xs)
      → n < depth
      → traverse_downward env depth b (steps n) s ≡ (ok (below n b xs), s)
  unfolding traverse_downward ◌>>=◌
  traverse_downward-steps zero n b xs d k h = absurd (omega arith)
  traverse_downward-steps (suc depth) zero b xs d k h = ground arith
  traverse_downward-steps (suc depth) (suc n) b _ (on_trunk on t) k h = absurd (ground arith)
  traverse_downward-steps (suc depth) (suc n) b _ (on_branch {p} {xs} on t d) k h = ground (
    arith,
    on.branch_not_trunk,
    parent_lem b p on,
    t,
    traverse_downward-steps depth n p xs d (ground arith) (ground arith),
  )
