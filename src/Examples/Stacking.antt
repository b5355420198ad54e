-- ===== src/Examples/Stacking.antt =====
-- A stack of three branches: its walks, and a restack that succeeds or conflicts.
use freephite.Actions.Restack.Settled.{AllSettled, restack_branches_settled}
use freephite.Base.{◌-◌, ◌<◌, List}
use freephite.Engine.Queries.Recursion.{get_recursive_children_complete}
use freephite.Engine.Update.{validate_new_parent, refuse_descendant}
use freephite.Engine.Update.Succeeds.{set_parent_succeeds}
use freephite.Metadata.{Meta}
use freephite.Actions.Stack.{reorder_branches}
use freephite.Actions.Stack.Reorder.{IsChain, reorder_branches-IsChain}
use freephite.Engine.State.{get_children, flat_map_children, remove_child, get_parent}
use freephite.Base.{splice, ◌==◌, if◌then◌else◌}
use freephite.Base.{arith, ◌≡◌, refl, lookup, insert, includes, some, none, [], ◌∷◌, true, false}
use freephite.Base.Action.{Error, ok, err, rebase_conflict, ◌>>=◌}
use freephite.Metadata.{Name, Sha, ValidMeta, valid, widen}
use freephite.Engine.State.{
  Addr, on_git, get_recursive_parents, get_recursive_children, get_parent, is_trunk, branch_exists,
  assert_branch, valid_meta, valid_or_trunk_meta, is_branch_fixed, get_children, flat_map_children,
}
use freephite.Engine.Update.{
  leave_old_parent, join_new_parent, old_validation, store_meta, update_meta, set_parent,
  handle_successful_rebase, switch_back,
}
use freephite.Engine.Queries.{
  get_parent_precondition, get_relative_stack, scope_downstack, scope_upstack_exclusive,
  scope_stack,
}
use freephite.Engine.Queries.Stacks.{
  IsOn, IsDownstack, on_trunk, on_branch, get_recursive_parents-IsDownstack,
  get_relative_stack-split,
}
use freephite.Engine.Queries.Descendants.{HasChild, IsAbove, child, beyond, set_parent-refuses}
use freephite.Engine.Rebase.{conflict, done, restack_branch, restack_unfixed, finish_rebase}
use freephite.Engine.Rebase.Fixed.{restack_branch-fixes}
use freephite.Actions.Context.{Context}
use freephite.Actions.Restack.{restack_branches}
use freephite.Actions.Restack.Conflict.{restack_branches-conflict}
use freephite.Actions.Traversal.{traverse_downward, to_end, steps}
use freephite.Actions.Traversal.Down.{traverse_downward-to_end, traverse_downward-steps}
use freephite.Examples.{
  Repo, small_env, small_action_env, stacked, read_head, rebase_onto, write_ref, cached,
}

abbrev valid_at : Name → Sha → Sha → Addr → ValidMeta Addr
valid_at p r b a = record {
  parent_branch_name = p;
  parent_branch_revision = r;
  branch_revision = b;
  children = a;
  pr_info = none;
}

two-IsOn : IsOn stacked 2 1
unfolding lookup is_trunk
two-IsOn = record {
  meta = valid_at 1 10 20 2;
  cached = refl;
  parent = refl;
  named = omega arith;
  branch_not_trunk = refl;
}

three-IsOn : IsOn stacked 3 2
unfolding lookup is_trunk
three-IsOn = record {
  meta = valid_at 2 15 30 3;
  cached = refl;
  parent = refl;
  named = omega arith;
  branch_not_trunk = refl;
}

four-IsOn : IsOn stacked 4 3
unfolding lookup is_trunk
four-IsOn = record {
  meta = valid_at 3 30 40 4;
  cached = refl;
  parent = refl;
  named = omega arith;
  branch_not_trunk = refl;
}

stacked-IsDownstack : IsDownstack stacked 4 (3 ∷ 2 ∷ [])
unfolding is_trunk
stacked-IsDownstack = on_branch four-IsOn refl (on_branch three-IsOn refl (on_trunk two-IsOn refl))

get_recursive_parents-IsDownstack_example :
    get_recursive_parents 8 4 stacked ≡ (ok (2 ∷ 3 ∷ []), stacked)
get_recursive_parents-IsDownstack_example =
    get_recursive_parents-IsDownstack stacked 8 4 (3 ∷ 2 ∷ []) stacked-IsDownstack (omega arith)

traverse_downward-to_end_example :
    traverse_downward (small_action_env []) 8 4 to_end stacked ≡ (ok 2, stacked)
traverse_downward-to_end_example =
    traverse_downward-to_end (small_action_env []) stacked 8 4 (3 ∷ 2 ∷ []) stacked-IsDownstack
      (omega arith)

traverse_downward-steps_example :
    traverse_downward (small_action_env []) 8 4 (steps 1) stacked ≡ (ok 3, stacked)
traverse_downward-steps_example =
    traverse_downward-steps (small_action_env []) stacked 8 1 4 (3 ∷ 2 ∷ []) stacked-IsDownstack
      (omega arith) (omega arith)

downstack_of_3 :
    get_relative_stack (small_env []) 3 scope_downstack stacked ≡ (ok (2 ∷ 3 ∷ []), stacked)
unfolding get_relative_stack get_recursive_parents get_parent is_trunk valid_or_trunk_meta lookup
    ◌>>=◌
downstack_of_3 = refl

upstack_of_3 :
    get_relative_stack (small_env []) 3 scope_upstack_exclusive stacked ≡ (ok (4 ∷ []), stacked)
unfolding get_relative_stack get_recursive_children get_children flat_map_children
    valid_or_trunk_meta lookup ◌>>=◌
upstack_of_3 = refl

get_relative_stack-split_example :
    get_relative_stack (small_env []) 3 scope_stack stacked ≡ (ok (2 ∷ 3 ∷ 4 ∷ []), stacked)
get_relative_stack-split_example =
    get_relative_stack-split (small_env []) 3 stacked (2 ∷ 3 ∷ []) (4 ∷ []) downstack_of_3
      upstack_of_3

child_3_of_2 : HasChild stacked 2 3
unfolding lookup includes
child_3_of_2 = record {
  meta = cached (valid 1 10) 20 2;
  cached = refl;
  listed = refl;
  child_valid = refl;
}

child_4_of_3 : HasChild stacked 3 4
unfolding lookup includes
child_4_of_3 = record {
  meta = cached (valid 2 15) 30 3;
  cached = refl;
  listed = refl;
  child_valid = refl;
}

four-IsAbove : IsAbove stacked 2 4
four-IsAbove = beyond child_3_of_2 (child child_4_of_3)

set_parent-refuses_example :
    (e : Error) × (set_parent (small_env []) 2 4 stacked ≡ (err e, stacked))
set_parent-refuses_example = set_parent-refuses (small_env []) 2 4 stacked four-IsAbove

-- The rank of a branch falls along the stack.
stacked-falls : (p c : Name) → HasChild stacked p c → 9 - c < 9 - p
unfolding lookup includes
stacked-falls p c h = ground (arith, h.cached, h.listed)

two_exists : branch_exists 2 stacked ≡ true
unfolding branch_exists lookup
two_exists = refl

get_recursive_children_complete_example :
    (l : List Name) × (get_recursive_children 8 2 stacked ≡ (ok l, stacked))
    × ((d : Name) → IsAbove stacked 2 d → includes d l ≡ true)
get_recursive_children_complete_example =
    get_recursive_children_complete stacked (λ b. 9 - b) 8 2 stacked-falls two_exists (omega arith)

lookup_2 : lookup 2 stacked.branches ≡ some (cached (valid 1 10) 20 2)
unfolding lookup
lookup_2 = refl

lookup_3 : lookup 3 stacked.branches ≡ some (widen (valid_at 2 15 30 3))
unfolding lookup
lookup_3 = refl

restacked_3 : (restack_branch (small_env []) 3 stacked).0 ≡ ok done
unfolding restack_branch restack_unfixed finish_rebase handle_successful_rebase update_meta
    old_validation store_meta leave_old_parent join_new_parent switch_back valid_or_trunk_meta
    valid_meta is_branch_fixed assert_branch branch_exists on_git read_head rebase_onto write_ref
    lookup insert includes ◌>>=◌
restacked_3 = refl

restack_branch-fixes_example :
    (is_branch_fixed 3 (restack_branch (small_env []) 3 stacked).1).0 ≡ ok true
restack_branch-fixes_example =
    restack_branch-fixes (small_env []) 3 (valid_at 2 15 30 3) (cached (valid 1 10) 20 2) stacked
      lookup_3 lookup_2 (omega arith) restacked_3

abbrev start : Context Repo
start = record {
  engine = stacked;
  continuation = record {
    branches_to_sync = none;
    branches_to_restack = none;
    current_branch_override = none;
    rebased_branch_base = none;
  };
}

branch_2_stays : restack_branches (small_action_env (3 ∷ [])) (2 ∷ []) start ≡ (ok tt, start)
unfolding restack_branches restack_branch valid_or_trunk_meta valid_meta get_parent_precondition
    is_branch_fixed is_trunk lookup ◌>>=◌
branch_2_stays = refl

branch_3_not_trunk : is_trunk 3 stacked ≡ false
unfolding is_trunk
branch_3_not_trunk = refl

branch_3_conflicts : restack_branch (small_env (3 ∷ [])) 3 stacked ≡ (ok (conflict 20), stacked)
unfolding restack_branch restack_unfixed finish_rebase valid_or_trunk_meta is_branch_fixed
    assert_branch branch_exists on_git rebase_onto includes lookup ◌>>=◌
branch_3_conflicts = refl

parent_of_3 : get_parent_precondition 3 stacked ≡ (ok 2, stacked)
unfolding get_parent_precondition valid_meta lookup ◌>>=◌
parent_of_3 = refl

restack_branches-conflict_example :
    restack_branches (small_action_env (3 ∷ [])) (2 ∷ 3 ∷ 4 ∷ []) start ≡ (
      err rebase_conflict,
      record start {
        continuation = record {
          branches_to_sync = some [];
          branches_to_restack = some (4 ∷ []);
          current_branch_override = some 4;
          rebased_branch_base = some 20;
        };
      },
    )
restack_branches-conflict_example =
    restack_branches-conflict (small_action_env (3 ∷ [])) (2 ∷ []) (4 ∷ []) 3 2 20 start start
      stacked branch_2_stays branch_3_not_trunk branch_3_conflicts parent_of_3

-- Branch 4 moves under branch 2, and branch 3 under branch 4.
reordered : (reorder_branches (small_action_env []) 2 (4 ∷ 3 ∷ []) stacked).0 ≡ ok tt
unfolding reorder_branches set_parent validate_new_parent refuse_descendant get_recursive_children
    get_children flat_map_children update_meta old_validation store_meta leave_old_parent
    join_new_parent remove_child valid_or_trunk_meta valid_meta assert_branch branch_exists on_git
    write_ref lookup insert includes splice ◌>>=◌
reordered = refl

reorder_branches-IsChain_example :
    IsChain (reorder_branches (small_action_env []) 2 (4 ∷ 3 ∷ []) stacked).1 2 (4 ∷ 3 ∷ [])
unfolding includes
reorder_branches-IsChain_example =
    reorder_branches-IsChain (small_action_env []) 2 (4 ∷ 3 ∷ []) stacked refl reordered

lookup_4 : lookup 4 stacked.branches ≡ some (widen (valid_at 3 30 40 4))
unfolding lookup
lookup_4 = refl

descendants_of_4 : get_recursive_children 8 4 stacked ≡ (ok [], stacked)
unfolding get_recursive_children get_children flat_map_children lookup ◌>>=◌
descendants_of_4 = refl

not_below_4 : includes 2 [] ≡ false
unfolding includes
not_below_4 = refl

written_4 : (new : Meta) → (write_ref 4 new stacked.repository).0 ≡ ok tt
unfolding write_ref
written_4 new = refl

set_parent_succeeds_example :
    ((set_parent (small_env []) 4 2 stacked).0 ≡ ok tt)
    × ((n : Name)
        → get_parent n (set_parent (small_env []) 4 2 stacked).1
          ≡ (if n == 4 then some 2 else get_parent n stacked))
set_parent_succeeds_example =
    set_parent_succeeds (small_env []) 4 2 (valid_at 3 30 40 4) (cached (valid 1 10) 20 2) []
      stacked lookup_4 lookup_2 refl refl descendants_of_4 not_below_4 written_4

two_and_four-AllSettled : AllSettled stacked (2 ∷ 4 ∷ [])
unfolding lookup
two_and_four-AllSettled = (
  record {
    meta = valid_at 1 10 20 2;
    cached = refl;
    parent = _;
    parent_cached = refl;
    restacked = refl;
  },
  (
    record {
      meta = valid_at 3 30 40 4;
      cached = refl;
      parent = _;
      parent_cached = refl;
      restacked = refl;
    },
    tt,
  ),
)

restack_branches_settled_example :
    restack_branches (small_action_env []) (2 ∷ 4 ∷ []) start ≡ (ok tt, start)
restack_branches_settled_example =
    restack_branches_settled (small_action_env []) (2 ∷ 4 ∷ []) start two_and_four-AllSettled
