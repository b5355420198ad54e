-- ===== src/Examples/Files.antt =====
-- The log at concrete inputs.
use freephite.Base.{false, none, List, [], ◌∷◌, ◌≡◌, refl, lookup}
use freephite.Base.Action.{ok, ◌>>=◌}
use freephite.Engine.State.{get_recursive_children, get_children, flat_map_children}
use freephite.Actions.Log.{Line, get_upstack_inclusive_lines}
use freephite.Actions.Log.Complete.{
  plain_args, branches_of, SameBranches, get_upstack_inclusive_lines-SameBranches,
}
use freephite.Examples.{stacked}

above_2 : get_recursive_children 8 2 stacked ≡ (ok (3 ∷ 4 ∷ []), stacked)
unfolding get_recursive_children get_children flat_map_children lookup ◌>>=◌
above_2 = refl

get_upstack_inclusive_lines-SameBranches_example :
    (ls : List Line) × (get_upstack_inclusive_lines (plain_args false) 8 none 2 0 stacked
      ≡ (ok ls, stacked))
    × SameBranches (branches_of ls) (2 ∷ 3 ∷ 4 ∷ [])
get_upstack_inclusive_lines-SameBranches_example =
    get_upstack_inclusive_lines-SameBranches false 8 2 0 stacked (3 ∷ 4 ∷ []) above_2
