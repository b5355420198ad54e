-- ===== src/Actions/Submit/Comment.antt =====
-- apps/cli/src/actions/submit/comment_body.ts: the tree of pull requests that the comment of each shows.
-- The text of the comment is not modelled.
pub mod Consistent
pub mod Built
use freephite.Base.{
  ℕ, zero, suc, Bool, true, false, not, Option, none, some, List, [], ◌∷◌, ◌++◌, ◌==◌, Dict, lookup,
  insert, keys, is_some, if◌then◌else◌, truthy,
}
use freephite.Base.Action.{
  stack_overflow, type_error, Action, pure, raise, gets, modify, or_raise, ◌>>=◌, ◌>>◌, for_each,
}
use freephite.Metadata.{Name, PrInfo}
use freephite.Engine.State.{Engine, assert_trunk, is_trunk, get_parent}
use freephite.Engine.Queries.{get_pr_info}

-- `PR`, and a branch without one
pub record Entry : Type 0 where
  pub number : Option ℕ
  pub base : Name
  pub ref : Name

-- The fields `tree` and `reverse`.
pub record Tree : Type 0 where
  pub tree : Dict (List Entry)
  pub reverse : Dict Name

abbrev pub or_none : Option (List Entry) → List Entry
or_none none = []
or_none (some es) = es

-- `addBranchToTree`
unfoldable pub add_branch_to_tree : Entry → Tree → Tree
add_branch_to_tree e t =
    let tree = insert e.base (or_none (lookup e.base t.tree) ++ e ∷ []) t.tree in
    record {
      tree = insert e.ref (or_none (lookup e.ref tree)) tree;
      reverse = insert e.ref e.base t.reverse;
    }

unfoldable pub add_all_prs : List Entry → Tree → Tree
unfolding add_branch_to_tree
add_all_prs [] t = t
add_all_prs (e ∷ es) t = add_all_prs es (add_branch_to_tree e t)

-- `pr && pr.base && pr.number`: the entry of a branch with a pull request
abbrev entry_of_pr : Name → Option PrInfo → Option Entry
entry_of_pr b none = none
entry_of_pr b (some info) = elim (truthy info.base) [
  | none ↦ none
  | some base ↦ elim (truthy info.number) [
    | none ↦ none
    | some n ↦ some (record { number = some n; base = base; ref = b })
  ]
]

abbrev entry_of_parent : Name → Option Name → Option Entry
entry_of_parent b none = none
entry_of_parent b (some p) = some (record { number = none; base = p; ref = b })

abbrev first_entry : Option Entry → Option Entry → Option Entry
first_entry none o = o
first_entry (some e) o = some e

module _ {W : Type 0} (s : Engine W) where
  -- The entry that `findRouteToTrunk` adds for a branch that is not in the tree yet
  unfoldable pub missing_entry : Name → Option Entry
  missing_entry b =
      first_entry (entry_of_pr b (get_pr_info b s)) (entry_of_parent b (truthy (get_parent b s)))

  -- `findRouteToTrunk`; the fuel is the stack that is left, and `none` an overflow
  unfoldable pub find_route_to_trunk : ℕ → Name → Tree → Option Tree
  unfolding missing_entry
  find_route_to_trunk zero b t = none
  find_route_to_trunk (suc depth) b t = if is_trunk b s then some t else elim (lookup b t.reverse) [
    | some base ↦ find_route_to_trunk depth base t
    | none ↦ elim (missing_entry b) [
      | some e ↦ find_route_to_trunk depth e.base (add_branch_to_tree e t)
      | none ↦ some t
    ]
  ]

  find_routes : ℕ → List Name → Tree → Option Tree
  unfolding find_route_to_trunk
  find_routes depth [] t = some t
  find_routes depth (b ∷ bs) t = elim (find_route_to_trunk depth b t) [
    | none ↦ none
    | some t' ↦ find_routes depth bs t'
  ]

  -- The tree that the constructor makes of the pull requests, for the trunk `t`
  unfoldable pub build_tree : ℕ → Name → List Entry → Option Tree
  unfolding find_routes add_all_prs
  build_tree depth t prs =
      let start = add_all_prs prs (record { tree = (t, []) ∷ []; reverse = [] }) in
      find_routes depth (keys start.tree) start
