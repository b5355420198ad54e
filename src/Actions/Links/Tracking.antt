-- ===== src/Actions/Links/Tracking.antt =====
-- Tracking and submitting keep the links of the cache.
use freephite.Base.{
  ℕ, zero, suc, Bool, true, false, Option, none, some, List, [], ◌∷◌, if◌then◌else◌, truthy,
}
use freephite.Base.Action.{Action}
use freephite.Base.Action.Keeps.{
  Keeps, Keeps-ReadOnly, Keeps-pure, Keeps-raise, Keeps-reads, Keeps-if, Keeps-cases,
  Keeps-raise_if, Keeps-bind,
}
use freephite.Metadata.{Name}
use freephite.Engine.State.{Engine}
use freephite.Engine.Links.{IsLinked}
use freephite.Engine.Links.Methods.{on_git-IsLinked}
use freephite.Engine.Links.Session.{track_branch-IsLinked}
use freephite.Actions.Context.{ActionEnv, Prompts}
use freephite.Actions.Track.{
  or_current, track_stack_from, track_branch_from, pick_parent, pick_stack_parent, Sort, Sign,
  or_else, and_also, is_potential_parent, compare_parents, get_potential_parents, track_stack,
  track_stack_action, track_under, track_branch_action,
}
use freephite.Actions.Links.Commands.{
  Keeps-filter_action, is_branch_tracked-ReadOnly, is_descendant_of-ReadOnly,
}

-- A sort does nothing to the engine but what its comparison does.
abbrev pub IsSort : {W : Type 0} → Sort W → Type 1
IsSort {W} sort =
    (P : Engine W → Type 0) (cmp : Name → Name → Action (Engine W) Sign) (names : List Name)
    → ((l r : Name) → Keeps P (cmp l r))
    → Keeps P (sort cmp names)

module _ {W : Type 0} (env : ActionEnv W) where
  or_else-IsLinked :
      (c : Bool) (m : Action (Engine W) Bool) → Keeps IsLinked m → Keeps IsLinked (or_else c m)
  or_else-IsLinked true m k = Keeps-pure true
  or_else-IsLinked false m k = k

  and_also-IsLinked :
      (c : Bool) (m : Action (Engine W) Bool) → Keeps IsLinked m → Keeps IsLinked (and_also c m)
  and_also-IsLinked true m k = k
  and_also-IsLinked false m k = Keeps-pure false

  is_potential_parent-IsLinked :
      (b : Name) (only : Bool) (p : Name) → Keeps IsLinked (is_potential_parent env b only p)
  unfolding is_potential_parent
  is_potential_parent-IsLinked b only p =
      search
        (
          Keeps-bind, Keeps-reads, or_else-IsLinked, and_also-IsLinked, Keeps-ReadOnly,
          is_branch_tracked-ReadOnly, is_descendant_of-ReadOnly,
        )
        depth 12

  compare_parents-IsLinked : (l r : Name) → Keeps IsLinked (compare_parents env l r)
  unfolding compare_parents
  compare_parents-IsLinked l r =
      search
        (
          Keeps-bind, Keeps-if, Keeps-pure, Keeps-reads, or_else-IsLinked, Keeps-ReadOnly,
          is_descendant_of-ReadOnly,
        )
        depth 12

module _ {W : Type 0} (env : ActionEnv W) (ask : Prompts W) (sort : Sort W)
    (sorts : IsSort sort) where
  get_potential_parents-IsLinked :
      (b : Name) (only : Bool) → Keeps IsLinked (get_potential_parents env ask sort b only)
  unfolding get_potential_parents
  get_potential_parents-IsLinked b only = Keeps-bind _ _ (Keeps-reads _) λ names.
      Keeps-bind _ _ (Keeps-filter_action _ names (is_potential_parent-IsLinked env b only))
        λ candidates. sorts IsLinked (compare_parents env) candidates (compare_parents-IsLinked env)

  pick_stack_parent-IsLinked :
      (force : Bool) (names : List Name)
      → Keeps IsLinked (pick_stack_parent env ask sort force names)
  pick_stack_parent-IsLinked force [] = Keeps-raise _
  pick_stack_parent-IsLinked force (p ∷ []) = Keeps-pure p
  pick_stack_parent-IsLinked force (p ∷ q ∷ ps) = search (Keeps-if, Keeps-pure, on_git-IsLinked)

  pick_parent-IsLinked :
      (force : Bool) (names : List Name) → Keeps IsLinked (pick_parent env ask sort force names)
  pick_parent-IsLinked force [] = Keeps-raise _
  pick_parent-IsLinked force (p ∷ []) = Keeps-pure p
  pick_parent-IsLinked force (p ∷ q ∷ ps) =
      search (Keeps-if, Keeps-pure, Keeps-raise, on_git-IsLinked)

  track_stack-IsLinked :
      (depth : ℕ) (force : Bool) (b : Name)
      → Keeps IsLinked (track_stack env ask sort depth force b)
  unfolding track_stack
  track_stack-IsLinked zero force b = Keeps-raise _
  track_stack-IsLinked (suc depth) force b =
      let above = track_stack-IsLinked depth force in
      search
        (
          above,
          Keeps-bind,
          Keeps-cases,
          Keeps-pure,
          Keeps-reads,
          or_else-IsLinked env,
          Keeps-ReadOnly,
          is_branch_tracked-ReadOnly,
          get_potential_parents-IsLinked,
          pick_stack_parent-IsLinked,
          track_branch-IsLinked,
        )
        depth 14 fits 4000

  pub track_stack_action-IsLinked :
      (named : Option Name) (force : Bool)
      → Keeps IsLinked (track_stack_action env ask sort named force)
  unfolding track_stack_action
  track_stack_action-IsLinked named force =
      Keeps-bind _ _ (Keeps-reads _) λ current. go (truthy (or_current named current))
    where
      go : (b : Option Name) → Keeps IsLinked (track_stack_from env ask sort force b)
      go none = Keeps-raise _
      go (some b) = track_stack-IsLinked _ _ b

  track_under-IsLinked : (b p : Name) → Keeps IsLinked (track_under env ask sort b p)
  unfolding track_under
  track_under-IsLinked b p =
      search
        (
          Keeps-bind,
          Keeps-reads,
          or_else-IsLinked env,
          Keeps-ReadOnly,
          is_descendant_of-ReadOnly,
          Keeps-raise_if,
          track_branch-IsLinked,
        )
        depth 10

  pub track_branch_action-IsLinked :
      (named parent : Option Name) (force : Bool)
      → Keeps IsLinked (track_branch_action env ask sort named parent force)
  unfolding track_branch_action
  track_branch_action-IsLinked named parent force =
      Keeps-bind _ _ (Keeps-reads _)
        λ current. go (if force then none else truthy parent) (truthy (or_current named current))
    where
      go : (p b : Option Name) → Keeps IsLinked (track_branch_from env ask sort force p b)
      go p none = Keeps-raise _
      go (some p) (some b) = track_under-IsLinked b p
      go none (some b) =
          search (
            Keeps-bind, get_potential_parents-IsLinked, pick_parent-IsLinked, track_branch-IsLinked,
          )
