-- ===== src/Actions/Links.antt =====
-- The commands that keep the links between branches in the cache.
pub mod Commands
pub mod Tracking
pub mod Submitting
pub mod Session
use freephite.Base.{Bool, true, false, not, ◌&&◌, Option, none, some, List, [], ◌∷◌, if◌then◌else◌}
use freephite.Base.Action.{
  Error, Result, ok, err, Action, pure, raise, gets, reads, raise_if, ◌>>=◌, for_each,
}
use freephite.Base.Action.Keeps.{
  ReadOnly, Keeps, Keeps-ReadOnly, Keeps-pure, Keeps-raise, Keeps-reads, Keeps-if, Keeps-cases,
  Keeps-raise_if, Keeps-bind, Keeps-for_each, ReadOnly-bind, ReadOnly-pure, ReadOnly-reads,
}
use freephite.Metadata.{Name, Sha}
use freephite.Engine.State.{
  Engine, on_git, is_trunk, valid_meta, valid_or_trunk_meta, get_current_branch_or_throw,
  get_recursive_parents, get_recursive_children,
}
use freephite.Engine.Queries.{
  current_branch_precondition, get_parent_precondition, get_relative_stack, ScopeSpec, when_list,
}
use freephite.Engine.Rebase.{Restacked, conflict, done, unneeded, restack_branch}
use freephite.Engine.Reads.{
  valid_meta-ReadOnly, valid_or_trunk_meta-ReadOnly, get_current_branch_or_throw-ReadOnly,
  get_recursive_parents-ReadOnly, get_recursive_children-ReadOnly,
}
use freephite.Engine.Links.{IsLinked}
use freephite.Engine.Links.Methods.{on_git-IsLinked, set_parent-IsLinked}
use freephite.Engine.Links.Rebases.{restack_branch-IsLinked}
use freephite.Actions.Context.{ActionEnv, Context, on_engine, engine_gets, persist_continuation}
use freephite.Actions.Restack.{after_restack, restack_branches}
use freephite.Actions.Stack.{restack_above_current}

-- The links of the cache are whole.
abbrev pub IsSound : {W : Type 0} → Context W → Type 0
IsSound s = IsLinked s.engine

module _ {W : Type 0} where
  pub on_engine-IsSound :
      {A : Type 0} (m : Action (Engine W) A) → Keeps IsLinked m → Keeps IsSound (on_engine m)
  on_engine-IsSound m k = record { kept = λ s h. k.kept s.engine h }

  pub engine_gets-IsSound : {A : Type 0} (f : Engine W → A) → Keeps IsSound (engine_gets f)
  engine_gets-IsSound f = record { kept = λ s h. h }

  pub read-IsSound :
      {A : Type 0} (m : Action (Engine W) A) → ReadOnly m → Keeps IsSound (on_engine m)
  read-IsSound m r = on_engine-IsSound m (Keeps-ReadOnly m r)

  pub persist_continuation-IsSound :
      (bs bs' : List Name) (base : Sha) → Keeps IsSound (persist_continuation {W = W} bs bs' base)
  unfolding persist_continuation
  persist_continuation-IsSound bs bs' base = record { kept = λ s h. h }

  pub current_branch_precondition-ReadOnly : ReadOnly (current_branch_precondition {W = W})
  unfolding current_branch_precondition
  current_branch_precondition-ReadOnly = search (
    ReadOnly-bind, ReadOnly-pure, get_current_branch_or_throw-ReadOnly,
    valid_or_trunk_meta-ReadOnly,
  )

  pub get_parent_precondition-ReadOnly : (b : Name) → ReadOnly (get_parent_precondition {W = W} b)
  unfolding get_parent_precondition
  get_parent_precondition-ReadOnly b = search (ReadOnly-bind, ReadOnly-pure, valid_meta-ReadOnly)

module _ {W : Type 0} (env : ActionEnv W) where
  when_list-ReadOnly :
      (b : Bool) (m : Action (Engine W) (List Name)) → ReadOnly m → ReadOnly (when_list env.env b m)
  when_list-ReadOnly true m r = r
  when_list-ReadOnly false m r = ReadOnly-pure []

  pub get_relative_stack-ReadOnly :
      (b : Name) (scope : ScopeSpec) → ReadOnly (get_relative_stack env.env b scope)
  unfolding get_relative_stack
  get_relative_stack-ReadOnly b scope =
      search
        (
          ReadOnly-bind, ReadOnly-pure, valid_or_trunk_meta-ReadOnly, when_list-ReadOnly,
          get_recursive_parents-ReadOnly, get_recursive_children-ReadOnly,
        )
        depth 12

pub ruleset reads_links = (
  read-IsSound, current_branch_precondition-ReadOnly, get_parent_precondition-ReadOnly,
  get_relative_stack-ReadOnly,
)

pub ruleset keeps_links = (
  Keeps-bind, Keeps-pure, Keeps-raise, Keeps-reads, Keeps-if, Keeps-raise_if, Keeps-for_each,
  engine_gets-IsSound, persist_continuation-IsSound, on_engine-IsSound, on_git-IsLinked,
)

module _ {W : Type 0} (env : ActionEnv W) where
  after_restack-IsSound :
      (b : Name) (rest : List Name) (loop : Action (Context W) (Unit {0})) (r : Restacked)
      → Keeps IsSound loop
      → Keeps IsSound (after_restack env b rest loop r)
  unfolding after_restack
  after_restack-IsSound b rest loop done k = search (keeps_links, reads_links)
  after_restack-IsSound b rest loop unneeded k = search (keeps_links, reads_links)
  after_restack-IsSound b rest loop (conflict base) k = search (keeps_links, reads_links)

  pub restack_branches-IsSound : (bs : List Name) → Keeps IsSound (restack_branches env bs)
  unfolding restack_branches
  restack_branches-IsSound [] = Keeps-pure tt
  restack_branches-IsSound (b ∷ rest) =
      let loop = restack_branches-IsSound rest in
      Keeps-bind _ _ (engine_gets-IsSound _) (
        Keeps-cases _ loop (
          Keeps-bind _ _ (on_engine-IsSound _ (restack_branch-IsLinked env.env b))
            λ r. after_restack-IsSound b rest (restack_branches env rest) r loop))

  pub restack_above_current-IsSound : Keeps IsSound (restack_above_current env)
  unfolding restack_above_current
  restack_above_current-IsSound = search (keeps_links, reads_links, restack_branches-IsSound)
