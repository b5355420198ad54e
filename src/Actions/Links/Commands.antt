-- ===== src/Actions/Links/Commands.antt =====
-- A session of whole commands.
use freephite.Base.{Bool, Option, none, some, List, [], ◌∷◌}
use freephite.Base.Action.{Action}
use freephite.Base.Action.Keeps.{
  ReadOnly, Keeps, Keeps-pure, Keeps-reads, Keeps-if, Keeps-bind, ReadOnly-bind, ReadOnly-if,
  ReadOnly-pure, ReadOnly-reads,
}
use freephite.Metadata.{Name, Sha}
use freephite.Git.{CommitOpts}
use freephite.Engine.State.{is_branch_tracked}
use freephite.Engine.Queries.{is_branch_empty, is_descendant_of}
use freephite.Engine.Rebase.{Restacked, conflict, done, unneeded}
use freephite.Engine.Reads.{
  valid_meta-ReadOnly, get_children-ReadOnly, assert_branch-ReadOnly, get_meta-ReadOnly,
}
use freephite.Engine.Links.{IsLinked}
use freephite.Engine.Links.Methods.{set_parent-IsLinked}
use freephite.Engine.Links.Rebases.{checkout_branch-IsLinked, rebase_interactive-IsLinked}
use freephite.Engine.Links.Session.{untrack_branch-IsLinked, commit-IsLinked}
use freephite.Actions.Context.{ActionEnv}
use freephite.Actions.Stack.{
  current_branch_onto, edit_branch_action, untrack_action, reorder_branches,
}
use freephite.Actions.Changes.{commit_amend_action, commit_create_action}
use freephite.Actions.Submit.{filter_action}
use freephite.Actions.Track.{checkout_action}
use freephite.Actions.Links.{
  IsSound, on_engine-IsSound, restack_branches-IsSound, restack_above_current-IsSound, keeps_links,
  reads_links,
}

Keeps-restacked :
    {S A : Type 0} {P : S → Type 0} (f : Restacked → Action S A)
    → ((base : Sha) → Keeps P (f (conflict base)))
    → Keeps P (f done)
    → Keeps P (f unneeded)
    → (r : Restacked) → Keeps P (f r)
Keeps-restacked f c d u (conflict base) = c base
Keeps-restacked f c d u done = d
Keeps-restacked f c d u unneeded = u

pub Keeps-listed :
    {S A B : Type 0} {P : S → Type 0} (f : List B → Action S A)
    → Keeps P (f [])
    → ((x : B) (xs : List B) → Keeps P (f (x ∷ xs)))
    → (xs : List B) → Keeps P (f xs)
Keeps-listed f e c [] = e
Keeps-listed f e c (x ∷ xs) = c x xs

pub Keeps-optional :
    {S A B : Type 0} {P : S → Type 0} (f : Option B → Action S A)
    → Keeps P (f none)
    → ((x : B) → Keeps P (f (some x)))
    → (o : Option B) → Keeps P (f o)
Keeps-optional f e c none = e
Keeps-optional f e c (some x) = c x

pub Keeps-filter_action :
    {S A : Type 0} {P : S → Type 0} (f : A → Action S Bool) (xs : List A)
    → ((x : A) → Keeps P (f x))
    → Keeps P (filter_action f xs)
unfolding filter_action
Keeps-filter_action f [] k = Keeps-pure []
Keeps-filter_action f (x ∷ xs) k =
    Keeps-bind _ _ (k x) λ b. Keeps-bind _ _ (Keeps-filter_action f xs k) λ rest. Keeps-pure _

module _ {W : Type 0} (env : ActionEnv W) where
  pub current_branch_onto-IsSound : (b : Name) → Keeps IsSound (current_branch_onto env b)
  unfolding current_branch_onto
  current_branch_onto-IsSound b =
      search (keeps_links, reads_links, set_parent-IsLinked, restack_branches-IsSound) depth 12

  pub edit_branch_action-IsSound : Keeps IsSound (edit_branch_action env)
  unfolding edit_branch_action
  edit_branch_action-IsSound = Keeps-bind _ _ (search (keeps_links, reads_links)) λ current.
      Keeps-bind _ _ (on_engine-IsSound _ (rebase_interactive-IsLinked env.env current)) (
        Keeps-restacked _ (λ base. search (keeps_links, reads_links))
          (restack_above_current-IsSound env) (restack_above_current-IsSound env))

  pub is_branch_empty-ReadOnly : (b : Name) → ReadOnly (is_branch_empty env.env b)
  unfolding is_branch_empty
  is_branch_empty-ReadOnly b =
      search (ReadOnly-bind, ReadOnly-reads, assert_branch-ReadOnly, valid_meta-ReadOnly)

  pub is_descendant_of-ReadOnly : (b p : Name) → ReadOnly (is_descendant_of env.env b p)
  unfolding is_descendant_of
  is_descendant_of-ReadOnly b p =
      search
        (
          ReadOnly-bind, ReadOnly-if, ReadOnly-pure, ReadOnly-reads, assert_branch-ReadOnly,
          get_meta-ReadOnly,
        )
        depth 14

  pub commit_amend_action-IsSound :
      (add_all : Bool) (opts : CommitOpts) → Keeps IsSound (commit_amend_action env add_all opts)
  unfolding commit_amend_action
  commit_amend_action-IsSound add_all opts =
      search
        (
          keeps_links, reads_links, is_branch_empty-ReadOnly, commit-IsLinked,
          restack_above_current-IsSound,
        )
        depth 14 fits 4000

  pub commit_create_action-IsSound :
      (add_all : Bool) (opts : CommitOpts) → Keeps IsSound (commit_create_action env add_all opts)
  unfolding commit_create_action
  commit_create_action-IsSound add_all opts =
      search (keeps_links, reads_links, commit-IsLinked, restack_above_current-IsSound) depth 14
        fits 4000

  pub reorder_branches-IsLinked :
      (p : Name) (bs : List Name) → Keeps IsLinked (reorder_branches env p bs)
  unfolding reorder_branches
  reorder_branches-IsLinked p [] = Keeps-pure tt
  reorder_branches-IsLinked p (b ∷ rest) =
      Keeps-bind _ _ (set_parent-IsLinked env.env b p) λ u. reorder_branches-IsLinked b rest

  pub is_branch_tracked-ReadOnly : (b : Name) → ReadOnly (is_branch_tracked {W = W} b)
  unfolding is_branch_tracked
  is_branch_tracked-ReadOnly b =
      search (ReadOnly-bind, ReadOnly-pure, assert_branch-ReadOnly, get_meta-ReadOnly)

  pub checkout_action-IsLinked : (b : Name) → Keeps IsLinked (checkout_action env b)
  unfolding checkout_action
  checkout_action-IsLinked b = search (Keeps-bind, Keeps-reads, Keeps-if, checkout_branch-IsLinked)

  pub untrack_action-IsSound :
      (b : Name) (force : Bool) → Keeps IsSound (untrack_action env b force)
  unfolding untrack_action
  untrack_action-IsSound b force =
      search
        (
          keeps_links, reads_links, Keeps-listed, is_branch_tracked-ReadOnly, get_children-ReadOnly,
          untrack_branch-IsLinked,
        )
        depth 16 fits 6000
