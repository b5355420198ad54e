-- ===== src/Actions/Links/Session.antt =====
-- A session of whole commands that keep the links of the cache.
use freephite.Base.{Bool, Option, List, [], ◌∷◌}
use freephite.Base.Action.{Action, pure, ◌>>=◌, ◌>>◌}
use freephite.Base.Action.Keeps.{Keeps, Keeps-pure, Keeps-bind}
use freephite.Metadata.{Name}
use freephite.Git.{CommitOpts}
use freephite.Engine.Queries.{ScopeSpec, current_branch_precondition, get_relative_stack}
use freephite.Actions.Context.{ActionEnv, Prompts, Context, on_engine}
use freephite.Actions.Restack.{restack_branches}
use freephite.Actions.Stack.{current_branch_onto, edit_branch_action, untrack_action}
use freephite.Actions.Changes.{commit_amend_action, commit_create_action}
use freephite.Actions.Downstack.{Editor, edit_downstack}
use freephite.Actions.Submit.{Server, validate_branches_to_submit}
use freephite.Actions.Links.Submitting.{
  edit_downstack-IsSound, validate_branches_to_submit-IsLinked,
}
use freephite.Actions.Track.{Sort, checkout_action, track_stack_action, track_branch_action}
use freephite.Actions.Links.{
  IsSound, on_engine-IsSound, restack_branches-IsSound, keeps_links, reads_links,
}
use freephite.Actions.Links.Commands.{
  current_branch_onto-IsSound, edit_branch_action-IsSound, commit_amend_action-IsSound,
  commit_create_action-IsSound, untrack_action-IsSound, checkout_action-IsLinked,
}
use freephite.Actions.Links.Tracking.{
  IsSort, track_stack_action-IsLinked, track_branch_action-IsLinked,
}

-- A command with its arguments.
pub data Command : Type 0 where
  restack_command : ScopeSpec → Command
  onto_command checkout_command : Name → Command
  edit_command : Command
  untrack_command : Name → Bool → Command
  amend_command create_command : Bool → CommitOpts → Command
  reorder_command : Option (List Name) → Command
  track_command : Option Name → Option Name → Bool → Command
  track_stack_command : Option Name → Bool → Command
  submit_command : List Name → Command

module _ {W : Type 0} (env : ActionEnv W) (ask : Prompts W) (server : Server W) (editor : Editor W)
    (sort : Sort W) where
  unfoldable pub run_command : Command → Action (Context W) (Unit {0})
  run_command (restack_command scope) = do
    current ← on_engine current_branch_precondition
    stack ← on_engine (get_relative_stack env.env current scope)
    restack_branches env stack
  run_command (onto_command b) = current_branch_onto env b
  run_command (checkout_command b) = on_engine (checkout_action env b)
  run_command edit_command = edit_branch_action env
  run_command (untrack_command b force) = untrack_action env b force
  run_command (amend_command all opts) = commit_amend_action env all opts
  run_command (create_command all opts) = commit_create_action env all opts
  run_command (reorder_command input) = edit_downstack env editor input
  run_command (track_command b p force) = on_engine (track_branch_action env ask sort b p force)
  run_command (track_stack_command b force) = on_engine (track_stack_action env ask sort b force)
  run_command (submit_command bs) = do
    on_engine (validate_branches_to_submit env server ask bs)
    pure tt

  -- The commands one after the other; a command that throws ends only itself.
  unfoldable pub run_commands : List Command → Context W → Context W
  unfolding run_command
  run_commands [] s = s
  run_commands (c ∷ cs) s = run_commands cs (run_command c s).1

module _ {W : Type 0} (env : ActionEnv W) (ask : Prompts W) (server : Server W) (editor : Editor W)
    (sort : Sort W) (sorts : IsSort sort) where
  run_command-IsSound : (c : Command) → Keeps IsSound (run_command env ask server editor sort c)
  unfolding run_command
  run_command-IsSound (restack_command scope) =
      search (keeps_links, reads_links, restack_branches-IsSound)
  run_command-IsSound (onto_command b) = current_branch_onto-IsSound env b
  run_command-IsSound (checkout_command b) = on_engine-IsSound _ (checkout_action-IsLinked env b)
  run_command-IsSound edit_command = edit_branch_action-IsSound env
  run_command-IsSound (untrack_command b force) = untrack_action-IsSound env b force
  run_command-IsSound (amend_command all opts) = commit_amend_action-IsSound env all opts
  run_command-IsSound (create_command all opts) = commit_create_action-IsSound env all opts
  run_command-IsSound (reorder_command input) = edit_downstack-IsSound env editor input
  run_command-IsSound (track_command b p force) =
      on_engine-IsSound _ (track_branch_action-IsLinked env ask sort sorts b p force)
  run_command-IsSound (track_stack_command b force) =
      on_engine-IsSound _ (track_stack_action-IsLinked env ask sort sorts b force)
  run_command-IsSound (submit_command bs) =
      Keeps-bind _ _ (on_engine-IsSound _ (validate_branches_to_submit-IsLinked env ask server bs))
        λ r. Keeps-pure tt

  -- From a cache with whole links, any sequence of these commands (a `Command`), whatever git, the
  -- server and the user answer and whether a command returns or throws, leads to a cache with whole
  -- links; of the library's sort it is assumed that it only calls its comparison.
  pub run_commands-IsSound :
      (cs : List Command) (s : Context W)
      → IsSound s
      → IsSound (run_commands env ask server editor sort cs s)
  unfolding run_commands
  run_commands-IsSound [] s h = h
  run_commands-IsSound (c ∷ cs) s h = run_commands-IsSound cs _ ((run_command-IsSound c).kept s h)
