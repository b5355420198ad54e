-- ===== src/Actions/Downstack.antt =====
-- apps/cli/src/actions/edit/edit_downstack.ts: the user reorders the branches down to trunk in a
-- file. `spell` and `name_of` stand between a branch's name and its text, `edit` is the editor.
use freephite.Base.{Option, none, some, List, map, get_elem?}
use freephite.Base.Action.{no_branch, Action, pure, or_raise, ◌>>=◌, ◌>>◌}
use freephite.Metadata.{Name}
use freephite.Text.{Text}
use freephite.EditFile.{create_stack_edit_file, parse_edit_file}
use freephite.Engine.State.{Engine, on_git, assert_trunk}
use freephite.Engine.Update.{checkout_branch}
use freephite.Engine.Queries.{
  get_relative_stack, scope_upstack, scope_downstack, current_branch_precondition,
}
use freephite.Actions.Context.{ActionEnv, Context, on_engine}
use freephite.Actions.Stack.{reorder_branches}
use freephite.Actions.Restack.{restack_branches}
use mathlib.Core.List.{reverse}

pub record Editor (W : Type 0) : Type 0 where
  pub spell : Name → Text
  pub name_of : Text → Name
  pub exec_editor : Text → Action W Text

module _ {W : Type 0} (env : ActionEnv W) (editor : Editor W) where
  -- `promptForEdit`
  unfoldable pub prompt_for_edit : Action (Engine W) (List Name)
  unfolding parse_edit_file create_stack_edit_file
  prompt_for_edit = do
    current ← current_branch_precondition
    names ← get_relative_stack env.env current scope_downstack
    t ← assert_trunk
    contents ←
        on_git
          (editor.exec_editor (create_stack_edit_file (editor.spell t) (map editor.spell names)))
    pure (map editor.name_of (parse_edit_file contents))

  -- the names in the file that the user passes, or else those that the editor leaves
  unfoldable pub edited_names : Option (List Name) → Action (Engine W) (List Name)
  unfolding prompt_for_edit
  edited_names (some names) = pure names
  edited_names none = prompt_for_edit

  -- `editDownstack`
  unfoldable pub edit_downstack : Option (List Name) → Action (Context W) (Unit {0})
  unfolding edited_names reorder_branches
  edit_downstack input = do
    names ← on_engine (edited_names input)
    t ← on_engine assert_trunk
    on_engine (reorder_branches env t names)
    -- without a name the first of them is undefined, which no branch has
    bottom ← or_raise (get_elem? names 0) (no_branch 0)
    to_restack ← on_engine (get_relative_stack env.env bottom scope_upstack)
    top ← or_raise (get_elem? (reverse names) 0) (no_branch 0)
    on_engine (checkout_branch env.env top)
    restack_branches env to_restack
