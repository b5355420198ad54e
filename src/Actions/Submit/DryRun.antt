-- ===== src/Actions/Submit/DryRun.antt =====
-- A dry run submits nothing.
use freephite.Base.{true, false, List, ◌≡◌, refl, arith}
use freephite.Base.Action.{ok, ◌>>=◌}
use freephite.Metadata.{Name}
use freephite.Engine.State.{Engine, on_git}
use freephite.Actions.Context.{ActionEnv, Prompts}
use freephite.Actions.Submit.{Server, validate_branches_to_submit}
use freephite.Actions.Submit.Prepare.{PrepareArgs}
use freephite.Actions.Submit.Requests.{SubmitPrompts}
use freephite.Actions.Submit.Prepare.Skips.{AllValid, get_pr_info_for_branches_dry}
use freephite.Actions.Submit.Run.{
  SubmitArgs, SubmitServer, prepared_args, should_abort, submit_branches,
}

module _ {W : Type 0} (env : ActionEnv W) (server : SubmitServer W) where
  still_dry :
      (args : PrepareArgs) → args.dry_run ≡ true → (prepared_args env server args).dry_run ≡ true
  still_dry args dry = ground (arith, dry)

  still_once :
      (args : PrepareArgs) → args.always ≡ false → (prepared_args env server args).always ≡ false
  still_once args once = ground (arith, once)

  -- In a dry run that is not forced by `always`, where the validation returns, the remote revisions
  -- are read, and the branches are valid then, the submission returns and does nothing more: no
  -- branch is pushed and no request is sent.
  pub submit_branches_dry :
      (ask : Prompts W) (infos : Server W) (prompts : SubmitPrompts W) (args : SubmitArgs)
      (bs bs' : List Name) (s s' : Engine W) (w : W)
      → args.prepare.dry_run ≡ true
      → args.prepare.always ≡ false
      → validate_branches_to_submit env infos ask bs s ≡ (ok bs', s')
      → server.populate_remote_shas s'.repository ≡ (ok tt, w)
      → AllValid env (record s' { repository = w }) bs
      → submit_branches env server ask infos prompts args bs s
        ≡ (ok tt, record s' { repository = w })
  unfolding submit_branches should_abort on_git ◌>>=◌
  submit_branches_dry ask infos prompts args bs bs' s s' w dry once validated populated h =
      let args' = prepared_args env server args.prepare in
      let nothing =
        get_pr_info_for_branches_dry env prompts args' bs (record s' { repository = w })
          (still_dry args.prepare dry) (still_once args.prepare once) h in
      rw validated (rw populated (rw nothing (rw dry refl)))
