-- ===== src/Actions/Links/Submitting.antt =====
-- Reordering and submitting keep the links of the cache.
use freephite.Base.{ℕ, Bool, true, false, Option, none, some, List, [], ◌∷◌, ◌++◌, includes, arith}
use freephite.Base.Action.{Error, Result, ok, err, Action, or_raise, on_error}
use freephite.Base.Action.Keeps.{
  ReadOnly, Keeps, Keeps-ReadOnly, Keeps-pure, Keeps-raise, Keeps-reads, Keeps-if, Keeps-raise_if,
  Keeps-bind, Keeps-for_each, ReadOnly-bind, ReadOnly-pure, ReadOnly-reads,
}
use freephite.Metadata.{Name, PrInfo}
use freephite.Engine.State.{assert_trunk}
use freephite.Engine.Queries.{branch_matches_remote}
use freephite.Engine.Links.{IsLinked}
use freephite.Engine.Links.Methods.{on_git-IsLinked}
use freephite.Engine.Links.Rebases.{checkout_branch-IsLinked}
use freephite.Engine.Links.Session.{update_pr_info-IsLinked}
use freephite.Engine.Tracking.{upsert_decided_pr_info, upsert_pr_info, clear_pr_info}
use freephite.Actions.Context.{ActionEnv, Prompts}
use freephite.Actions.Downstack.{edited_names, Editor, prompt_for_edit, edit_downstack}
use freephite.Actions.Submit.{
  Server, validate_base, validate_bases, upsert_pr_info_for_branches, await_pr_info, pr_numbers,
  validate_branches_to_submit, validate_base_revisions, validate_no_empty_branches,
  validate_no_merged_or_closed_branches,
}
use freephite.Engine.Reads.{is_branch_fixed-ReadOnly, valid_or_trunk_meta-ReadOnly}
use freephite.Actions.Links.{
  current_branch_precondition-ReadOnly, get_parent_precondition-ReadOnly,
  get_relative_stack-ReadOnly, IsSound, restack_branches-IsSound, keeps_links, reads_links,
}
use freephite.Actions.Links.Commands.{
  Keeps-listed, Keeps-filter_action, is_branch_empty-ReadOnly, reorder_branches-IsLinked,
}

module _ {S A : Type 0} {P : S → Type 0} where
  Keeps-on_error :
      (m : Action S A) (handler : Action S (Unit {0}))
      → Keeps P m
      → Keeps P handler
      → Keeps P (on_error m handler)
  unfolding on_error
  Keeps-on_error m handler k k' = record { kept = λ s h. go s (m s) (k.kept s h) }
    where
      go :
          (s : S) (x : Result A × S)
          → P x.1
          → P
              (elim x.0 as (λ x'. Result A × S) [
                | ok a ↦ (ok a, x.1)
                | err e ↦ (err e, (handler x.1).1)
              ]).1
      go s (ok a, s') h = h
      go s (err e, s') h = k'.kept s' h

  Keeps-or_raise : (o : Option A) (e : Error) → Keeps P (or_raise o e)
  Keeps-or_raise none e = Keeps-raise e
  Keeps-or_raise (some a) e = Keeps-pure a

module _ {W : Type 0} where
  assert_trunk-ReadOnly : ReadOnly (assert_trunk {W = W})
  unfolding assert_trunk
  assert_trunk-ReadOnly = record { same = λ s. ground arith }

module _ {W : Type 0} (env : ActionEnv W) where
  branch_matches_remote-ReadOnly : (b : Name) → ReadOnly (branch_matches_remote env.env b)
  unfolding branch_matches_remote
  branch_matches_remote-ReadOnly b =
      search (ReadOnly-bind, ReadOnly-pure, ReadOnly-reads, valid_or_trunk_meta-ReadOnly)

module _ {W : Type 0} (env : ActionEnv W) (editor : Editor W) where
  prompt_for_edit-IsLinked : Keeps IsLinked (prompt_for_edit env editor)
  unfolding prompt_for_edit
  prompt_for_edit-IsLinked =
      search
        (
          Keeps-bind,
          Keeps-pure,
          Keeps-ReadOnly,
          current_branch_precondition-ReadOnly,
          get_relative_stack-ReadOnly env,
          assert_trunk-ReadOnly,
          on_git-IsLinked,
        )
        depth 10

  edited_names-IsLinked :
      (input : Option (List Name)) → Keeps IsLinked (edited_names env editor input)
  unfolding edited_names
  edited_names-IsLinked (some names) = Keeps-pure names
  edited_names-IsLinked none = prompt_for_edit-IsLinked

  pub edit_downstack-IsSound :
      (input : Option (List Name)) → Keeps IsSound (edit_downstack env editor input)
  unfolding edit_downstack
  edit_downstack-IsSound input =
      search
        (
          keeps_links, reads_links, assert_trunk-ReadOnly, Keeps-or_raise, edited_names-IsLinked,
          reorder_branches-IsLinked, checkout_branch-IsLinked, restack_branches-IsSound,
        )
        depth 16 fits 6000

module _ {W : Type 0} (env : ActionEnv W) (ask : Prompts W) (server : Server W) where
  upsert_pr_info-IsLinked :
      (b : Name) (info : PrInfo) → Keeps IsLinked (upsert_pr_info env.env b info)
  unfolding upsert_pr_info
  upsert_pr_info-IsLinked b info = update_pr_info-IsLinked env.env _ b

  upsert_decided_pr_info-IsLinked :
      (b : Name) (info : PrInfo) → Keeps IsLinked (upsert_decided_pr_info env.env b info)
  unfolding upsert_decided_pr_info
  upsert_decided_pr_info-IsLinked b info = update_pr_info-IsLinked env.env _ b

  clear_pr_info-IsLinked : (b : Name) → Keeps IsLinked (clear_pr_info env.env b)
  unfolding clear_pr_info
  clear_pr_info-IsLinked b = update_pr_info-IsLinked env.env _ b

  await_pr_info-IsLinked :
      (asked : List (Name × Option ℕ)) → Keeps IsLinked (await_pr_info env server asked)
  unfolding await_pr_info upsert_pr_info_for_branches
  await_pr_info-IsLinked asked = search (
    Keeps-if, Keeps-bind, Keeps-pure, on_git-IsLinked, Keeps-for_each,
    upsert_decided_pr_info-IsLinked,
  )

  validate_base-IsLinked : (b p : Name) (t v : Bool) → Keeps IsLinked (validate_base env b p t v)
  validate_base-IsLinked b p true v =
      search (Keeps-bind, Keeps-pure, Keeps-ReadOnly, is_branch_fixed-ReadOnly)
  validate_base-IsLinked b p false true =
      search (Keeps-bind, Keeps-raise_if, Keeps-ReadOnly, is_branch_fixed-ReadOnly)
  validate_base-IsLinked b p false false =
      search (Keeps-bind, Keeps-raise_if, Keeps-ReadOnly, branch_matches_remote-ReadOnly env)

  validate_bases-IsLinked : (done bs : List Name) → Keeps IsLinked (validate_bases env done bs)
  unfolding validate_bases
  validate_bases-IsLinked done [] = Keeps-pure tt
  validate_bases-IsLinked done (b ∷ rest) =
      Keeps-bind _ _ (Keeps-ReadOnly _ (get_parent_precondition-ReadOnly b)) λ p.
        Keeps-bind _ _ (Keeps-reads _) λ t.
          Keeps-bind _ _ (validate_base-IsLinked b p t (includes p done))
            λ u. validate_bases-IsLinked (done ++ b ∷ []) rest

  validate_no_empty_branches-IsLinked :
      (bs : List Name) → Keeps IsLinked (validate_no_empty_branches env ask bs)
  unfolding validate_no_empty_branches
  validate_no_empty_branches-IsLinked bs =
      search
        (
          Keeps-bind, Keeps-filter_action, Keeps-listed, Keeps-pure, Keeps-if, Keeps-raise,
          Keeps-raise_if, Keeps-ReadOnly, is_branch_empty-ReadOnly, on_git-IsLinked,
        )
        depth 10 fits 4000

  validate_no_closed-IsLinked :
      (bs : List Name) → Keeps IsLinked (validate_no_merged_or_closed_branches env ask bs)
  unfolding validate_no_merged_or_closed_branches
  validate_no_closed-IsLinked bs =
      search
        (
          Keeps-bind, Keeps-filter_action, Keeps-listed, Keeps-pure, Keeps-reads, Keeps-if,
          Keeps-raise_if, Keeps-for_each, clear_pr_info-IsLinked, on_git-IsLinked,
        )
        depth 10 fits 4000

  pub validate_branches_to_submit-IsLinked :
      (bs : List Name) → Keeps IsLinked (validate_branches_to_submit env server ask bs)
  unfolding validate_branches_to_submit pr_numbers validate_base_revisions
  validate_branches_to_submit-IsLinked bs =
      search
        (
          Keeps-bind, Keeps-pure, Keeps-reads, Keeps-on_error, await_pr_info-IsLinked,
          validate_bases-IsLinked, validate_no_empty_branches-IsLinked, validate_no_closed-IsLinked,
        )
        depth 10
