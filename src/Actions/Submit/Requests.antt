-- ===== src/Actions/Submit/Requests.antt =====
-- apps/cli/src/actions/submit/prepare_branches.ts, pr_title.ts and pr_body.ts: what is in the requests.
-- Texts are numbers, as in the metadata.
use freephite.Base.{
  ℕ, Bool, true, false, not, ◌||◌, Option, none, some, List, [], ◌∷◌, ◌++◌, if◌then◌else◌, truthy,
}
use freephite.Base.Action.{ok, err, Action, pure, raise, gets, ◌>>=◌, ◌>>◌}
use freephite.Metadata.{Name, Sha, PrInfo, empty_pr_info}
use freephite.Engine.State.{Engine, on_git}
use freephite.Engine.Queries.{get_parent_precondition, get_pr_info, get_revision}
use freephite.Engine.Tracking.{upsert_pr_info}
use freephite.Actions.Context.{ActionEnv}
use freephite.Actions.Submit.Prepare.{
  PrepareArgs, SubmissionAction, create_action, update_action, is_true, is_false, get_pr_action,
}

-- The fields of a request that are asked for, and a request.
pub record PrFields : Type 0 where
  pub title : Option ℕ
  pub body : Option ℕ
  pub reviewers : List ℕ
  pub draft : Option Bool

pub record Submission : Type 0 where
  pub action : SubmissionAction
  pub head_sha : Sha
  pub base : Name
  pub base_sha : Sha
  pub fields : PrFields

-- What the prompts answer, the subject of the oldest commit, and the text that `inferPRBody` makes
-- of the template and the messages of the commits.
pub record SubmitPrompts (W : Type 0) : Type 0 where
  pub oldest_subject : Name → Action (Engine W) ℕ
  pub infer_pr_body : Name → Action (Engine W) ℕ
  pub prompt_title : ℕ → Action W (Option ℕ)
  pub use_prior_body : Action W Bool
  pub skip_body : Action W Bool
  pub edit_pr_body : ℕ → Action W ℕ
  pub get_reviewers : Action W (List ℕ)
  pub get_pr_draft_status : Action W Bool

-- `try { m } finally { f }` on the path of an error
abbrev finally_on_error : {S A : Type 0} → Action S A → Action S (Unit {0}) → Action S A
finally_on_error m f s =
    let (r, s') = m s in elim r [ ok a ↦ (ok a, s') | err e ↦ (f >> raise e) s' ]

abbrev optional : {B C : Type 0} → C → (B → C) → Option B → C
optional c f none = c
optional c f (some b) = f b

module _ {W : Type 0} (env : ActionEnv W) (ask : SubmitPrompts W) where
  -- `getPRTitle`
  unfoldable pub get_pr_title : Name → Option Bool → Action (Engine W) ℕ
  get_pr_title b inline = do
    info ← gets (get_pr_info b)
    title ← optional (ask.oldest_subject b) pure (optional none (λ i. i.title) info)
    if is_false inline
        then pure title
        else do answer ← on_git (ask.prompt_title title); pure (optional title (λ t. t) answer)

  -- `getPRBody`
  unfoldable pub get_pr_body : Name → Option Bool → Action (Engine W) ℕ
  get_pr_body b inline = do
    info ← gets (get_pr_info b)
    inferred ← ask.infer_pr_body b
    let prior = optional none (λ i. i.body) info
    if is_false inline then pure (optional inferred (λ t. t) prior) else do
      body ←
          optional (pure inferred)
            (λ t. do uses ← on_git ask.use_prior_body; pure (if uses then t else inferred))
            (truthy prior)
      skips ← optional (on_git ask.skip_body) (λ i. pure false) inline
      if skips then pure body else on_git (ask.edit_pr_body body)

  abbrev with_title : ℕ → PrInfo
  with_title t = record empty_pr_info { title = some t }

  -- `getPRCreationInfo`: what has been entered is saved, also where a prompt throws.
  unfoldable pub get_pr_creation_info : PrepareArgs → Name → Action (Engine W) PrFields
  unfolding get_pr_title get_pr_body
  get_pr_creation_info args b = do
    title ←
        finally_on_error (get_pr_title b args.edit_pr_fields_inline)
          (upsert_pr_info env.env b empty_pr_info)
    body ←
        finally_on_error (get_pr_body b args.edit_pr_fields_inline)
          (upsert_pr_info env.env b (with_title title))
    upsert_pr_info env.env b (record (with_title title) { body = some body })
    reviewers ← on_git ask.get_reviewers
    draft ←
        if args.publish
        then pure false
        else if args.draft || not env.interactive
        then pure true
        else on_git ask.get_pr_draft_status
    pure
        (record { title = some title; body = some body; reviewers = reviewers; draft = some draft })

  -- The fields of an update that are edited inline.
  edited_fields : Name → Action (Engine W) (Option ℕ × Option ℕ)
  unfolding get_pr_title
  edited_fields b = do
    title ← finally_on_error (get_pr_title b (some true)) (upsert_pr_info env.env b empty_pr_info)
    info ← gets (get_pr_info b)
    body ←
        finally_on_error
          (on_git (ask.edit_pr_body (optional 0 (λ t. t) (optional none (λ i. i.body) info))))
          (upsert_pr_info env.env b (with_title title))
    upsert_pr_info env.env b (record (with_title title) { body = some body })
    pure (some title, some body)

  -- `getPRUpdateInfo`
  unfoldable pub get_pr_update_info : PrepareArgs → Name → Action (Engine W) PrFields
  unfolding edited_fields
  get_pr_update_info args b = do
    fields ← if is_true args.edit_pr_fields_inline then edited_fields b else pure (none, none)
    reviewers ← on_git ask.get_reviewers
    pure (record {
      title = fields.0;
      body = fields.1;
      reviewers = reviewers;
      draft = if args.draft then some true else if args.publish then some false else none;
    })

  fields_for : PrepareArgs → Name → SubmissionAction → Action (Engine W) PrFields
  unfolding get_pr_creation_info get_pr_update_info
  fields_for args b (create_action b') = get_pr_creation_info args b
  fields_for args b (update_action b' n) = get_pr_update_info args b

  -- The request for a branch of which the action is known.
  unfoldable pub submission_for :
      PrepareArgs → Name → SubmissionAction → Action (Engine W) Submission
  unfolding fields_for
  submission_for args b action = do
    p ← get_parent_precondition b
    head_sha ← get_revision b
    base_sha ← get_revision p
    fields ← fields_for args b action
    pure (record {
      action = action;
      head_sha = head_sha;
      base = p;
      base_sha = base_sha;
      fields = fields;
    })

  abbrev pub request_for :
      PrepareArgs → Name → Option SubmissionAction → Action (Engine W) (List Submission)
  request_for args b none = pure []
  request_for args b (some action) = do x ← submission_for args b action; pure (x ∷ [])

  -- `getPRInfoForBranches`
  unfoldable pub get_pr_info_for_branches :
      PrepareArgs → List Name → Action (Engine W) (List Submission)
  unfolding get_pr_action submission_for
  get_pr_info_for_branches args [] = pure []
  get_pr_info_for_branches args (b ∷ rest) = do
    action ← get_pr_action env args b
    request ← request_for args b action
    others ← get_pr_info_for_branches args rest
    pure (request ++ others)
