-- ===== src/Actions/Submit/Prepare/Skips.antt =====
-- The branches for which no request is made.
use freephite.Base.{
  ℕ, true, false, not, ◌||◌, ◌&&◌, Option, none, some, List, [], ◌∷◌, ◌≡◌, refl, ap, ◌⊎◌, inl, inr,
  arith, lookup, is_value, Bool-cases, Option-cases, if◌then◌else◌,
}
use mathlib.Core.Logic.{◌↔◌}
use freephite.Base.Action.{ok, ◌>>=◌}
use freephite.Metadata.{Name, ValidMeta, widen, PrInfo}
use freephite.Engine.State.{Engine, Addr, valid_meta, valid_or_trunk_meta}
use freephite.Engine.Queries.{get_parent_precondition, get_pr_info, branch_matches_remote}
use freephite.Actions.Context.{ActionEnv}
use freephite.Actions.Submit.Prepare.{
  PrepareArgs, PrStatus, noop, create_status, restack_status, is_noop, is_true, change_of,
  status_of_pr, pr_status, get_pr_action,
}
use freephite.Actions.Submit.Requests.{SubmitPrompts, get_pr_info_for_branches}

module _ {W : Type 0} (env : ActionEnv W) where
  -- The status of a valid branch is computed without a throw, and changes nothing.
  pr_status_returns :
      (args : PrepareArgs) (b p : Name) (m : ValidMeta Addr) (o : Option PrInfo) (s : Engine W)
      → lookup b s.branches ≡ some (widen m)
      → (status : PrStatus) × (pr_status env args b p o s ≡ (ok status, s))
  unfolding pr_status status_of_pr branch_matches_remote valid_or_trunk_meta ◌>>=◌
  pr_status_returns args b p m none s e = (if args.update_only then noop else create_status, refl)
  pr_status_returns args b p m (some info) s e = elim (Option-cases info.number) [
    | inl n ↦ (if args.update_only then noop else create_status, rw n refl)
    | inr (n, e') ↦ elim (Bool-cases (is_value info.base p)) [
      | inl same ↦ (
        change_of args info
            (is_value (env.env.git.get_remote_sha b s.repository) m.branch_revision),
        ground arith,
      )
      | inr other ↦ (restack_status, rw e' (rw other refl))
    ]
  ]

  get_pr_action_lem :
      (args : PrepareArgs) (b : Name) (m : ValidMeta Addr) (s : Engine W) (status : PrStatus)
      → lookup b s.branches ≡ some (widen m)
      → pr_status env args b m.parent_branch_name m.pr_info s ≡ (ok status, s)
      → not args.always && (args.dry_run || is_noop status) ≡ true
      → get_pr_action env args b s ≡ (ok none, s)
  unfolding get_pr_action get_parent_precondition valid_meta get_pr_info ◌>>=◌
  get_pr_action_lem args b m s status e e' skip = ground arith

  abbrev pub AllValid : Engine W → List Name → Type 0
  AllValid s [] = Unit {0}
  AllValid s (b ∷ rest) =
      ((m : ValidMeta Addr) × (lookup b s.branches ≡ some (widen m))) × AllValid s rest

  -- In a dry run that is not forced by `always` no request is made for valid branches, nothing is
  -- asked and nothing is written.
  pub get_pr_info_for_branches_dry :
      (ask : SubmitPrompts W) (args : PrepareArgs) (bs : List Name) (s : Engine W)
      → args.dry_run ≡ true
      → args.always ≡ false
      → AllValid s bs
      → get_pr_info_for_branches env ask args bs s ≡ (ok [], s)
  unfolding get_pr_info_for_branches ◌>>=◌
  get_pr_info_for_branches_dry ask args [] s dry once h = refl
  get_pr_info_for_branches_dry ask args (b ∷ rest) s dry once ((m, e), hs) =
      let (status, e') = pr_status_returns args b m.parent_branch_name m m.pr_info s e in
      let skips = get_pr_action_lem args b m s status e e' (ground (arith, dry, once)) in
      rw skips (rw (get_pr_info_for_branches_dry ask args rest s dry once hs) refl)

-- Nothing about the pull request of a branch on `p` has to change, or there is none and none is wanted.
pub data IsUpToDate {W : Type 0} (env : ActionEnv W) (args : PrepareArgs) (b : Name)
    (m : ValidMeta Addr) (s : Engine W) : Type 0 where
  unwanted :
      args.update_only ≡ true
      → (info : PrInfo) → m.pr_info ≡ some info
      → info.number ≡ none
      → IsUpToDate env args b m s
  unwanted_fresh : args.update_only ≡ true → m.pr_info ≡ none → IsUpToDate env args b m s
  unchanged :
      (info : PrInfo) (n : ℕ)
      → m.pr_info ≡ some info
      → info.number ≡ some n
      → info.base ≡ some m.parent_branch_name
      → env.env.git.get_remote_sha b s.repository ≡ some m.branch_revision
      → is_true args.edit_pr_fields_inline ≡ false
      → (args.draft ≡ false) ⊎ (info.is_draft ≡ some true)
      → (args.publish ≡ false) ⊎ (info.is_draft ≡ some false)
      → IsUpToDate env args b m s

module _ {W : Type 0} (env : ActionEnv W) where
  skipped_if :
      (args : PrepareArgs) (b : Name) (m : ValidMeta Addr) (s : Engine W)
      → lookup b s.branches ≡ some (widen m)
      → args.dry_run ≡ false
      → args.always ≡ false
      → IsUpToDate env args b m s
      → get_pr_action env args b s ≡ (ok none, s)
  unfolding get_pr_action get_parent_precondition valid_meta get_pr_info pr_status status_of_pr
      change_of branch_matches_remote valid_or_trunk_meta ◌>>=◌
  skipped_if args b m s e dry once (unwanted u info i n) = ground arith
  skipped_if args b m s e dry once (unwanted_fresh u i) = ground arith
  skipped_if args b m s e dry once (unchanged info n i j k r l d p) = ground arith

  skipped_only_if :
      (args : PrepareArgs) (b : Name) (m : ValidMeta Addr) (s : Engine W)
      → lookup b s.branches ≡ some (widen m)
      → args.dry_run ≡ false
      → args.always ≡ false
      → (get_pr_action env args b s).0 ≡ ok none
      → IsUpToDate env args b m s
  unfolding get_pr_action get_parent_precondition valid_meta get_pr_info pr_status status_of_pr
      change_of branch_matches_remote valid_or_trunk_meta ◌>>=◌
  skipped_only_if args b m s e dry once h = elim (Option-cases m.pr_info) [
    | inl i ↦ unwanted_fresh (ground arith) i
    | inr (info, i) ↦ elim (Option-cases info.number) [
      | inl n ↦ unwanted (ground arith) info i n
      | inr (n, j) ↦
          unchanged info n i j (ground arith) (ground arith) (ground arith) (ground arith)
            (ground arith)
    ]
  ]

  -- Outside a dry run and without `always`, no request is made for a valid branch exactly where there
  -- is no pull request and none is to be created, or its base is the parent, the remote has the branch
  -- as it is here, no fields are edited, and the draft state is the one that is asked for.
  pub get_pr_action_iff :
      (args : PrepareArgs) (b : Name) (m : ValidMeta Addr) (s : Engine W)
      → lookup b s.branches ≡ some (widen m)
      → args.dry_run ≡ false
      → args.always ≡ false
      → ((get_pr_action env args b s).0 ≡ ok none) ↔ IsUpToDate env args b m s
  get_pr_action_iff args b m s e dry once = (
    skipped_only_if args b m s e dry once,
    λ h. ap (λ x. x.0) (skipped_if args b m s e dry once h),
  )
