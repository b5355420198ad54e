-- ===== src/Engine/Links/Session.antt =====
-- A session: any sequence of the engine's methods that keep the arrays of children, with whatever
-- git answers and whether or not a call throws.
use freephite.Base.{
  Option, some, List, [], ◌∷◌, ◌≡◌, refl, ◌∙◌, inl, inr, arith, lookup, Option-cases,
}
use freephite.Base.Action.{Action, pure, gets, ◌>>=◌, reads}
use freephite.Base.Action.Keeps.{
  ReadOnly-reads, Keeps, Keeps-pure, Keeps-reads, Keeps-bind, bind_read-kept, bind-kept,
  Keeps-for_each,
}
use freephite.Metadata.{
  Name, Sha, PrInfo, CachedMeta, Validation, valid, widen, parent_of, assert_not_trunk,
}
use freephite.Git.{branch, CommitOpts}
use freephite.Engine.State.{
  Env, Addr, Engine, read_git, on_git, get_meta, put_meta, assert_branch,
  get_current_branch_or_throw, valid_or_trunk_meta, valid_meta,
}
use freephite.Engine.Update.{validate_new_parent, set_parent, checkout_branch}
use freephite.Engine.Tracking.{
  track_branch, untrack_branch, untrack_child, invalidated, upsert_pr_info, clear_pr_info,
  update_pr_info, write_pr_info, valid_fields,
}
use freephite.Engine.Rebase.{
  restack_branch, rebase_interactive, continue_rebase, rebase_branch_onto_fetched,
}
use freephite.Engine.Reads.{
  get_meta-ReadOnly, assert_branch-ReadOnly, valid_meta-ReadOnly, valid_or_trunk_meta-ReadOnly,
  validate_new_parent-ReadOnly, valid_meta_ok, valid_or_trunk_meta_ok,
  get_current_branch_or_throw-ReadOnly,
}
use freephite.Engine.Links.{IsLinked}
use freephite.Engine.Links.Methods.{
  LinkedWith, put_meta-IsLinked, update_meta-IsLinked, set_parent-IsLinked, exists_of,
}
use mathlib.Core.List.{reverse}
use freephite.Engine.Links.Rebases.{
  update_in_place, restack_branch-IsLinked, rebase_interactive-IsLinked, continue_rebase-IsLinked,
  rebase_branch_onto_fetched-IsLinked, checkout_branch-IsLinked,
}
use freephite.Engine.Commits.{commit, refresh_revision}

-- A call of one of the engine's methods, with its arguments.
pub data Call : Type 0 where
  set_parent_call track_call : Name → Name → Call
  untrack_call clear_pr_call checkout_call restack_call interactive_call onto_fetched_call :
      Name → Call
  upsert_pr_call : Name → PrInfo → Call
  commit_call : CommitOpts → Call
  continue_call : Sha → Call

abbrev pub discard : {W A : Type 0} → Action (Engine W) A → Action (Engine W) (Unit {0})
discard m = m >>= λ a. pure tt

module _ {W : Type 0} (env : Env W) where
  unfoldable pub run_call : Call → Action (Engine W) (Unit {0})
  run_call (set_parent_call b p) = set_parent env b p
  run_call (track_call b p) = track_branch env b p
  run_call (untrack_call b) = untrack_branch env b
  run_call (clear_pr_call b) = clear_pr_info env b
  run_call (checkout_call b) = checkout_branch env b
  run_call (restack_call b) = discard (restack_branch env b)
  run_call (interactive_call b) = discard (rebase_interactive env b)
  run_call (onto_fetched_call b) = discard (rebase_branch_onto_fetched env b)
  run_call (upsert_pr_call b info) = upsert_pr_info env b info
  run_call (commit_call opts) = commit env opts
  run_call (continue_call base) = discard (continue_rebase env base)

  -- The calls one after the other; a call that throws ends only itself.
  unfoldable pub run_calls : List Call → Engine W → Engine W
  unfolding run_call
  run_calls [] s = s
  run_calls (c ∷ cs) s = run_calls cs (run_call c s).1

  pub discard-IsLinked :
      {A : Type 0} (m : Action (Engine W) A) → Keeps IsLinked m → Keeps IsLinked (discard m)
  discard-IsLinked m k = Keeps-bind m _ k (λ a. Keeps-pure tt)

  pub track_branch-IsLinked : (b p : Name) → Keeps IsLinked (track_branch env b p)
  unfolding track_branch
  track_branch-IsLinked b p = record {
    kept = λ s h.
        bind_read-kept IsLinked (validate_new_parent env b p) _ s
          (validate_new_parent-ReadOnly env b p)
          (λ u e.
            bind_read-kept IsLinked (assert_branch b) _ s (assert_branch-ReadOnly b)
              (λ u' e'.
                bind_read-kept IsLinked (valid_or_trunk_meta p) _ s (valid_or_trunk_meta-ReadOnly p)
                  (λ mp got.
                    bind_read-kept IsLinked (get_meta b) _ s (get_meta-ReadOnly b)
                      (λ m got'.
                        bind_read-kept IsLinked (read_git _) _ s (ReadOnly-reads _)
                          (λ base e''.
                            update_meta-IsLinked env b _ s
                              (exists_of env p mp s (valid_or_trunk_meta_ok p mp s got))
                              (λ m' there. ground arith) h)
                          h)
                      h)
                  h)
              h)
          h;
  }

  write_pr_info-IsLinked :
      (f : Option PrInfo → PrInfo) (b : Name) (m : CachedMeta Addr) (v : Validation) (s : Engine W)
      → lookup b s.branches ≡ some m
      → m.validation ≡ v
      → IsLinked s
      → IsLinked (write_pr_info env f b m v s).1
  unfolding write_pr_info
  write_pr_info-IsLinked f b m (valid p r) s e ev h =
      update_in_place env b (valid_fields p r m) _ s
        (e ∙ λ i. some (record m { validation = ev i })) refl refl h
  write_pr_info-IsLinked f b m v s e ev h = h

  pub update_pr_info-IsLinked :
      (f : Option PrInfo → PrInfo) (b : Name) → Keeps IsLinked (update_pr_info env f b)
  unfolding update_pr_info
  update_pr_info-IsLinked f b = record {
    kept = λ s h. elim (Option-cases (lookup b s.branches)) [
      | inl gone ↦ rw (gone, update_pr_info) h
      | inr (m, there) ↦
          rw (there, update_pr_info) (write_pr_info-IsLinked f b m m.validation s there refl h)
    ];
  }

  parent_of-invalidated :
      (v : Validation) (q : Name) → parent_of (invalidated v) ≡ some q → parent_of v ≡ some q
  parent_of-invalidated (valid p r) q e = e
  parent_of-invalidated v q e = e

  untrack_child-IsLinked : (c : Name) → Keeps IsLinked (untrack_child env c)
  unfolding untrack_child
  untrack_child-IsLinked c = record {
    kept = λ s h.
        bind_read-kept IsLinked (get_meta c) _ s (get_meta-ReadOnly c)
          (λ m e.
            bind_read-kept IsLinked (reads λ s'. assert_not_trunk m) _ s (ReadOnly-reads _)
              (λ u e'.
                put_meta-IsLinked c m _ s (ground arith) (parent_of-invalidated m.validation) refl
                  h)
              h)
          h;
  }

  pub untrack_branch-IsLinked : (b : Name) → Keeps IsLinked (untrack_branch env b)
  unfolding untrack_branch on_git
  untrack_branch-IsLinked b = record {
    kept = λ s h.
        bind_read-kept IsLinked (valid_meta b) _ s (valid_meta-ReadOnly b)
          (λ m got.
            bind-kept (LinkedWith b (widen m)) IsLinked (on_git (env.git.delete_metadata_ref b)) _ s
              (h, valid_meta_ok b m s got) (λ s' q. q.0)
              λ u s' q.
                bind-kept IsLinked IsLinked (put_meta b _) _ s'
                  (put_meta-IsLinked b (widen m) _ s' q.1 (λ p e. cc) refl q.0) (λ s'' q'. q')
                  λ u' s'' q'.
                    (Keeps-bind (gets λ s₁. s₁.arrays m.children) _ (Keeps-reads _) λ cs.
                        Keeps-for_each (untrack_child env) (reverse cs) untrack_child-IsLinked).kept
                      s'' q')
          h;
  }

  pub commit-IsLinked : (opts : CommitOpts) → Keeps IsLinked (commit env opts)
  unfolding commit refresh_revision on_git
  commit-IsLinked opts = record {
    kept = λ s h.
        bind_read-kept IsLinked get_current_branch_or_throw _ s get_current_branch_or_throw-ReadOnly
          (λ b e.
            bind_read-kept IsLinked (valid_meta b) _ s (valid_meta-ReadOnly b)
              (λ m got.
                bind-kept (LinkedWith b (widen m)) IsLinked (on_git (env.git.commit _)) _ s
                  (h, valid_meta_ok b m s got) (λ s' q. q.0)
                  λ u s' q.
                    bind_read-kept IsLinked (read_git (env.git.get_sha_or_throw (branch b))) _ s'
                      (ReadOnly-reads _)
                      (λ r e'. put_meta-IsLinked b (widen m) _ s' q.1 (λ p e''. e'') refl q.0) q.0)
              h)
          h;
  }

  run_call-IsLinked : (c : Call) → Keeps IsLinked (run_call c)
  unfolding run_call
  run_call-IsLinked (set_parent_call b p) = set_parent-IsLinked env b p
  run_call-IsLinked (track_call b p) = track_branch-IsLinked b p
  run_call-IsLinked (untrack_call b) = untrack_branch-IsLinked b
  run_call-IsLinked (clear_pr_call b) = unfold clear_pr_info in update_pr_info-IsLinked _ b
  run_call-IsLinked (checkout_call b) = checkout_branch-IsLinked env b
  run_call-IsLinked (restack_call b) = discard-IsLinked _ (restack_branch-IsLinked env b)
  run_call-IsLinked (interactive_call b) = discard-IsLinked _ (rebase_interactive-IsLinked env b)
  run_call-IsLinked (onto_fetched_call b) =
      discard-IsLinked _ (rebase_branch_onto_fetched-IsLinked env b)
  run_call-IsLinked (upsert_pr_call b info) = unfold upsert_pr_info in update_pr_info-IsLinked _ b
  run_call-IsLinked (commit_call opts) = commit-IsLinked opts
  run_call-IsLinked (continue_call base) = discard-IsLinked _ (continue_rebase-IsLinked env base)

  -- From a cache with whole links, any sequence of these calls (a `Call`), whatever git answers and whether
  -- they return or throw, leads to a cache with whole links: the parent that a branch names is
  -- there and lists the branch as a child.
  pub run_calls-IsLinked : (cs : List Call) (s : Engine W) → IsLinked s → IsLinked (run_calls cs s)
  unfolding run_calls
  run_calls-IsLinked [] s h = h
  run_calls-IsLinked (c ∷ cs) s h =
      run_calls-IsLinked cs (run_call c s).1 ((run_call-IsLinked c).kept s h)
