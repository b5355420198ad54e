-- ===== src/Engine/Rebase/Fixed.antt =====
-- `restackBranch` fixes the branch that it rebases.
use freephite.Base.{
  true, false, Option, some, ◌≡◌, refl, ◌≢◌, ◌∙◌, sym, arith, ◌==◌, lookup, insert,
  lookup-insert_self, lookup-insert_ne, Bool-cases, inl, inr, ap, truthy,
}
use freephite.Base.Action.{Result, ok, err, ◌>>=◌}
use freephite.Metadata.{Name, Sha, CachedMeta, ValidMeta, valid, widen}
use freephite.Git.{RebaseResult, rebase_done, rebase_conflicted, branch}
use freephite.Engine.State.{
  Env, Addr, Engine, on_git, assert_branch, branch_exists, valid_meta, valid_or_trunk_meta,
  is_branch_fixed,
}
use freephite.Engine.Update.{update_meta, switch_back, handle_successful_rebase}
use freephite.Engine.Update.Parents.{branches-update_meta}
use freephite.Engine.Rebase.{done, restack_branch, restack_unfixed, finish_rebase}

module _ {W : Type 0} (env : Env W) where
  -- Switching back changes the repository alone.
  branches-switch_back :
      (c : Option Name) (s : Engine W) → (switch_back env c s).1.branches ≡ s.branches
  unfolding switch_back on_git ◌>>=◌
  branches-switch_back c s = ground arith

  -- A rebase that is recorded leaves the branch valid at the new base, and its parent alone.
  branches-handle_successful_rebase :
      (b : Name) (m : ValidMeta Addr) (base : Sha) (s : Engine W)
      → lookup b s.branches ≡ some (widen m)
      → branch_exists m.parent_branch_name s ≡ true
      → (handle_successful_rebase env b base s).0 ≡ ok tt
      → (r : Sha) × ((handle_successful_rebase env b base s).1.branches
          ≡ insert b
              (widen (record m { branch_revision = r; parent_branch_revision = base }))
              s.branches)
  unfolding handle_successful_rebase valid_meta ◌>>=◌
  branches-handle_successful_rebase b m base s e there returned =
      go (env.git.get_sha_or_throw (branch b) s.repository) refl
    where
      updated : Sha → ValidMeta Addr
      updated r = record m { branch_revision = r; parent_branch_revision = base }

      go :
          (x : Result Sha)
          → env.git.get_sha_or_throw (branch b) s.repository ≡ x
          → (r : Sha) × ((handle_successful_rebase env b base s).1.branches
              ≡ insert b (widen (updated r)) s.branches)
      go (err x) q = absurd (ground arith)
      go (ok r) q =
          let s' = (update_meta env b (updated r) s).1 in
          (
            r,
            ground (
              arith,
              branches-update_meta env b m (updated r) s e there,
              branches-switch_back (truthy s'.current_branch) s',
            ),
          )

  fixed_lem :
      (b : Name) (m parent : CachedMeta Addr) (p : Name) (s : Engine W)
      → lookup b s.branches ≡ some m
      → m.validation ≡ valid p parent.branch_revision
      → lookup p s.branches ≡ some parent
      → (is_branch_fixed b s).0 ≡ ok true
  unfolding is_branch_fixed ◌>>=◌
  fixed_lem b m parent p s e v there = ground arith

  finish_rebase-fixed :
      (b : Name) (m : ValidMeta Addr) (parent : CachedMeta Addr) (s : Engine W)
      → lookup b s.branches ≡ some (widen m)
      → lookup m.parent_branch_name s.branches ≡ some parent
      → m.parent_branch_name ≢ b
      → (finish_rebase env b parent.branch_revision rebase_done s).0 ≡ ok done
      → (is_branch_fixed b (finish_rebase env b parent.branch_revision rebase_done s).1).0 ≡ ok true
  unfolding finish_rebase branch_exists ◌>>=◌
  finish_rebase-fixed b m parent s e there ne returned =
      go (handle_successful_rebase env b parent.branch_revision s) refl
    where
      go :
          (x : Result (Unit {0}) × Engine W)
          → handle_successful_rebase env b parent.branch_revision s ≡ x
          → (is_branch_fixed b (finish_rebase env b parent.branch_revision rebase_done s).1).0
            ≡ ok true
      go (err x, s') q = absurd (ground arith)
      go (ok u, s') q =
          let base = parent.branch_revision in
          let (r, eq) =
            branches-handle_successful_rebase b m base s e (rw there) (ap (λ x. x.0) q) in
          let m' = widen (record m { branch_revision = r; parent_branch_revision = base }) in
          let eq' : s'.branches ≡ insert b m' s.branches = sym (ap (λ x. x.1.branches) q) ∙ eq in
          let p = m.parent_branch_name in
          rw q (
            fixed_lem b m' parent p s' (rw eq' (lookup-insert_self b m' s.branches)) refl
              (rw eq' (lookup-insert_ne b p m' s.branches ne ∙ there)))

  restack_step :
      (b : Name) (m : ValidMeta Addr) (parent : CachedMeta Addr) (s : Engine W) (w : W)
      → lookup b s.branches ≡ some (widen m)
      → lookup m.parent_branch_name s.branches ≡ some parent
      → (m.parent_branch_revision == parent.branch_revision) ≡ false
      → env.git.rebase
          (branch m.parent_branch_name)
          m.parent_branch_revision
          b
          env.restack_committer_date_is_author_date
          s.repository
        ≡ (ok rebase_done, w)
      → restack_branch env b s
        ≡ finish_rebase env b parent.branch_revision rebase_done (record s { repository = w })
  unfolding restack_branch restack_unfixed valid_or_trunk_meta is_branch_fixed assert_branch
      branch_exists on_git ◌>>=◌
  restack_step b m parent s w e there moved rebased = ground arith

  -- Where a branch is valid, its parent is another branch of the cache, and `restackBranch`
  -- reports that it has rebased the branch, `isBranchFixed` holds of the branch afterwards.
  pub restack_branch-fixes :
      (b : Name) (m : ValidMeta Addr) (parent : CachedMeta Addr) (s : Engine W)
      → lookup b s.branches ≡ some (widen m)
      → lookup m.parent_branch_name s.branches ≡ some parent
      → m.parent_branch_name ≢ b
      → (restack_branch env b s).0 ≡ ok done
      → (is_branch_fixed b (restack_branch env b s).1).0 ≡ ok true
  unfolding restack_branch restack_unfixed valid_or_trunk_meta is_branch_fixed assert_branch
      branch_exists on_git finish_rebase ◌>>=◌
  restack_branch-fixes b m parent s e there ne returned =
      elim (Bool-cases (m.parent_branch_revision == parent.branch_revision)) [
        | inl stays ↦ absurd (ground arith)
        | inr moved ↦
            go moved
              (env.git.rebase (branch m.parent_branch_name) m.parent_branch_revision b
                env.restack_committer_date_is_author_date s.repository)
              refl
      ]
    where
      go :
          (m.parent_branch_revision == parent.branch_revision) ≡ false
          → (x : Result RebaseResult × W)
          → env.git.rebase
              (branch m.parent_branch_name)
              m.parent_branch_revision
              b
              env.restack_committer_date_is_author_date
              s.repository
            ≡ x
          → (is_branch_fixed b (restack_branch env b s).1).0 ≡ ok true
      go moved (err x, w) q = absurd (ground arith)
      go moved (ok rebase_conflicted, w) q = absurd (ground arith)
      go moved (ok rebase_done, w) q =
          let step = restack_step b m parent s w e there moved q in
          rw step (
            finish_rebase-fixed b m parent (record s { repository = w }) e there ne
              (sym (ap (λ x. x.0) step) ∙ returned))
