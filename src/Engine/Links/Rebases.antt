-- ===== src/Engine/Links/Rebases.antt =====
-- The rebases and the checkout of a branch keep the links of the cache.
use freephite.Base.{true, Option, none, some, ◌≡◌, refl, truthy, lookup}
use freephite.Base.Action.{Result, gets}
use freephite.Base.Action.Keeps.{
  ReadOnly-reads, Keeps, Keeps-ReadOnly, Keeps-pure, Keeps-raise, Keeps-reads, Keeps-if, Keeps-bind,
  bind_read-kept, bind-kept,
}
use freephite.Metadata.{Name, Sha, ValidMeta, Validation, valid, widen}
use freephite.Git.{branch, RebaseResult, rebase_done, rebase_conflicted}
use freephite.Engine.State.{
  Env, Addr, Engine, read_git, on_git, get_meta, assert_branch, branch_exists, valid_or_trunk_meta,
  valid_meta, set_current_branch, is_branch_fixed,
}
use freephite.Engine.Update.{update_meta, checkout_branch, switch_back, handle_successful_rebase}
use freephite.Engine.Rebase.{
  restack_branch, restack_unfixed, finish_rebase, rebase_interactive, continue_rebase,
  finish_continued, record_rebased, rebase_branch_onto_fetched,
}
use freephite.Engine.Reads.{
  get_meta-ReadOnly, assert_branch-ReadOnly, valid_meta-ReadOnly, valid_or_trunk_meta-ReadOnly,
  valid_meta_ok, is_branch_fixed-ReadOnly,
}
use freephite.Engine.Links.{IsLinked}
use freephite.Engine.Links.Methods.{on_git-IsLinked, update_meta-IsLinked, array_of}

module _ {W : Type 0} where
  read_git-IsLinked : {A : Type 0} (f : W → Result A) → Keeps IsLinked (read_git f)
  read_git-IsLinked f = Keeps-reads _

  pub set_current_branch-IsLinked :
      (b : Option Name) → Keeps IsLinked (set_current_branch {W = W} b)
  set_current_branch-IsLinked b = record { kept = λ s h. h }

  -- The parent of a branch whose metadata is valid is in the cache.
  pub parent_exists :
      (b : Name) (m : ValidMeta Addr) (s : Engine W)
      → IsLinked s
      → lookup b s.branches ≡ some (widen m)
      → branch_exists m.parent_branch_name s ≡ true
  unfolding branch_exists
  parent_exists b m s h e =
      let (mp, there, listed) = h.linked b m.parent_branch_name (widen m) tt e refl in rw there

module _ {W : Type 0} (env : Env W) where
  -- An update that leaves the parent and the array of a valid branch as they are.
  pub update_in_place :
      (b : Name) (m new : ValidMeta Addr) (s : Engine W)
      → lookup b s.branches ≡ some (widen m)
      → new.parent_branch_name ≡ m.parent_branch_name
      → new.children ≡ m.children
      → IsLinked s
      → IsLinked (update_meta env b new s).1
  update_in_place b m new s e parent array h =
      update_meta-IsLinked env b new s (rw parent (parent_exists b m s h e))
        (rw array (array_of env b m s e)) h

  switch_back-IsLinked : (b : Option Name) → Keeps IsLinked (switch_back env b)
  unfolding switch_back
  switch_back-IsLinked none = Keeps-pure tt
  switch_back-IsLinked (some c) =
      Keeps-bind (gets (branch_exists c)) _ (Keeps-reads _)
        λ there. Keeps-if there _ _ (on_git-IsLinked _) (Keeps-pure tt)

  handle_successful_rebase-IsLinked :
      (b : Name) (base : Sha) → Keeps IsLinked (handle_successful_rebase env b base)
  unfolding handle_successful_rebase
  handle_successful_rebase-IsLinked b base = record {
    kept = λ s h.
        bind_read-kept IsLinked (valid_meta b) _ s (valid_meta-ReadOnly b)
          (λ m got.
            bind_read-kept IsLinked (read_git (env.git.get_sha_or_throw (branch b))) _ s
              (ReadOnly-reads _)
              (λ r got'.
                bind-kept IsLinked IsLinked (update_meta env b _) _ s
                  (update_in_place b m _ s (valid_meta_ok b m s got) refl refl h) (λ s' q. q)
                  λ u s' q.
                    (Keeps-bind (gets λ s''. truthy s''.current_branch) _ (Keeps-reads _)
                        switch_back-IsLinked).kept
                      s' q)
              h)
          h;
  }

  finish_rebase-IsLinked :
      (b : Name) (base : Sha) (r : RebaseResult) → Keeps IsLinked (finish_rebase env b base r)
  unfolding finish_rebase
  finish_rebase-IsLinked b base rebase_conflicted = Keeps-pure _
  finish_rebase-IsLinked b base rebase_done =
      Keeps-bind (handle_successful_rebase env b base) _ (handle_successful_rebase-IsLinked b base)
        (λ u. Keeps-pure _)

  restack_unfixed-IsLinked : (b : Name) (v : Validation) → Keeps IsLinked (restack_unfixed env b v)
  unfolding restack_unfixed
  restack_unfixed-IsLinked b (valid p r) =
      Keeps-bind (assert_branch p) _ (Keeps-ReadOnly _ (assert_branch-ReadOnly p)) λ u.
        Keeps-bind (get_meta p) _ (Keeps-ReadOnly _ (get_meta-ReadOnly p)) λ parent.
          Keeps-bind (on_git _) _ (on_git-IsLinked _)
            (finish_rebase-IsLinked b parent.branch_revision)
  restack_unfixed-IsLinked b v = Keeps-raise _

  pub restack_branch-IsLinked : (b : Name) → Keeps IsLinked (restack_branch env b)
  unfolding restack_branch
  restack_branch-IsLinked b =
      Keeps-bind (valid_or_trunk_meta b) _ (Keeps-ReadOnly _ (valid_or_trunk_meta-ReadOnly b)) λ m.
        Keeps-bind (is_branch_fixed b) _ (Keeps-ReadOnly _ (is_branch_fixed-ReadOnly b))
          λ fixed. Keeps-if fixed _ _ (Keeps-pure _) (restack_unfixed-IsLinked b m.validation)

  pub rebase_interactive-IsLinked : (b : Name) → Keeps IsLinked (rebase_interactive env b)
  unfolding rebase_interactive
  rebase_interactive-IsLinked b =
      Keeps-bind (valid_meta b) _ (Keeps-ReadOnly _ (valid_meta-ReadOnly b)) λ m.
        Keeps-bind (on_git _) _ (on_git-IsLinked _)
          (finish_rebase-IsLinked b m.parent_branch_revision)

  record_rebased-IsLinked :
      (base : Sha) (b : Option Name) → Keeps IsLinked (record_rebased env base b)
  unfolding record_rebased
  record_rebased-IsLinked base none = Keeps-raise _
  record_rebased-IsLinked base (some b) =
      Keeps-bind (valid_meta b) _ (Keeps-ReadOnly _ (valid_meta-ReadOnly b)) λ m.
        Keeps-bind (handle_successful_rebase env b base) _
          (handle_successful_rebase-IsLinked b base) (λ u. Keeps-pure _)

  finish_continued-IsLinked :
      (base : Sha) (r : RebaseResult) → Keeps IsLinked (finish_continued env base r)
  unfolding finish_continued
  finish_continued-IsLinked base rebase_conflicted = Keeps-pure _
  finish_continued-IsLinked base rebase_done =
      Keeps-bind (gets λ s. truthy (env.git.get_current_branch_name s.repository)) _ (Keeps-reads _)
        (record_rebased-IsLinked base)

  pub continue_rebase-IsLinked : (base : Sha) → Keeps IsLinked (continue_rebase env base)
  unfolding continue_rebase
  continue_rebase-IsLinked base =
      Keeps-bind (on_git env.git.rebase_continue) _ (on_git-IsLinked _)
        (finish_continued-IsLinked base)

  pub rebase_branch_onto_fetched-IsLinked :
      (b : Name) → Keeps IsLinked (rebase_branch_onto_fetched env b)
  unfolding rebase_branch_onto_fetched
  rebase_branch_onto_fetched-IsLinked b =
      Keeps-bind (valid_meta b) _ (Keeps-ReadOnly _ (valid_meta-ReadOnly b)) λ m.
        Keeps-bind (read_git _) _ (Keeps-reads _) λ head.
          Keeps-bind (read_git _) _ (Keeps-reads _) λ base.
            Keeps-bind (on_git _) _ (on_git-IsLinked _) λ u.
              Keeps-bind (set_current_branch (some b)) _ (set_current_branch-IsLinked _)
                λ u'. Keeps-bind (on_git _) _ (on_git-IsLinked _) (finish_rebase-IsLinked b base)

  pub checkout_branch-IsLinked : (b : Name) → Keeps IsLinked (checkout_branch env b)
  unfolding checkout_branch
  checkout_branch-IsLinked b = Keeps-bind (gets λ s. s.current_branch) _ (Keeps-reads _) λ current.
      Keeps-if _ _ _ (Keeps-pure tt) (
        Keeps-bind (assert_branch b) _ (Keeps-ReadOnly _ (assert_branch-ReadOnly b))
          λ u. Keeps-bind (on_git _) _ (on_git-IsLinked _) (λ u'. set_current_branch-IsLinked _))
