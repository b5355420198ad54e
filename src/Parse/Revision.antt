-- ===== src/Parse/Revision.antt =====
-- `validateOrFixParentBranchRevision` against a description of it: which known revision of the
-- parent is in the history of the branch.
use freephite.Base.{
  is_value, Bool, false, Option, none, some, ◌≡◌, arith, ◌==◌, if◌then◌else◌, truthy,
}
use freephite.Base.Action.{ok, err, ◌>>=◌}
use freephite.Metadata.{Name, Sha, PrInfo, Meta}
use freephite.Git.{Git, branch, sha}
use freephite.Parse.{
  Verdict, is_valid_at, is_bad, in_history, write_parent, validate_or_fix_parent_branch_revision,
}

module _ {W : Type 0} (git : Git W) (b p : Name) (info : Option PrInfo) (w : W) where
  -- `r` is an ancestor of the branch, or the branch itself.
  abbrev is_ancestor : Sha → Bool
  is_ancestor r = elim (git.get_merge_base (branch b) (sha r) w) [
    | ok base ↦ base == r
    | err e ↦ false
  ]

  -- The parent's present revision if the branch contains it, else the stored one if the branch
  -- contains that.
  abbrev pub contained : Option Sha → Sha → Option Sha
  contained stored current =
      if is_ancestor current
      then some current
      else elim stored [ none ↦ none | some r ↦ if is_ancestor r then some r else none ]

  abbrev pub verdict_at : Option Sha → Verdict
  verdict_at none = is_bad
  verdict_at (some r) = is_valid_at r

  -- Every question to git is answered.
  abbrev Answers : Sha → Type 0
  Answers r = (base : Sha) × (git.get_merge_base (branch b) (sha r) w ≡ ok base)

  abbrev meta_at : Sha → Meta
  meta_at r = record {
    parent_branch_name = some p;
    parent_branch_revision = some r;
    pr_info = info;
  }

  -- The repository afterwards: a revision other than the stored one has been written.
  abbrev pub stored_at : Option Sha → Option Sha → W
  stored_at stored none = w
  stored_at stored (some r) =
      if is_value stored r then w else (git.write_metadata_ref b (meta_at r) w).1

  -- Where git answers every question about ancestry and writes the ref, the verdict is the parent's
  -- present revision if the branch contains it, even where the stored one is ahead of it, else the
  -- stored one if the branch contains that, and a bad parent revision if it contains neither; the
  -- metadata is written exactly when the revision is not the one stored before.
  pub validate-eq-contained :
      (stored : Option Sha) (current : Sha)
      → ((r : Sha) → Answers r)
      → ((m : Meta) → (git.write_metadata_ref b m w).0 ≡ ok tt)
      → let r = contained (truthy stored) current in
        validate_or_fix_parent_branch_revision git b p stored info current w
        ≡ (ok (verdict_at r), stored_at (truthy stored) r)
  unfolding validate_or_fix_parent_branch_revision in_history write_parent ◌>>=◌
  validate-eq-contained none current answers writes =
      ground (arith, answers current, writes (meta_at current))
  validate-eq-contained (some r) current answers writes =
      ground (arith, answers current, answers r, writes (meta_at current))
