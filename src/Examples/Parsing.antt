-- ===== src/Examples/Parsing.antt =====
-- Three branches that the parser meets before their parents.
use freephite.Base.{
  lookup, includes, arith, ◌≡◌, refl, includes, leb, some, none, List, [], ◌∷◌, inl, inr,
  Bool-cases,
}
use freephite.Base.Action.{ok}
use freephite.Metadata.{Name, Sha}
use freephite.Git.{branch, sha}
use freephite.Parse.{
  BranchToParse, parse_queue, usable_parent, validate_or_fix_parent_branch_revision,
}
use freephite.Parse.Revision.{validate-eq-contained, contained, verdict_at, stored_at}
use freephite.Parse.Rounds.{Answers}
use freephite.Parse.Fresh.{IsFresh, names_of}
use freephite.Parse.Terminates.{IsRanked, ParsesAll, parse_queue-ParsesAll}
use freephite.Examples.{small_git, small_repo, sha_of, merge_base, write_ref}

abbrev entry : Name → Sha → Name → BranchToParse
entry b r p = record {
  branch_name = b;
  branch_revision = r;
  meta = record { parent_branch_name = some p; parent_branch_revision = some 5; pr_info = none };
}

abbrev queue : List BranchToParse
queue = entry 4 40 3 ∷ entry 3 30 2 ∷ entry 2 20 1 ∷ entry 1 10 0 ∷ []

small_git-Answers : Answers (small_git [])
unfolding merge_base write_ref
small_git-Answers = record {
  bases = λ l r w. elim (Bool-cases (leb (sha_of l w) (sha_of r w))) [
    | inl e ↦ (sha_of l w, rw e refl)
    | inr e ↦ (sha_of r w, rw e refl)
  ];
  writes = λ b m w. refl;
}

queue-IsRanked : IsRanked (λ b. b) (names_of queue) queue
unfolding usable_parent includes
queue-IsRanked =
    (λ p e. ground arith, (λ p e. ground arith, (λ p e. ground arith, (λ p e. ground arith, tt))))

queue-IsFresh : IsFresh queue []
unfolding lookup includes
queue-IsFresh = (refl, refl, (refl, refl, (refl, refl, (refl, refl, tt))))

parse_queue-ParsesAll_example :
    ParsesAll (4 ∷ 3 ∷ 2 ∷ 1 ∷ []) (parse_queue (small_git []) (some 1) queue) small_repo
parse_queue-ParsesAll_example =
    parse_queue-ParsesAll (small_git []) (λ b. b) (some 1) queue small_repo small_git-Answers
      queue-IsRanked queue-IsFresh

validate-eq-contained_example :
    let r = contained (small_git []) 3 2 none small_repo (some 5) 20 in
    validate_or_fix_parent_branch_revision (small_git []) 3 2 (some 5) none 20 small_repo ≡ (
      ok (verdict_at (small_git []) 3 2 none small_repo r),
      stored_at (small_git []) 3 2 none small_repo (some 5) r,
    )
validate-eq-contained_example =
    validate-eq-contained (small_git []) 3 2 none small_repo (some 5) 20
      (λ r. small_git-Answers.bases (branch 3) (sha r) small_repo)
      (λ m. small_git-Answers.writes 3 m small_repo)
