-- ===== src/Parse/Rounds.antt =====
-- One round of the loop of `parseBranchesAndMeta`: which entries are parsed at once, and what the
-- round leaves.
use freephite.Base.{
  Bool, true, false, ◌||◌, Option, none, some, List, ◌≡◌, arith, ◌==◌, is_value, is_some, lookup,
  insert, lookup-insert, inl, inr, Bool-cases, Option-cases,
}
use freephite.Base.Action.{ok, Action, ◌>>=◌}
use freephite.Metadata.{
  bad_parent_name, trunk, Name, Sha, Meta, PrInfo, CachedMeta, is_valid, is_trunk_meta,
  invalid_parent,
}
use freephite.Git.{Git, Rev}
use freephite.Parse.Revision.{validate-eq-contained}
use freephite.Parse.Whole.{KeepsWhole, insert-IsWhole, insert_both-IsWhole}
use freephite.Metadata.{Validation, parent_of}
use freephite.Parse.{Verdict, is_valid_at, is_bad}
use freephite.Base.{refl}
use freephite.Parse.{
  parsed_meta, BranchToParse, Parsed, validate_or_fix_parent_branch_revision, usable_parent,
  validation_under, parse_under, parse_step, push_child, validation_of,
}

-- git answers every question about ancestry, and writes every ref.
pub record Answers {W : Type 0} (git : Git W) : Type 0 where
  pub bases : (l r : Rev) (w : W) → (base : Sha) × (git.get_merge_base l r w ≡ ok base)
  pub writes : (b : Name) (m : Meta) (w : W) → (git.write_metadata_ref b m w).0 ≡ ok tt

-- The action returns, from this state.
abbrev pub Returns : {S A : Type 0} → Action S A → S → Type 0
Returns {S} {A} m s = (a : A) × (s' : S) × (m s ≡ (ok a, s'))

-- An entry that the next round parses: trunk, a branch with no usable parent, or one whose parent
-- has been parsed.
abbrev pub is_ready : Option Name → List Name → Parsed → BranchToParse → Bool
is_ready trunk_name all parsed e =
    is_value trunk_name e.branch_name
    || elim (usable_parent all e.branch_name e.meta.parent_branch_name) [
      | none ↦ true
      | some p ↦ is_some (lookup p parsed)
    ]

-- Where `parsed'` has what `parsed` has, and `b`.
abbrev pub Adds : Name → Parsed → Parsed → Type 0
Adds b parsed parsed' =
    (n : Name) → is_some (lookup n parsed') ≡ ((b == n) || is_some (lookup n parsed))

insert-Adds :
    (b : Name) (m : CachedMeta (List Name)) (parsed : Parsed) → Adds b parsed (insert b m parsed)
insert-Adds b m parsed n = rw lookup-insert (ground arith)

insert_both-Adds :
    (b p : Name) (m parent parent' : CachedMeta (List Name)) (parsed : Parsed)
    → lookup p parsed ≡ some parent
    → Adds b parsed (insert b m (insert p parent' parsed))
insert_both-Adds b p m parent parent' parsed e n =
    rw lookup-insert (rw lookup-insert (ground arith))

module _ {W : Type 0} (git : Git W) (answers : Answers git) where
  validate-Returns :
      (b p : Name) (stored : Option Sha) (info : Option PrInfo) (current : Sha) (w : W)
      → Returns (validate_or_fix_parent_branch_revision git b p stored info current) w
  validate-Returns b p stored info current w = (
    _,
    _,
    validate-eq-contained git b p info w stored current
        (λ r. answers.bases (Rev.branch b) (Rev.sha r) w) (λ m. answers.writes b m w),
  )

  validation_of-parent_of : (p : Name) (v : Verdict) → parent_of (validation_of p v) ≡ some p
  validation_of-parent_of p (is_valid_at r) = refl
  validation_of-parent_of p is_bad = refl

  validation_under_lem :
      (e : BranchToParse) (p : Name) (parent : CachedMeta (List Name)) (w : W)
      → (v : Validation) × (w' : W) × (validation_under git e p parent w ≡ (ok v, w'))
        × (parent_of v ≡ some p)
  unfolding validation_under ◌>>=◌
  validation_under_lem e p parent w =
      elim (Bool-cases (is_valid parent.validation || is_trunk_meta parent.validation)) [
        | inl checked ↦
            let (v, w', eq) =
              validate-Returns e.branch_name p e.meta.parent_branch_revision e.meta.pr_info
                parent.branch_revision w in
            (validation_of p v, w', rw checked (rw eq), validation_of-parent_of p v)
        | inr unchecked ↦ (invalid_parent p e.meta.parent_branch_revision, w, rw unchecked, refl)
      ]

  parse_under_returns :
      (e : BranchToParse) (p : Name) (parent : CachedMeta (List Name)) (parsed : Parsed) (w : W)
      → lookup p parsed ≡ some parent
      → (parsed' : Parsed) × (w' : W) × (parse_under git e p parent parsed w ≡ (ok parsed', w'))
        × Adds e.branch_name parsed parsed'
        × KeepsWhole e.branch_name parsed parsed'
  unfolding parse_under ◌>>=◌
  parse_under_returns e p parent parsed w there =
      let (v, w', eq, under) = validation_under_lem e p parent w in
      let m = parsed_meta e v in
      let parent' = push_child e.branch_name parent in
      (
        insert e.branch_name m (insert p parent' parsed),
        w',
        rw eq,
        insert_both-Adds e.branch_name p m parent parent' parsed there,
        insert_both-IsWhole e.branch_name p m parent parsed there under,
      )

  -- A ready entry is parsed.
  pub parse_step-ready :
      (trunk_name : Option Name) (all : List Name) (e : BranchToParse) (parsed : Parsed) (w : W)
      → is_ready trunk_name all parsed e ≡ true
      → (parsed' : Parsed) × (w' : W) × (parse_step git trunk_name all e parsed w
          ≡ (ok (some parsed'), w'))
        × Adds e.branch_name parsed parsed'
        × KeepsWhole e.branch_name parsed parsed'
  unfolding parse_step ◌>>=◌
  parse_step-ready trunk_name all e parsed w ready =
      elim (Bool-cases (is_value trunk_name e.branch_name)) [
        | inl t ↦
            let m : CachedMeta (List Name) = record (parsed_meta e trunk) { pr_info = none } in
            (
              insert e.branch_name m parsed,
              w,
              rw t,
              insert-Adds e.branch_name m parsed,
              insert-IsWhole e.branch_name m parsed refl,
            )
        | inr not_trunk ↦
            elim (Option-cases (usable_parent all e.branch_name e.meta.parent_branch_name)) [
              | inl root ↦
                  let m = parsed_meta e bad_parent_name in
                  (
                    insert e.branch_name m parsed,
                    w,
                    rw not_trunk (rw root),
                    insert-Adds e.branch_name m parsed,
                    insert-IsWhole e.branch_name m parsed refl,
                  )
              | inr (p, has_parent) ↦ elim (Option-cases (lookup p parsed)) [
                | inl waits ↦ absurd (ground arith)
                | inr (parent, there) ↦
                    let (parsed', w', eq, adds, keeps) =
                      parse_under_returns e p parent parsed w there in
                    (parsed', w', rw not_trunk (rw has_parent (rw there (rw eq))), adds, keeps)
              ]
            ]
      ]

  -- An entry that is not ready goes to the end of the queue, and nothing else happens.
  pub parse_step-waits :
      (trunk_name : Option Name) (all : List Name) (e : BranchToParse) (parsed : Parsed) (w : W)
      → is_ready trunk_name all parsed e ≡ false
      → parse_step git trunk_name all e parsed w ≡ (ok none, w)
  unfolding parse_step ◌>>=◌
  parse_step-waits trunk_name all e parsed w waits = ground arith
