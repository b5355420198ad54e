-- ===== src/Names/Bounds.antt =====
-- The names that are made fit into a ref, and have only characters that git and GitHub accept.
use freephite.Base.{
  ℕ, zero, suc, ◌≤◌, Bool, true, false, Option, none, some, [], ◌∷◌, ◌++◌, ◌≡◌, refl, arith, length,
  Bool-cases, inl, inr, if◌then◌else◌,
}
use mathlib.Core.Path.{subst, sym}
use freephite.Text.{Text}
use freephite.Names.{
  NameConfig, or_empty, is_supported, is_empty_text, max_branch_name_byte_length,
  remove_unsupported_trailing_characters, replace_runs, replace_unsupported_characters, slice_to,
  new_branch_name,
}

abbrev pub AllSupported : Text → Type 0
AllSupported [] = Unit {0}
AllSupported (c ∷ t) = (is_supported c ≡ true) × AllSupported t

-- A name of at most 234 characters, all of them supported.
pub record IsBranchName (n : Text) : Type 0 where
  pub short : length n ≤ max_branch_name_byte_length
  pub supported : AllSupported n

AllSupported-append : (s t : Text) → AllSupported s → AllSupported t → AllSupported (s ++ t)
AllSupported-append [] t h h' = h'
AllSupported-append (c ∷ s) t (h, hs) h' = (h, AllSupported-append s t hs h')

replace_runs_keeps :
    (r : Text) (in_run : Bool) (c : ℕ) (t : Text)
    → is_supported c ≡ true
    → replace_runs r in_run (c ∷ t) ≡ c ∷ replace_runs r false t
unfolding replace_runs
replace_runs_keeps r in_run c t e = rw (e, replace_runs) refl

replace_runs_goes_on :
    (r : Text) (c : ℕ) (t : Text)
    → is_supported c ≡ false
    → replace_runs r true (c ∷ t) ≡ replace_runs r true t
unfolding replace_runs
replace_runs_goes_on r c t e = rw (e, replace_runs) refl

replace_runs_starts :
    (r : Text) (c : ℕ) (t : Text)
    → is_supported c ≡ false
    → replace_runs r false (c ∷ t) ≡ r ++ replace_runs r true t
unfolding replace_runs
replace_runs_starts r c t e = rw (e, replace_runs) refl

replace_runs-AllSupported :
    (r : Text) (in_run : Bool) (t : Text) → AllSupported r → AllSupported (replace_runs r in_run t)
unfolding replace_runs
replace_runs-AllSupported r in_run [] h = tt
replace_runs-AllSupported r true (c ∷ t) h = elim (Bool-cases (is_supported c)) [
  | inl e ↦
      subst AllSupported (sym (replace_runs_keeps r true c t e))
        (e, replace_runs-AllSupported r false t h)
  | inr e ↦
      subst AllSupported (sym (replace_runs_goes_on r c t e)) (replace_runs-AllSupported r true t h)
]
replace_runs-AllSupported r false (c ∷ t) h = elim (Bool-cases (is_supported c)) [
  | inl e ↦
      subst AllSupported (sym (replace_runs_keeps r false c t e))
        (e, replace_runs-AllSupported r false t h)
  | inr e ↦
      subst AllSupported (sym (replace_runs_starts r c t e))
        (AllSupported-append r (replace_runs r true t) h (replace_runs-AllSupported r true t h))
]

slice_to-IsBranchName :
    (n : ℕ) (t : Text) → AllSupported t → (length (slice_to n t) ≤ n) × AllSupported (slice_to n t)
unfolding slice_to
slice_to-IsBranchName zero t h = (omega arith, tt)
slice_to-IsBranchName (suc n) [] h = (omega arith, tt)
slice_to-IsBranchName (suc n) (c ∷ t) (h, hs) =
    let (short, rest) = slice_to-IsBranchName n t hs in (omega arith, (h, rest))

slice_lem : (t : Text) → AllSupported t → IsBranchName (slice_to max_branch_name_byte_length t)
slice_lem t h =
    let (short, supported) = slice_to-IsBranchName max_branch_name_byte_length t h in
    record { short = short; supported = supported }

replace-AllSupported :
    (input : Text) (config : NameConfig)
    → AllSupported config.branch_replacement
    → AllSupported (replace_unsupported_characters input config)
unfolding replace_unsupported_characters
replace-AllSupported input config h =
    replace_runs-AllSupported config.branch_replacement false
      (remove_unsupported_trailing_characters input) h

-- `new_branch_name` made no name, and was given none and no message, or made a good one.
abbrev pub IsNamed : Option Text → Option Text → Option Text → Type 0
IsNamed branch_name commit_message none =
    (is_empty_text branch_name ≡ true) × (is_empty_text commit_message ≡ true)
IsNamed branch_name commit_message (some n) = IsBranchName n

new_branch_name_given :
    (branch_name commit_message : Option Text) (today : Text) (config : NameConfig)
    → is_empty_text branch_name ≡ false
    → new_branch_name branch_name commit_message today config
      ≡ some (
          slice_to max_branch_name_byte_length
            (config.branch_prefix ++ replace_unsupported_characters (or_empty branch_name) config))
unfolding new_branch_name
new_branch_name_given branch_name commit_message today config e = ground arith

new_branch_name_from_message :
    (branch_name commit_message : Option Text) (today : Text) (config : NameConfig)
    → is_empty_text branch_name ≡ true
    → is_empty_text commit_message ≡ false
    → new_branch_name branch_name commit_message today config
      ≡ some (
          slice_to max_branch_name_byte_length (
            config.branch_prefix
            ++ (if config.branch_date then today else [])
            ++ replace_unsupported_characters (or_empty commit_message) config))
unfolding new_branch_name
new_branch_name_from_message branch_name commit_message today config e e' = ground arith

new_branch_name_missing :
    (branch_name commit_message : Option Text) (today : Text) (config : NameConfig)
    → is_empty_text branch_name ≡ true
    → is_empty_text commit_message ≡ true
    → new_branch_name branch_name commit_message today config ≡ none
unfolding new_branch_name
new_branch_name_missing branch_name commit_message today config e e' = ground arith

if-AllSupported : (b : Bool) (t : Text) → AllSupported t → AllSupported (if b then t else [])
if-AllSupported true t h = h
if-AllSupported false t h = tt

-- Where the configured prefix and replacement and the date have only supported characters, every
-- name that is made has at most 234 characters, all of them supported, whatever the user types;
-- no name is made only where both the name and the message are missing or empty.
pub new_branch_name-IsNamed :
    (branch_name commit_message : Option Text) (today : Text) (config : NameConfig)
    → AllSupported config.branch_prefix
    → AllSupported config.branch_replacement
    → AllSupported today
    → IsNamed branch_name commit_message (new_branch_name branch_name commit_message today config)
new_branch_name-IsNamed branch_name commit_message today config hp hr ht =
    elim (Bool-cases (is_empty_text branch_name)) [
      | inr e ↦
          subst (IsNamed branch_name commit_message)
            (sym (new_branch_name_given branch_name commit_message today config e))
            (slice_lem _
              (AllSupported-append config.branch_prefix _ hp (replace-AllSupported _ config hr)))
      | inl e ↦ elim (Bool-cases (is_empty_text commit_message)) [
        | inl e' ↦
            subst (IsNamed branch_name commit_message)
              (sym (new_branch_name_missing branch_name commit_message today config e e')) (e, e')
        | inr e' ↦
            subst (IsNamed branch_name commit_message)
              (sym (new_branch_name_from_message branch_name commit_message today config e e'))
              (slice_lem _ (
                AllSupported-append
                  (config.branch_prefix ++ (if config.branch_date then today else [])) _
                  (AllSupported-append config.branch_prefix _ hp
                    (if-AllSupported config.branch_date today ht))
                  (replace-AllSupported _ config hr)))
      ]
    ]
