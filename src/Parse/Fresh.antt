-- ===== src/Parse/Fresh.antt =====
-- The branches that the loop of `parseBranchesAndMeta` has still to parse.
use freephite.Base.{
  false, ◌||◌, none, List, [], ◌∷◌, ◌++◌, map, ◌≡◌, refl, ◌∙◌, arith, ◌==◌, lookup, includes,
}
use freephite.Metadata.{Name}
use freephite.Parse.{BranchToParse, Parsed}
use freephite.Parse.Rounds.{Adds}

abbrev pub names_of : List BranchToParse → List Name
names_of = map (λ (e : BranchToParse). e.branch_name)

pub includes-rotate :
    (n : Name) (e : BranchToParse) (q : List BranchToParse)
    → includes n (names_of (q ++ e ∷ [])) ≡ ((n == e.branch_name) || includes n (names_of q))
unfolding includes
includes-rotate n e [] = refl
includes-rotate n e (x ∷ q) = ground (arith, includes-rotate n e q)

-- The queued branches have different names, and none has been parsed.
abbrev pub IsFresh : List BranchToParse → Parsed → Type 0
IsFresh [] parsed = Unit {0}
IsFresh (e ∷ q) parsed =
    (lookup e.branch_name parsed ≡ none)
    × (includes e.branch_name (names_of q) ≡ false)
    × IsFresh q parsed

pub push-IsFresh :
    (e : BranchToParse) (q : List BranchToParse) (parsed : Parsed)
    → IsFresh (e ∷ q) parsed
    → IsFresh (q ++ e ∷ []) parsed
unfolding includes
push-IsFresh e [] parsed h = (h.0, refl, tt)
push-IsFresh e (x ∷ q) parsed (new, other, (new', other', rest)) = (
  new',
  includes-rotate x.branch_name e q ∙ ground arith,
  push-IsFresh e q parsed (new, ground arith, rest),
)

pub parsed-IsFresh :
    (b : Name) (q : List BranchToParse) (parsed parsed' : Parsed)
    → Adds b parsed parsed'
    → includes b (names_of q) ≡ false
    → IsFresh q parsed
    → IsFresh q parsed'
unfolding includes
parsed-IsFresh b [] parsed parsed' adds other h = tt
parsed-IsFresh b (x ∷ q) parsed parsed' adds other (new, other', rest) = (
  ground (arith, adds x.branch_name),
  other',
  parsed-IsFresh b q parsed parsed' adds (ground arith) rest,
)
