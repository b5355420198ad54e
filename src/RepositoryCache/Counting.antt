-- ===== src/RepositoryCache/Counting.antt =====
-- How many references hold a repository, for apps/gti-server/src/RepositoryCache.ts.
use freephite.Base.{
  ℕ, zero, suc, ◌+◌, Bool, true, false, some, List, [], ◌∷◌, ◌++◌, ◌≡◌, arith, get_elem?,
  if◌then◌else◌, is_value,
}
use mathlib.Core.Path.{subst}
use freephite.RepositoryCache.{Reference, held_by, set}

abbrev pub one_if : Bool → ℕ
one_if true = 1
one_if false = 0

-- The reference is live and disposing of it will dispose of the object at `a`.
abbrev pub holds : ℕ → Reference → Bool
holds a r = if r.disposed then false else is_value (held_by r.dispose_func r.internal_reference) a

unfoldable pub count : ℕ → List Reference → ℕ
count a [] = 0
count a (r ∷ rs) = one_if (holds a r) + count a rs

pub count-push :
    (a : ℕ) (rs : List Reference) (r : Reference)
    → count a (rs ++ r ∷ []) ≡ count a rs + one_if (holds a r)
unfolding count
count-push a [] r = omega arith
count-push a (x ∷ rs) r = omega (arith, count-push a rs r)

pub count-set :
    (a i : ℕ) (rs : List Reference) (r r' : Reference)
    → get_elem? rs i ≡ some r
    → count a (set rs i r') + one_if (holds a r) ≡ count a rs + one_if (holds a r')
unfolding count
count-set a i [] r r' e = cc
count-set a zero (x ∷ rs) r r' e = ground arith
count-set a (suc i) (x ∷ rs) r r' e = omega (arith, count-set a i rs r r' e)

-- Every reference of the list.
abbrev pub Every : (Reference → Type 0) → List Reference → Type 0
Every P [] = Unit {0}
Every P (r ∷ rs) = P r × Every P rs

pub Every-get_elem? :
    (P : Reference → Type 0) (i : ℕ) (rs : List Reference) {r : Reference}
    → Every P rs
    → get_elem? rs i ≡ some r
    → P r
Every-get_elem? P i [] h e = cc
Every-get_elem? P zero (x ∷ rs) h e = subst P (cc) h.0
Every-get_elem? P (suc i) (x ∷ rs) h e = Every-get_elem? P i rs h.1 e

pub Every-push :
    (P : Reference → Type 0) (rs : List Reference) (r : Reference)
    → Every P rs
    → P r
    → Every P (rs ++ r ∷ [])
Every-push P [] r h p = (p, tt)
Every-push P (x ∷ rs) r h p = (h.0, Every-push P rs r h.1 p)

pub Every-set :
    (P : Reference → Type 0) (i : ℕ) (rs : List Reference) (r : Reference)
    → Every P rs
    → P r
    → Every P (set rs i r)
Every-set P i [] r h p = h
Every-set P zero (x ∷ rs) r h p = (p, h.1)
Every-set P (suc i) (x ∷ rs) r h p = (h.0, Every-set P i rs r h.1 p)

pub Every-map :
    (P Q : Reference → Type 0) (rs : List Reference)
    → ((r : Reference) → P r → Q r)
    → Every P rs
    → Every Q rs
Every-map P Q [] f h = h
Every-map P Q (r ∷ rs) f h = (f r h.0, Every-map P Q rs f h.1)
