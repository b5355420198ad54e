-- ===== src/RepositoryCache/Counted.antt =====
-- The references of apps/gti-server/src/RepositoryCache.ts are counted right, and a repository is
-- disposed of with its last one.
use freephite.Base.{
  ℕ, zero, suc, ◌+◌, ◌<◌, true, false, Option, none, some, List, [], ◌∷◌, ◌≡◌, refl, arith,
  get_elem?, ◌==◌, eq_cases, ==_refl, ==_ne, ap, inl, inr, Bool-cases,
}
use mathlib.Core.Path.{subst}
use freephite.Text.{Text}
use freephite.RepositoryCache.{
  Cache, RefCounted, Reference, repository, is_pending, held_by, set, update, ref, dispose, pos,
  increment, decrement, is_zero, lookup, set_repo, at, matches,
}
use freephite.RepositoryCache.Counting.{
  one_if, holds, count, count-set, Every, Every-get_elem?, Every-set,
}

abbrev pub held : Reference → Option ℕ
held r = held_by r.dispose_func r.internal_reference

-- A pending reference holds nothing; a repository that is held or promised is one below `n`, and
-- the one that is promised is held.
abbrev pub IsSound : ℕ → Reference → Type 0
IsSound n r =
    (is_pending r.promise ≡ true → held r ≡ none)
    × ((a : ℕ) → held r ≡ some a → a < n)
    × ((a : ℕ) → r.promise ≡ repository a → held r ≡ some a)

-- The object has `n` references, and was disposed of exactly when it has none, once.
abbrev pub Counts : ℕ → RefCounted → Type 0
Counts n v =
    (v.references ≡ pos n) × (v.is_disposed ≡ (n == 0)) × (v.disposals ≡ one_if v.is_disposed)

abbrev pub Below : ℕ → List (Text × ℕ) → Type 0
Below n [] = Unit {0}
Below n ((root, a) ∷ repos) = (a < n) × Below n repos

pub record Inv (c : Cache) : Type 0 where
  pub sound : Every (IsSound c.next) c.references
  pub counts : (a : ℕ) → a < c.next → Counts (count a c.references) (c.heap a)
  pub listed : Below c.next c.repos_by_root

ref-Counts : (n : ℕ) (v : RefCounted) → v.is_disposed ≡ false → Counts n v → Counts (suc n) (ref v)
unfolding ref increment
ref-Counts n v live h = ground arith

dispose-Counts : (n : ℕ) (v : RefCounted) → Counts (suc n) v → Counts n (dispose v)
unfolding dispose decrement is_zero
dispose-Counts zero v h = ground arith
dispose-Counts (suc n) v h = ground arith

-- Nobody holds what is not there yet.
pub count-next : (n : ℕ) (rs : List Reference) → Every (IsSound n) rs → count n rs ≡ 0
unfolding count
count-next n [] h = refl
count-next n (r ∷ rs) h = ground (arith, h.0.1 n, count-next n rs)

matches-live :
    (dir_guess : Text) (v : RefCounted) → matches dir_guess v ≡ true → v.is_disposed ≡ false
matches-live dir_guess v h = ground arith

pub lookup-live :
    (dir_guess : Text) (n : ℕ) (heap : ℕ → RefCounted) (repos : List (Text × ℕ)) (a : ℕ)
    → Below n repos
    → lookup dir_guess heap repos ≡ some a
    → (a < n) × ((heap a).is_disposed ≡ false)
unfolding lookup
lookup-live dir_guess n heap [] a h e = cc
lookup-live dir_guess n heap ((root, b) ∷ repos) a h e =
    elim (Bool-cases (matches dir_guess (heap b))) [
      | inl found ↦
          subst (λ x. (x < n) × ((heap x).is_disposed ≡ false)) (cc (rw found at e))
            (h.0, matches-live dir_guess (heap b) found)
      | inr other ↦ lookup-live dir_guess n heap repos a h.1 (rw other at e)
    ]

pub Below-set_repo :
    (root : Text) (a n : ℕ) (repos : List (Text × ℕ))
    → a < n
    → Below n repos
    → Below n (set_repo root a repos)
unfolding set_repo
Below-set_repo root a n [] lt h = (lt, tt)
Below-set_repo root a n ((r, b) ∷ repos) lt h = ground (arith, Below-set_repo root a n repos)

pub Below-suc : (n : ℕ) (repos : List (Text × ℕ)) → Below n repos → Below (n + 1) repos
Below-suc n [] h = h
Below-suc n ((root, a) ∷ repos) h = (omega arith, Below-suc n repos h.1)

pub IsSound-suc : (n : ℕ) (r : Reference) → IsSound n r → IsSound (n + 1) r
IsSound-suc n r h = (h.0, (λ a e. omega (arith, h.1 a e)), h.2)

-- The reference `i` is replaced by one that holds the same.
pub Inv-same :
    (c : Cache) (i : ℕ) (r r' : Reference)
    → get_elem? c.references i ≡ some r
    → ((a : ℕ) → holds a r' ≡ holds a r)
    → IsSound c.next r'
    → Inv c
    → Inv (record c { references = set c.references i r' })
Inv-same c i r r' e same ok v = record {
  sound = Every-set (IsSound c.next) i c.references r' v.sound ok;
  counts = λ a lt.
      subst (λ n. Counts n (c.heap a))
        (omega (arith, count-set a i c.references r r' e, ap one_if (same a))) (v.counts a lt);
  listed = v.listed;
}

-- A reference that holds nothing comes to hold `a`, which is not disposed of.
pub Inv-acquire :
    (c : Cache) (a : ℕ) (rs : List Reference)
    → a < c.next
    → (c.heap a).is_disposed ≡ false
    → Every (IsSound c.next) rs
    → ((b : ℕ) → count b rs ≡ count b c.references + one_if (a == b))
    → Inv c
    → Inv (record (at a ref c) { references = rs })
Inv-acquire c a rs lt live ok more v = record {
  sound = ok;
  counts = λ b below. elim (eq_cases a b) [
    | inl same ↦
        subst (λ x. Counts (count x rs) (update c.heap a (ref (c.heap a)) x)) same
          (let e : count a rs ≡ suc (count a c.references) = ground (arith, more a) in
            rw (==_refl a, e) (ref-Counts (count a c.references) (c.heap a) live (v.counts a lt)))
    | inr other ↦
        let e : count b rs ≡ count b c.references = ground (arith, more b) in
        rw (==_ne a b other, e) (v.counts b below)
  ];
  listed = v.listed;
}

pub holds-held :
    (a b : ℕ) (r : Reference) → r.disposed ≡ false → held r ≡ some a → holds b r ≡ (a == b)
holds-held a b r live has = ground arith

-- A live reference that holds `a` is disposed of.
pub Inv-release :
    (c : Cache) (a i : ℕ) (r : Reference)
    → get_elem? c.references i ≡ some r
    → r.disposed ≡ false
    → held r ≡ some a
    → Inv c
    → Inv
        (at a dispose (record c { references = set c.references i (record r { disposed = true }) }))
Inv-release c a i r e live has v =
    let r' = record r { disposed = true } in
    let ok = Every-get_elem? (IsSound c.next) i c.references v.sound e in
    let fewer : (b : ℕ) → count b (set c.references i r') + one_if (a == b) ≡ count b c.references =
      λ b.
        omega (arith, count-set b i c.references r r' e, ap one_if (holds-held a b r live has)) in
    record {
      sound = Every-set (IsSound c.next) i c.references r' v.sound ok;
      counts = λ b below. elim (eq_cases a b) [
        | inl same ↦
            subst
              (λ x.
                Counts (count x (set c.references i r')) (update c.heap a (dispose (c.heap a)) x))
              same
              (rw (==_refl a) (
                dispose-Counts (count a (set c.references i r')) (c.heap a) (
                  subst (λ n. Counts n (c.heap a)) (ground (arith, fewer a))
                    (v.counts a (ok.1 a has)))))
        | inr other ↦
            let e : count b (set c.references i r') ≡ count b c.references =
              ground (arith, fewer b) in
            rw (==_ne a b other, e) (v.counts b below)
      ];
      listed = v.listed;
    }
