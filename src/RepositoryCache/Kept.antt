-- ===== src/RepositoryCache/Kept.antt =====
-- What the operations of apps/gti-server/src/RepositoryCache.ts keep, whatever the order of the
-- calls and of the answers of `getRepoInfo`.
use freephite.Base.{
  ℕ, ◌+◌, ◌<◌, true, false, Option, none, some, List, ◌≡◌, ◌≢◌, refl, arith, get_elem?, ◌==◌,
  eq_cases, ==_refl, ==_ne, inl, inr, Option-cases, Bool-cases,
}
use mathlib.Core.Path.{subst}
use freephite.Text.{Text}
use freephite.RepositoryCache.{
  Cache, Reference, Promised, repository, repository_disposed, repository_error, is_pending, set,
  update, ref, increment, lookup, get_or_create, RepoInfo, success, failure, answered, unref,
  dispose_at, reuse_if_possible, settle_with, settle_without, add_repository, new_ref_counted, at,
  found_reference, pending_reference,
}
use freephite.RepositoryCache.Counting.{
  one_if, count, count-push, count-set, Every-get_elem?, Every-push, Every-set, Every-map,
}
use freephite.RepositoryCache.Counted.{
  held, IsSound, Counts, Inv, count-next, lookup-live, Below-set_repo, Below-suc, IsSound-suc,
  Inv-same, Inv-acquire, Inv-release,
}

pending-IsSound : (n : ℕ) → IsSound n pending_reference
pending-IsSound n = ((λ h. refl), (λ a e. cc), (λ a e. cc))

found-IsSound : (n a : ℕ) → a < n → IsSound n (found_reference a)
found-IsSound n a lt = ((λ h. cc), (λ b e. ground arith), (λ b e. ground arith))

pub get_or_create-Inv : (cwd : Text) (c : Cache) → Inv c → Inv (get_or_create cwd c)
unfolding get_or_create
get_or_create-Inv cwd c v = elim (Option-cases (lookup cwd c.heap c.repos_by_root)) [
  | inl unknown ↦
      rw (unknown, get_or_create)
        (record {
          sound =
              Every-push (IsSound c.next) c.references pending_reference v.sound
                (pending-IsSound c.next);
          counts = λ a lt.
              subst (λ n. Counts n (c.heap a))
                (ground (arith, count-push a c.references pending_reference)) (v.counts a lt);
          listed = v.listed;
        })
  | inr (a, found) ↦
      rw (found, get_or_create)
        (let ok = lookup-live cwd c.next c.heap c.repos_by_root a v.listed found in
          Inv-acquire c a _ ok.0 ok.1
            (Every-push (IsSound c.next) c.references (found_reference a) v.sound
              (found-IsSound c.next a ok.0))
            (λ b. count-push b c.references (found_reference a)) v)
]

settle-Inv :
    (i : ℕ) (r : Reference) (p : Promised) (c : Cache)
    → get_elem? c.references i ≡ some r
    → is_pending r.promise ≡ true
    → ((a : ℕ) → p ≢ repository a)
    → Inv c
    → Inv (settle_without i r p c)
settle-Inv i r p c e waits other v =
    let ok = Every-get_elem? (IsSound c.next) i c.references v.sound e in
    Inv-same c i r (record r { promise = p }) e (λ a. refl)
      ((λ h. ok.0 waits), ok.1, λ a q. absurd (other a q)) v

module _ (i : ℕ) (r : Reference) (root : Text) (c : Cache) where
  reuse-gone :
      r.disposed ≡ true
      → reuse_if_possible i r (success root) c ≡ settle_without i r repository_disposed c
  unfolding reuse_if_possible
  reuse-gone gone = ground arith

  reuse-new :
      r.disposed ≡ false
      → lookup root c.heap c.repos_by_root ≡ none
      → reuse_if_possible i r (success root) c ≡ settle_with i r c.next (add_repository root c)
  unfolding reuse_if_possible
  reuse-new live unknown = ground arith

  reuse-found :
      (a : ℕ)
      → r.disposed ≡ false
      → lookup root c.heap c.repos_by_root ≡ some a
      → reuse_if_possible i r (success root) c ≡ settle_with i r a (at a ref c)
  unfolding reuse_if_possible
  reuse-found a live found = ground arith

-- The reference as it is settled with the object at `a`.
abbrev holding : Reference → ℕ → Reference
holding r a = record r { promise = repository a; internal_reference = some a }

held-holding : (r : Reference) (a : ℕ) → held r ≡ none → held (holding r a) ≡ some a
held-holding r a h = ground arith

holding-IsSound : (r : Reference) (n a : ℕ) → a < n → held r ≡ none → IsSound n (holding r a)
holding-IsSound r n a lt h =
    let has = held-holding r a h in ((λ q. cc), (λ b q. ground arith), λ b q. ground arith)

count-holding :
    (i : ℕ) (r : Reference) (a b : ℕ) (rs : List Reference)
    → get_elem? rs i ≡ some r
    → r.disposed ≡ false
    → held r ≡ none
    → count b (set rs i (holding r a)) ≡ count b rs + one_if (a == b)
count-holding i r a b rs e live empty =
    ground (arith, count-set b i rs r (holding r a) e, held-holding r a empty)

ref-new : (root : Text) → Counts 1 (ref (new_ref_counted root))
unfolding ref increment
ref-new root = ground arith

module _ (i : ℕ) (r : Reference) (root : Text) (c : Cache) (e : get_elem? c.references i ≡ some r)
    (live : r.disposed ≡ false) (waits : is_pending r.promise ≡ true) where
  join-Inv :
      (a : ℕ)
      → lookup root c.heap c.repos_by_root ≡ some a
      → Inv c
      → Inv (settle_with i r a (at a ref c))
  join-Inv a found v =
      let ok = lookup-live root c.next c.heap c.repos_by_root a v.listed found in
      let empty = (Every-get_elem? (IsSound c.next) i c.references v.sound e).0 waits in
      Inv-acquire c a (set c.references i (holding r a)) ok.0 ok.1
        (Every-set (IsSound c.next) i c.references (holding r a) v.sound
          (holding-IsSound r c.next a ok.0 empty))
        (λ b. count-holding i r a b c.references e live empty) v

  add-Inv : Inv c → Inv (settle_with i r c.next (add_repository root c))
  add-Inv v =
      let n = c.next in
      let empty = (Every-get_elem? (IsSound c.next) i c.references v.sound e).0 waits in
      let lt : n < n + 1 = omega arith in
      let one : (b : ℕ)
          → count b (set c.references i (holding r n)) ≡ count b c.references + one_if (n == b) =
        λ b. count-holding i r n b c.references e live empty in
      record {
        sound =
            Every-set (IsSound (n + 1)) i c.references (holding r n)
              (Every-map (IsSound n) (IsSound (n + 1)) c.references (IsSound-suc n) v.sound)
              (holding-IsSound r (n + 1) n lt empty);
        counts = λ b below. elim (eq_cases n b) [
          | inl same ↦
              subst
                (λ x.
                  Counts (count x (set c.references i (holding r n)))
                    (update c.heap n (ref (new_ref_counted root)) x))
                same
                (let once : count n (set c.references i (holding r n)) ≡ 1 =
                    ground (arith, one n, count-next n c.references v.sound) in
                  rw (==_refl n, once) (ref-new root))
          | inr other ↦
              let as_before : count b (set c.references i (holding r n)) ≡ count b c.references =
                ground (arith, one b) in
              rw (==_ne n b other, as_before) (v.counts b (omega arith))
        ];
        listed =
            Below-set_repo root n (n + 1) c.repos_by_root lt (Below-suc n c.repos_by_root v.listed);
      }

reuse-Inv :
    (i : ℕ) (r : Reference) (info : RepoInfo) (c : Cache)
    → get_elem? c.references i ≡ some r
    → is_pending r.promise ≡ true
    → Inv c
    → Inv (reuse_if_possible i r info c)
unfolding reuse_if_possible
reuse-Inv i r (failure error) c e waits v =
    settle-Inv i r (repository_error error) c e waits (λ a q. cc) v
reuse-Inv i r (success root) c e waits v = elim (Bool-cases r.disposed) [
  | inl gone ↦
      rw (reuse-gone i r root c gone) (settle-Inv i r repository_disposed c e waits (λ a q. cc) v)
  | inr live ↦ elim (Option-cases (lookup root c.heap c.repos_by_root)) [
    | inl unknown ↦ rw (reuse-new i r root c live unknown) (add-Inv i r root c e live waits v)
    | inr (a, found) ↦
        rw (reuse-found i r root c a live found) (join-Inv i r root c e live waits a found v)
  ]
]

pub answered-Inv : (i : ℕ) (info : RepoInfo) (c : Cache) → Inv c → Inv (answered i info c)
unfolding answered reuse_if_possible
answered-Inv i info c v = elim (Option-cases (get_elem? c.references i)) [
  | inl missing ↦ rw (missing, answered) v
  | inr (r, e) ↦
      rw (e, answered)
        (elim (Bool-cases (is_pending r.promise)) [
          | inl waits ↦ rw waits (reuse-Inv i r info c e waits v)
          | inr settled ↦ rw settled v
        ])
]

unref_live :
    (i : ℕ) (r : Reference) (c : Cache)
    → get_elem? c.references i ≡ some r
    → r.disposed ≡ false
    → Inv c
    → (o : Option ℕ) → held r ≡ o
    → Inv
        (dispose_at o (record c { references = set c.references i (record r { disposed = true }) }))
unref_live i r c e live v none has =
    Inv-same c i r (record r { disposed = true }) e (λ a. ground arith)
      (Every-get_elem? (IsSound c.next) i c.references v.sound e) v
unref_live i r c e live v (some a) has = Inv-release c a i r e live has v

pub unref-Inv : (i : ℕ) (c : Cache) → Inv c → Inv (unref i c)
unfolding unref
unref-Inv i c v = elim (Option-cases (get_elem? c.references i)) [
  | inl missing ↦ rw (missing, unref) v
  | inr (r, e) ↦
      rw (e, unref)
        (elim (Bool-cases r.disposed) [
          | inl done ↦ rw done v
          | inr live ↦ rw live (unref_live i r c e live v (held r) refl)
        ])
]
