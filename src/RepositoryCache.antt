-- ===== src/RepositoryCache.antt =====
-- apps/gti-server/src/RepositoryCache.ts: repositories that several clients share, each counting its
-- references and disposed of with the last one.
--
-- The counted repositories are objects at addresses; an address stands for a `RefCounted` and the
-- repository in it. A reference stands at its place among all that were handed out. `getRepoInfo`
-- is awaited: its answer is an event of its own, and between two events the code is not interrupted.
mod Path
mod Counter
pub mod Counting
pub mod Counted
mod Kept
pub mod Reached
-- pub mod Active
use freephite.Base.{
  ℕ, zero, suc, ◌+◌, Bool, true, false, not, ◌&&◌, ◌||◌, Option, none, some, List, [], ◌∷◌, ◌++◌,
  ◌==◌, if◌then◌else◌, get_elem?,
}
use freephite.Text.{Text}
unfoldable pub use Path.{same_path, starts_with, ensure_trailing_path_sep}
unfoldable pub use Counter.{increment, decrement, is_zero, ◌+ℤ◌}
pub use Counter.{ℤ, pos, negsuc}

-- `RefCounted`, with the root of its repository; `disposals` counts the calls of its `dispose`.
pub record RefCounted : Type 0 where
  pub repo_root : Text
  pub references : ℤ
  pub is_disposed : Bool
  pub disposals : ℕ

-- The repository, or the error, that a reference promises; `pending` before `getRepoInfo` answers.
pub data Promised : Type 0 where
  pending repository_disposed : Promised
  repository : ℕ → Promised
  repository_error : ℕ → Promised

-- The function a reference was made with: it disposes of the repository that was found at once,
-- or of the one in `internal_reference`.
pub data DisposeFunc : Type 0 where
  of_found : ℕ → DisposeFunc
  of_internal : DisposeFunc

-- `RepositoryReferenceImpl`
pub record Reference : Type 0 where
  pub promise : Promised
  pub dispose_func : DisposeFunc
  pub internal_reference : Option ℕ
  pub disposed : Bool

-- `heap` holds the objects below `next`; `changes` counts the events that were emitted.
pub record Cache : Type 0 where
  pub heap : ℕ → RefCounted
  pub next : ℕ
  pub repos_by_root : List (Text × ℕ)
  pub references : List Reference
  pub changes : ℕ

abbrev pub new_ref_counted : Text → RefCounted
new_ref_counted root = record {
  repo_root = root;
  references = pos 0;
  is_disposed = false;
  disposals = 0;
}

abbrev pub new_cache : Cache
new_cache = record {
  heap = λ a. new_ref_counted [];
  next = 0;
  repos_by_root = [];
  references = [];
  changes = 0;
}

abbrev pub update : (ℕ → RefCounted) → ℕ → RefCounted → ℕ → RefCounted
update heap a v b = if a == b then v else heap b

-- `RefCounted.ref`
unfoldable pub ref : RefCounted → RefCounted
ref v = record v { references = increment v.references }

-- `RefCounted.dispose`
unfoldable pub dispose : RefCounted → RefCounted
dispose value =
    let v = record value { references = decrement value.references } in
    if v.is_disposed
    then v
    else if is_zero v.references
    then record v { is_disposed = true; disposals = v.disposals + 1 }
    else v

abbrev pub at : ℕ → (RefCounted → RefCounted) → Cache → Cache
at a f c = record c { heap = update c.heap a (f (c.heap a)) }

-- A repository that contains the path and is in use.
abbrev pub matches : Text → RefCounted → Bool
matches dir_guess v =
    (same_path dir_guess v.repo_root
      || starts_with dir_guess (ensure_trailing_path_sep v.repo_root))
    && not v.is_disposed

unfoldable pub lookup : Text → (ℕ → RefCounted) → List (Text × ℕ) → Option ℕ
lookup dir_guess heap [] = none
lookup dir_guess heap ((root, a) ∷ repos) =
    let rest = lookup dir_guess heap repos in if matches dir_guess (heap a) then some a else rest

-- `reposByRoot.set(root, a)`
unfoldable pub set_repo : Text → ℕ → List (Text × ℕ) → List (Text × ℕ)
set_repo root a [] = (root, a) ∷ []
set_repo root a ((r, b) ∷ repos) =
    if same_path r root then (r, a) ∷ repos else (r, b) ∷ set_repo root a repos

-- A write past the end changes nothing.
abbrev pub set : List Reference → ℕ → Reference → List Reference
set [] i r = []
set (x ∷ xs) zero r = r ∷ xs
set (x ∷ xs) (suc i) r = x ∷ set xs i r

-- `new RepositoryReferenceImpl(…)`, on the fast path and otherwise
abbrev pub found_reference : ℕ → Reference
found_reference a = record {
  promise = repository a;
  dispose_func = of_found a;
  internal_reference = none;
  disposed = false;
}

abbrev pub pending_reference : Reference
pending_reference = record {
  promise = pending;
  dispose_func = of_internal;
  internal_reference = none;
  disposed = false;
}

-- `getOrCreate`, up to the await where nothing is found at once
unfoldable pub get_or_create : Text → Cache → Cache
get_or_create cwd c = elim (lookup cwd c.heap c.repos_by_root) [
  | some a ↦ record (at a ref c) { references = c.references ++ found_reference a ∷ [] }
  | none ↦ record c { references = c.references ++ pending_reference ∷ [] }
]

-- The answer of `getRepoInfo`: the root of the repository, or an error.
pub data RepoInfo : Type 0 where
  success : Text → RepoInfo
  failure : ℕ → RepoInfo

-- The reference `i` gets the counted repository `a`.
abbrev pub settle_with : ℕ → Reference → ℕ → Cache → Cache
settle_with i r a c = record c {
  references =
      set c.references i (record r { promise = repository a; internal_reference = some a });
}

abbrev pub settle_without : ℕ → Reference → Promised → Cache → Cache
settle_without i r p c = record c { references = set c.references i (record r { promise = p }) }

-- `new RefCounted(new RepositoryType(…))`, `ref` and `reposByRoot.set`
abbrev pub add_repository : Text → Cache → Cache
add_repository root c = record c {
  heap = update c.heap c.next (ref (new_ref_counted root));
  next = c.next + 1;
  repos_by_root = set_repo root c.next c.repos_by_root;
  changes = c.changes + 1;
}

-- what follows the await of `getRepoInfo`, in the closure of the reference `r` at `i`
unfoldable pub reuse_if_possible : ℕ → Reference → RepoInfo → Cache → Cache
reuse_if_possible i r (failure error) c = settle_without i r (repository_error error) c
reuse_if_possible i r (success root) c =
    if r.disposed
    then settle_without i r repository_disposed c
    else elim (lookup root c.heap c.repos_by_root) [
      | some a ↦ settle_with i r a (at a ref c)
      | none ↦ settle_with i r c.next (add_repository root c)
    ]

-- `getRepoInfo` answers once.
abbrev pub is_pending : Promised → Bool
is_pending pending = true
is_pending p = false

unfoldable pub answered : ℕ → RepoInfo → Cache → Cache
unfolding reuse_if_possible
answered i info c = elim (get_elem? c.references i) [
  | none ↦ c
  | some r ↦ if is_pending r.promise then reuse_if_possible i r info c else c
]

-- The object that the dispose function of a reference disposes of.
abbrev pub held_by : DisposeFunc → Option ℕ → Option ℕ
held_by (of_found a) internal = some a
held_by of_internal internal = internal

abbrev pub dispose_at : Option ℕ → Cache → Cache
dispose_at none c = c
dispose_at (some a) c = at a dispose c

-- `unref`; the dispose function of a reference calls it once more, which does nothing, as `disposed`
-- is set by then.
unfoldable pub unref : ℕ → Cache → Cache
unref i c = elim (get_elem? c.references i) [
  | none ↦ c
  | some r ↦
      if r.disposed
      then c
      else dispose_at (held_by r.dispose_func r.internal_reference)
          (record c { references = set c.references i (record r { disposed = true }) })
]

-- `cachedRepositoryForPath`
unfoldable pub cached_repository_for_path : Text → Cache → Option ℕ
cached_repository_for_path path c = lookup path c.heap c.repos_by_root

-- `this.reposByRoot.forEach((value) => value.dispose())`
unfoldable pub dispose_all : List (Text × ℕ) → Cache → Cache
dispose_all [] c = c
dispose_all ((root, a) ∷ repos) c = dispose_all repos (at a dispose c)

unfoldable pub clear_cache : Cache → Cache
unfolding dispose_all
clear_cache c = record (dispose_all c.repos_by_root c) { repos_by_root = [] }

-- `numberOfActiveServers`
unfoldable pub number_of_active_servers : (ℕ → RefCounted) → List (Text × ℕ) → ℤ
number_of_active_servers heap [] = pos 0
number_of_active_servers heap ((root, a) ∷ repos) =
    (heap a).references +ℤ number_of_active_servers heap repos
