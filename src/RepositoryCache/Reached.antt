-- ===== src/RepositoryCache/Reached.antt =====
-- What holds after any calls of apps/gti-server/src/RepositoryCache.ts.
use freephite.Base.{ℕ, ◌<◌, Bool, false, not, List, [], ◌∷◌, ◌≡◌, refl, ◌∙◌, ◌||◌, arith, ◌==◌, ap}
use freephite.Text.{Text}
use freephite.RepositoryCache.{
  Cache, Reference, get_or_create, RepoInfo, answered, unref, new_cache,
}
use freephite.RepositoryCache.Counting.{one_if, holds, count}
use freephite.RepositoryCache.Counted.{Inv}
use freephite.RepositoryCache.Kept.{get_or_create-Inv, answered-Inv, unref-Inv}

-- A call of the cache or of a reference, or an answer of `getRepoInfo`.
pub data Event : Type 0 where
  creates : Text → Event
  answers : ℕ → RepoInfo → Event
  unrefs : ℕ → Event

unfoldable pub handle : Event → Cache → Cache
unfolding get_or_create answered unref
handle (creates cwd) = get_or_create cwd
handle (answers i info) = answered i info
handle (unrefs i) = unref i

unfoldable pub handle_all : List Event → Cache → Cache
unfolding handle
handle_all [] c = c
handle_all (e ∷ es) c = handle_all es (handle e c)

pub handle_all-Inv : (es : List Event) (c : Cache) → Inv c → Inv (handle_all es c)
unfolding handle_all
handle_all-Inv [] c v = v
handle_all-Inv (creates cwd ∷ es) c v = handle_all-Inv es _ (get_or_create-Inv cwd c v)
handle_all-Inv (answers i info ∷ es) c v = handle_all-Inv es _ (answered-Inv i info c v)
handle_all-Inv (unrefs i ∷ es) c v = handle_all-Inv es _ (unref-Inv i c v)

pub new_cache-Inv : Inv new_cache
new_cache-Inv = record { sound = tt; counts = λ a lt. absurd (omega arith); listed = tt }

-- Some live reference disposes of the object at `a`.
unfoldable pub is_held : ℕ → List Reference → Bool
is_held a [] = false
is_held a (r ∷ rs) = holds a r || is_held a rs

count-is_held : (a : ℕ) (rs : List Reference) → (count a rs == 0) ≡ not (is_held a rs)
unfolding count is_held
count-is_held a [] = refl
count-is_held a (r ∷ rs) = ground (arith, count-is_held a rs)

-- After any sequence of calls of `getOrCreate` and `unref` and of answers of `getRepoInfo`, from an
-- empty cache: a repository has been disposed of if no live reference holds it, then exactly once,
-- and otherwise not at all.
pub handle_all-is_disposed :
    (es : List Event) (a : ℕ)
    → a < (handle_all es new_cache).next
    → ((((handle_all es new_cache).heap a).is_disposed
          ≡ not (is_held a (handle_all es new_cache).references))
        × (((handle_all es new_cache).heap a).disposals
            ≡ one_if (not (is_held a (handle_all es new_cache).references))))
handle_all-is_disposed es a lt =
    let c = handle_all es new_cache in
    let h = (handle_all-Inv es new_cache new_cache-Inv).counts a lt in
    let e : (c.heap a).is_disposed ≡ not (is_held a c.references) =
      h.1 ∙ count-is_held a c.references in
    (e, h.2 ∙ ap one_if e)
