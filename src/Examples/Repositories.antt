-- ===== src/Examples/Repositories.antt =====
-- A repository that two clients of apps/gti-server/src/RepositoryCache.ts share, one of which gives
-- it up.
use freephite.Base.{not, List, [], ◌∷◌, ◌≡◌, refl, arith}
use freephite.Text.{codes}
use freephite.RepositoryCache.{
  new_cache, success, lookup, same_path, starts_with, ensure_trailing_path_sep, ref, dispose,
  set_repo, increment, decrement, is_zero,
}
use freephite.RepositoryCache.Counting.{one_if}
use freephite.RepositoryCache.Reached.{
  Event, creates, answers, unrefs, handle_all, is_held, handle_all-is_disposed,
}

-- The first client asks from a folder of the repository, the second from its root.
abbrev shared : List Event
shared =
    creates (codes "/r/src")
    ∷ answers 0 (success (codes "/r"))
    ∷ creates (codes "/r")
    ∷ unrefs 0
    ∷ []

shared_next : (handle_all shared new_cache).next ≡ 1
unfolding handle_all lookup set_repo same_path starts_with ensure_trailing_path_sep ref dispose
    increment decrement is_zero
shared_next = refl

handle_all-is_disposed_example :
    ((((handle_all shared new_cache).heap 0).is_disposed
        ≡ not (is_held 0 (handle_all shared new_cache).references))
      × (((handle_all shared new_cache).heap 0).disposals
          ≡ one_if (not (is_held 0 (handle_all shared new_cache).references))))
handle_all-is_disposed_example = handle_all-is_disposed shared 0 (omega (arith, shared_next))
