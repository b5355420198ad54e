-- ===== src/Examples/Session.antt =====
-- A session on the small repository.
use freephite.Base.{arith, lookup, List, [], ◌∷◌}
use freephite.Metadata.{empty_pr_info}
use freephite.Engine.Links.{IsLinked}
use freephite.Engine.Links.Session.{
  Call, set_parent_call, track_call, untrack_call, restack_call, run_calls, run_calls-IsLinked,
  upsert_pr_call,
}
use freephite.Examples.{small_env, untracked}

abbrev calls : List Call
calls =
    track_call 2 1
    ∷ track_call 3 2
    ∷ set_parent_call 3 1
    ∷ restack_call 3
    ∷ upsert_pr_call 3 empty_pr_info
    ∷ untrack_call 2
    ∷ []

untracked-IsLinked : IsLinked untracked
unfolding lookup
untracked-IsLinked = record { linked = λ c p m u e e'. absurd (ground arith) }

run_calls-IsLinked_example : IsLinked (run_calls (small_env []) calls untracked)
run_calls-IsLinked_example = run_calls-IsLinked (small_env []) calls untracked untracked-IsLinked
