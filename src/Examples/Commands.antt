-- ===== src/Examples/Commands.antt =====
-- Whole commands on the small repository: a session, a submission, a stack file, and a cleaning.
use freephite.Base.{
  ℕ, ◌+◌, ◌-◌, true, false, none, some, List, [], ◌∷◌, ◌≡◌, refl, arith, lookup, includes,
}
use freephite.Base.Action.{ok, Action, pure, ◌>>=◌}
use freephite.Base.Action.Keeps.{Keeps, Keeps-pure, Keeps-bind}
use freephite.Metadata.{Name, ValidMeta}
use freephite.Engine.State.{Engine}
use freephite.Actions.Context.{Prompts, Context}
use freephite.Actions.Submit.{Server}
use freephite.Actions.Track.{Sort, Sign, goes_behind}
use freephite.Actions.Downstack.{Editor}
use freephite.Actions.Clean.{Marked, unmarked_ancestor, delete_unblocked}
use freephite.Actions.Clean.Rounds.{Climbs, stop, climb, unmarked_ancestor-nearest}
use freephite.Actions.Clean.Deletes.{Deletes, delete_unblocked-Deletes}
use freephite.Actions.Links.{IsSound}
use freephite.Actions.Links.Tracking.{IsSort}
use freephite.Actions.Links.Session.{
  Command, track_command, track_stack_command, submit_command, checkout_command, run_commands,
  run_commands-IsSound,
}
use freephite.Examples.{Repo, small_action_env, stacked, untracked}

-- A prompt goes on and selects the first choice.
abbrev pub yes_man : Prompts Repo
yes_man = record {
  confirm_deletion = λ b. pure true;
  proceed = pure true;
  select_branch = λ names. pure (elim names [ [] ↦ 0 | b ∷ rest ↦ b ]);
  confirm_onboarding = pure false;
}

abbrev pub small_server : Server Repo
small_server = record { auth_token = some 1; get_pr_info_for_branches = λ asked. pure [] }

-- A branch's text is one character.
abbrev small_editor : Editor Repo
small_editor = record {
  spell = λ n. (200 + n) ∷ [];
  name_of = λ t. elim t [ [] ↦ 0 | c ∷ rest ↦ c - 200 ];
  exec_editor = pure;
}

abbrev insert_by :
    (Name → Name → Action (Engine Repo) Sign) → Name → List Name → Action (Engine Repo) (List Name)
insert_by cmp x [] = pure (x ∷ [])
insert_by cmp x (y ∷ ys) = do
  sign ← cmp x y
  rest ← insert_by cmp x ys
  pure (elim sign [ goes_behind ↦ y ∷ rest | _ ↦ x ∷ y ∷ ys ])

abbrev insertion_sort : Sort Repo
insertion_sort cmp [] = pure []
insertion_sort cmp (x ∷ xs) = do sorted ← insertion_sort cmp xs; insert_by cmp x sorted

insertion_sort-IsSort : IsSort insertion_sort
insertion_sort-IsSort P cmp names k = go names
  where
    inserts : (x : Name) (ys : List Name) → Keeps P (insert_by cmp x ys)
    inserts x [] = Keeps-pure _
    inserts x (y ∷ ys) =
        Keeps-bind _ _ (k x y) λ sign. Keeps-bind _ _ (inserts x ys) λ rest. Keeps-pure _

    go : (names : List Name) → Keeps P (insertion_sort cmp names)
    go [] = Keeps-pure _
    go (x ∷ xs) = Keeps-bind _ _ (go xs) (inserts x)

abbrev begun : Context Repo
begun = record {
  engine = untracked;
  continuation = record {
    branches_to_sync = none;
    branches_to_restack = none;
    current_branch_override = none;
    rebased_branch_base = none;
  };
}

begun-IsSound : IsSound begun
unfolding lookup
begun-IsSound = record { linked = λ c p m u e e'. absurd (ground arith) }

abbrev some_commands : List Command
some_commands =
    track_command (some 2) (some 1) false
    ∷ track_stack_command (some 4) true
    ∷ submit_command (2 ∷ [])
    ∷ checkout_command 3
    ∷ []

run_commands-IsSound_example : IsSound (
    run_commands
      (small_action_env [])
      yes_man
      small_server
      small_editor
      insertion_sort
      some_commands
      begun)
run_commands-IsSound_example =
    run_commands-IsSound (small_action_env []) yes_man small_server small_editor insertion_sort
      insertion_sort-IsSort some_commands begun begun-IsSound

-- Branches 2 and 3 go, branch 4 stays and moves to trunk.
abbrev two_marked : Marked
two_marked = (2, 3 ∷ []) ∷ (3, 4 ∷ []) ∷ []

abbrev pub valid_on : Name → ℕ → ℕ → ℕ → ValidMeta ℕ
valid_on p r b a = record {
  parent_branch_name = p;
  parent_branch_revision = r;
  branch_revision = b;
  children = a;
  pr_info = none;
}

Climbs-to_trunk : Climbs stacked two_marked 3 2 1
unfolding lookup
Climbs-to_trunk =
    climb (valid_on 2 15 30 3) refl refl (climb (valid_on 1 10 20 2) refl refl (stop refl))

unmarked_ancestor-nearest_example : unmarked_ancestor 5 two_marked 3 stacked ≡ (ok 1, stacked)
unmarked_ancestor-nearest_example =
    unmarked_ancestor-nearest stacked two_marked 3 1 2 5 Climbs-to_trunk (omega arith)

-- Nothing blocks branch 4 any more, and it alone blocks branch 3.
abbrev one_free : Marked
one_free = (3, 4 ∷ []) ∷ (4, []) ∷ []

abbrev start_clean : Context Repo
start_clean = record begun { engine = stacked }

delete_unblocked-Deletes_example :
    Deletes
      (small_action_env [])
      (4 ∷ [])
      one_free
      start_clean
      (delete_unblocked (small_action_env []) 2 (4 ∷ []) one_free start_clean)
unfolding lookup includes
delete_unblocked-Deletes_example =
    delete_unblocked-Deletes (small_action_env []) 2 (4 ∷ []) one_free start_clean (refl, refl, tt)
      (omega arith)
