-- ===== src/Actions/Context.antt =====
-- What the actions share: the engine, and the continuation file that outlives an interrupted
-- command (apps/cli/src/actions/persist_continuation.ts,
-- apps/cli/src/lib/spiffy/continuation_spf.ts). What is printed is not modelled.
use freephite.Base.{Bool, Option, none, some, List, []}
use freephite.Base.Action.{Action, ok}
use freephite.Metadata.{Name, Sha}
use freephite.Engine.State.{Env, Engine}

-- `ContinueSchema`
pub record Continuation : Type 0 where
  pub branches_to_sync : Option (List Name)
  pub branches_to_restack : Option (List Name)
  pub current_branch_override : Option Name
  pub rebased_branch_base : Option Sha

pub record Context (W : Type 0) : Type 0 where
  pub engine : Engine W
  pub continuation : Continuation

-- The answer to a three-way prompt of `handleSameParent`.
pub data FetchChoice : Type 0 where
  choose_rebase choose_overwrite choose_abort : FetchChoice

-- The engine's environment, and the answers of the user to the prompts.
pub record ActionEnv (W : Type 0) : Type 0 where
  pub env : Env W
  pub interactive : Bool
  pub choose : List Name → W → Option Name
  pub confirm : W → Bool
  pub fetch_choice : W → FetchChoice
  pub add_all : Action W (Unit {0})
  pub detect_staged_changes : W → Bool

-- The prompts that a command may run more than once; a prompt that is cancelled throws.
pub record Prompts (W : Type 0) : Type 0 where
  pub confirm_deletion : Name → Action W Bool
  -- whether to go on with the submission in spite of a warning
  pub proceed : Action W Bool
  pub select_branch : List Name → Action W Name
  pub confirm_onboarding : Action W Bool

module _ {W : Type 0} where
  abbrev pub on_engine : {A : Type 0} → Action (Engine W) A → Action (Context W) A
  on_engine m s = let (r, e) = m s.engine in (r, record s { engine = e })

  abbrev pub engine_gets : {A : Type 0} → (Engine W → A) → Action (Context W) A
  engine_gets f s = (ok (f s.engine), s)

  -- `persistContinuation`; the lists come with their defaults put in
  unfoldable pub persist_continuation : List Name → List Name → Sha → Action (Context W) (Unit {0})
  persist_continuation to_restack to_sync base s = (
    ok tt,
    record s {
      continuation = record {
        branches_to_sync = some to_sync;
        branches_to_restack = some to_restack;
        current_branch_override = s.engine.current_branch;
        rebased_branch_base = some base;
      };
    },
  )

  unfoldable pub clear_continuation : Action (Context W) (Unit {0})
  clear_continuation s = (
    ok tt,
    record s {
      continuation = record {
        branches_to_sync = some [];
        branches_to_restack = some [];
        current_branch_override = none;
        rebased_branch_base = none;
      };
    },
  )
