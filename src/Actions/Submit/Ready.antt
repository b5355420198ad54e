-- ===== src/Actions/Submit/Ready.antt =====
-- Which branches may be submitted.
use freephite.Base.{true, false, some, List, [], ◌∷◌, ◌++◌, ◌≡◌, ◌||◌, includes, lookup}
use freephite.Metadata.{Name, Sha, CachedMeta, ValidMeta, widen, is_valid, is_trunk_meta}
use freephite.Engine.State.{Engine, Addr, is_trunk}
use freephite.Actions.Context.{ActionEnv}

module _ {W : Type 0} (env : ActionEnv W) where
  -- Whether a branch on `p` at the revision `r` may follow the branches that are validated: `p` is
  -- trunk, or `p` is one of them and the branch is restacked on it, or the remote has `p` as it is.
  pub data Stands (s : Engine W) (validated : List Name) (p : Name) (r : Sha) (mp : CachedMeta Addr)
      : Type 0 where
    on_trunk : is_trunk p s ≡ true → Stands s validated p r mp
    on_validated :
        is_trunk p s ≡ false
        → includes p validated ≡ true
        → r ≡ mp.branch_revision
        → Stands s validated p r mp
    on_remote :
        is_trunk p s ≡ false
        → includes p validated ≡ false
        → (is_valid mp.validation || is_trunk_meta mp.validation) ≡ true
        → env.env.git.get_remote_sha p s.repository ≡ some mp.branch_revision
        → Stands s validated p r mp

  pub record IsReady (s : Engine W) (validated : List Name) (b : Name) : Type 0 where
    pub meta : ValidMeta Addr
    pub parent : CachedMeta Addr
    pub found : lookup b s.branches ≡ some (widen meta)
    pub parent_found : lookup meta.parent_branch_name s.branches ≡ some parent
    pub stands : Stands s validated meta.parent_branch_name meta.parent_branch_revision parent

  -- Each of the branches is ready behind those before it.
  abbrev pub AllReady : Engine W → List Name → List Name → Type 0
  AllReady s validated [] = Unit {0}
  AllReady s validated (b ∷ rest) = IsReady s validated b × AllReady s (validated ++ b ∷ []) rest
