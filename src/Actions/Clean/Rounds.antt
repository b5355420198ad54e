-- ===== src/Actions/Clean/Rounds.antt =====
-- How many rounds the loops of the cleaning take.
use freephite.Base.{ℕ, zero, suc, ◌<◌, true, false, some, ◌≡◌, refl, arith, lookup}
use freephite.Base.Action.{ok, ◌>>=◌}
use freephite.Metadata.{Name, ValidMeta, widen}
use freephite.Engine.State.{Engine, Addr, valid_meta}
use freephite.Engine.Queries.{get_parent_precondition}
use freephite.Actions.Clean.{Marked, is_marked, unmarked_ancestor}

-- The branches from `p` down to `q`, which is the first that is not marked, and how many are.
pub data Climbs {W : Type 0} (s : Engine W) (marked : Marked) : Name → ℕ → Name → Type 0 where
  stop : {q : Name} → is_marked q marked ≡ false → Climbs s marked q 0 q
  climb :
      {p q : Name} {n : ℕ} (m : ValidMeta Addr)
      → is_marked p marked ≡ true
      → lookup p s.branches ≡ some (widen m)
      → Climbs s marked m.parent_branch_name n q
      → Climbs s marked p (suc n) q

-- With more rounds than marked branches stand one above the other, the search for an ancestor that
-- is not marked returns the first one and changes nothing.
pub unmarked_ancestor-nearest :
    {W : Type 0} (s : Engine W) (marked : Marked) (p q : Name) (n rounds : ℕ)
    → Climbs s marked p n q
    → n < rounds
    → unmarked_ancestor rounds marked p s ≡ (ok q, s)
unfolding unmarked_ancestor get_parent_precondition valid_meta ◌>>=◌
unmarked_ancestor-nearest s marked p q n zero c few = absurd (omega arith)
unmarked_ancestor-nearest s marked p q n (suc rounds) (stop e) few = rw (e, unmarked_ancestor) refl
unmarked_ancestor-nearest s marked p q (suc n) (suc rounds) (climb m e found c) few = ground (
  arith,
  unmarked_ancestor-nearest s marked m.parent_branch_name q n rounds c (omega (arith, few)),
)
