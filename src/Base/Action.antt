-- ===== src/Base/Action.antt =====
-- A call of a function that changes state and may throw. What was written before a throw stays
-- written, so the state comes back with the error too (lib/errors.ts names the errors).
pub mod Keeps
use Prim.Native.Nat.{ℕ}
use mathlib.Core.Bool.{Bool, true, false}
use mathlib.Core.Option.{Option, none, some}
use mathlib.Core.List.{List, [], ◌∷◌}

pub data Error : Type 0 where
  no_branch untracked_branch : ℕ → Error
  blocked_during_rebase detached bad_trunk_operation preconditions_failed exit_failed : Error
  rebase_conflict killed concurrent_execution no_continue : Error
  -- a git command that exits with an error
  command_failed : Error
  -- a read of a property of `undefined`, and a recursion deeper than the stack
  type_error stack_overflow : Error

pub data Result (A : Type 0) : Type 0 where
  ok : A → Result A
  err : Error → Result A

abbrev pub Action : Type 0 → Type 0 → Type 0
Action S A = S → Result A × S

module _ {S A : Type 0} where
  abbrev pub pure : A → Action S A
  pure a s = (ok a, s)

  abbrev pub raise : Error → Action S A
  raise e s = (err e, s)

  abbrev pub gets : (S → A) → Action S A
  gets f s = (ok (f s), s)

  -- a read that may throw
  abbrev pub reads : (S → Result A) → Action S A
  reads f s = (f s, s)

  abbrev pub or_raise : Option A → Error → Action S A
  or_raise none e = raise e
  or_raise (some a) e = pure a

abbrev pub modify : {S : Type 0} → (S → S) → Action S (Unit {0})
modify f s = (ok tt, f s)

abbrev pub raise_if : {S : Type 0} → Bool → Error → Action S (Unit {0})
raise_if true e = raise e
raise_if false e = pure tt

abbrev pub and_then : {S A B : Type 0} → Result A → (A → Action S B) → Action S B
and_then (ok a) f s = f a s
and_then (err e) f s = (err e, s)

infixl 5 ◌>>=◌ ◌>>◌
unfoldable pub ◌>>=◌ : {S A B : Type 0} → Action S A → (A → Action S B) → Action S B
◌>>=◌ m f s = let (r, s') = m s in and_then r f s'

abbrev pub ◌>>◌ : {S A B : Type 0} → Action S A → Action S B → Action S B
m >> k = m >>= λ _. k

-- `try { m } finally { f }`: an error of `f` wins, and otherwise the outcome is that of `m`.
unfoldable pub finally : {S A : Type 0} → Action S A → Action S (Unit {0}) → Action S A
unfolding ◌>>=◌
finally m f s = let (r, s') = m s in (f >> λ u. (r, u)) s'

-- `try { m } catch (e) { handler; throw e; }` where the handler's own errors are dropped
unfoldable pub on_error : {S A : Type 0} → Action S A → Action S (Unit {0}) → Action S A
on_error m handler s =
    let (r, s') = m s in elim r [ ok a ↦ (ok a, s') | err e ↦ (err e, (handler s').1) ]

-- a loop over a list that is not written to meanwhile
unfoldable pub for_each : {S A : Type 0} → (A → Action S (Unit {0})) → List A → Action S (Unit {0})
for_each body [] = pure tt
for_each body (x ∷ xs) = body x >> for_each body xs
