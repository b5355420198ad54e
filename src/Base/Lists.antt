-- ===== src/Base/Lists.antt =====
-- Lists of names as JavaScript arrays: `length`, indexing, `includes` and removal by `splice`.
use Prim.Native.Nat.{ℕ, zero, suc, ◌+◌}
use mathlib.Core.Path.{◌≡◌, refl}
use mathlib.Core.Logic.{◌≢◌}
use mathlib.Core.Bool.{Bool, false, ◌||◌}
use mathlib.Core.Option.{Option, none, some}
use mathlib.Core.List.{List, [], ◌∷◌, ◌++◌}
use native.Mathlib.Omega.{arith}
use freephite.Base.Tests.{◌==◌, if◌then◌else◌}

module _ {ℓ} {A : Type ℓ} where
  abbrev pub length : List A → ℕ
  length [] = 0
  length (x ∷ xs) = suc (length xs)

  abbrev pub get_elem? : List A → ℕ → Option A
  get_elem? [] i = none
  get_elem? (x ∷ xs) zero = some x
  get_elem? (x ∷ xs) (suc i) = get_elem? xs i

  pub length-append : (xs ys : List A) → length (xs ++ ys) ≡ length xs + length ys
  length-append [] ys = omega arith
  length-append (x ∷ xs) ys = omega (arith, length-append xs ys)

  abbrev pub filter : (A → Bool) → List A → List A
  filter p [] = []
  filter p (x ∷ xs) = let rest = filter p xs in if p x then x ∷ rest else rest

-- `xs.includes(x)`
unfoldable pub includes : ℕ → List ℕ → Bool
includes x [] = false
includes x (y ∷ ys) = (x == y) || includes x ys

-- `xs.splice(xs.indexOf(x), 1)`, where `x` is there
unfoldable pub splice : ℕ → List ℕ → List ℕ
splice x [] = []
splice x (y ∷ ys) = if x == y then ys else y ∷ splice x ys

pub includes-push :
    (x y : ℕ) (xs : List ℕ) → includes x (xs ++ y ∷ []) ≡ ((x == y) || includes x xs)
unfolding includes
includes-push x y [] = refl
includes-push x y (z ∷ xs) = ground (arith, includes-push x y xs)

pub includes-splice_ne : (x y : ℕ) (xs : List ℕ) → x ≢ y → includes x (splice y xs) ≡ includes x xs
unfolding includes splice
includes-splice_ne x y [] h = refl
includes-splice_ne x y (z ∷ xs) h = ground (arith, includes-splice_ne x y xs h)
