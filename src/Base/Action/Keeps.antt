-- ===== src/Base/Action/Keeps.antt =====
-- Invariants of actions, whether they return or throw, and actions that only read.
use mathlib.Core.Path.{◌≡◌, refl, ◌∙◌}
use mathlib.Core.Bool.{Bool, true, false}
use mathlib.Core.List.{List, [], ◌∷◌}
use freephite.Base.Tests.{if◌then◌else◌}
use freephite.Base.Action.{
  Error, Result, ok, err, Action, pure, raise, reads, raise_if, and_then, ◌>>=◌, for_each,
}

-- The state comes out as it went in.
pub record ReadOnly {S A : Type 0} (m : Action S A) : Type 0 where
  pub same : (s : S) → (m s).1 ≡ s

pub record Keeps {S A : Type 0} (P : S → Type 0) (m : Action S A) : Type 0 where
  pub kept : (s : S) → P s → P (m s).1

module _ {S A : Type 0} {P : S → Type 0} where
  pub Keeps-ReadOnly : (m : Action S A) → ReadOnly m → Keeps P m
  Keeps-ReadOnly m r = record { kept = λ s h. rw (r.same s) h }

  pub Keeps-pure : (a : A) → Keeps P (pure a)
  Keeps-pure a = record { kept = λ s h. h }

  pub Keeps-raise : (e : Error) → Keeps P (raise {A = A} e)
  Keeps-raise e = record { kept = λ s h. h }

  pub Keeps-reads : (f : S → Result A) → Keeps P (reads f)
  Keeps-reads f = record { kept = λ s h. h }

  pub Keeps-if :
      (b : Bool) (m n : Action S A) → Keeps P m → Keeps P n → Keeps P (if b then m else n)
  Keeps-if true m n km kn = km
  Keeps-if false m n km kn = kn

-- a case split on a Boolean that a read has returned
pub Keeps-cases :
    {S A : Type 0} {P : S → Type 0} (f : Bool → Action S A)
    → Keeps P (f true)
    → Keeps P (f false)
    → (b : Bool) → Keeps P (f b)
Keeps-cases f on_true on_false true = on_true
Keeps-cases f on_true on_false false = on_false

pub Keeps-raise_if :
    {S : Type 0} {P : S → Type 0} (b : Bool) (e : Error) → Keeps P (raise_if {S = S} b e)
Keeps-raise_if true e = Keeps-raise e
Keeps-raise_if false e = Keeps-pure tt

module _ {S A B : Type 0} (P : S → Type 0) where
  and_then-kept :
      (r : Result A) (f : A → Action S B) (s : S)
      → ((a : A) → r ≡ ok a → P (f a s).1)
      → P s
      → P (and_then r f s).1
  and_then-kept (ok a) f s k h = k a refl
  and_then-kept (err e) f s k h = h

  -- After a read the rest may use what was read, at the same state.
  pub bind_read-kept :
      (m : Action S A) (f : A → Action S B) (s : S)
      → ReadOnly m
      → ((a : A) → (m s).0 ≡ ok a → P (f a s).1)
      → P s
      → P ((m >>= f) s).1
  unfolding ◌>>=◌
  bind_read-kept m f s r k h =
      and_then-kept (m s).0 f (m s).1 (λ a e. rw (r.same s) (k a e)) (rw (r.same s) h)

module _ {S A B : Type 0} (Q P : S → Type 0) where
  -- A stronger fact `Q` may hold between the two parts.
  pub bind-kept :
      (m : Action S A) (f : A → Action S B) (s : S)
      → Q (m s).1
      → ((s' : S) → Q s' → P s')
      → ((a : A) (s' : S) → Q s' → P (f a s').1)
      → P ((m >>= f) s).1
  unfolding ◌>>=◌
  bind-kept m f s q weaken k =
      and_then-kept P (m s).0 f (m s).1 (λ a e. k a (m s).1 q) (weaken (m s).1 q)

pub Keeps-bind :
    {S A B : Type 0} {P : S → Type 0} (m : Action S A) (f : A → Action S B)
    → Keeps P m
    → ((a : A) → Keeps P (f a))
    → Keeps P (m >>= f)
unfolding ◌>>=◌
Keeps-bind {P} m f km kf = record {
  kept = λ s h.
      and_then-kept P (m s).0 f (m s).1 (λ a e. (kf a).kept (m s).1 (km.kept s h)) (km.kept s h);
}

module _ {S A B : Type 0} where
  pub ReadOnly-bind :
      (m : Action S A) (f : A → Action S B)
      → ReadOnly m
      → ((a : A) → ReadOnly (f a))
      → ReadOnly (m >>= f)
  ReadOnly-bind m f rm rf = record {
    same = λ s. bind_read-kept (λ s'. s' ≡ s) m f s rm (λ a e. (rf a).same s) refl;
  }

module _ {S A : Type 0} where
  pub ReadOnly-reads : (f : S → Result A) → ReadOnly (reads f)
  ReadOnly-reads f = record { same = λ s. refl }

  pub ReadOnly-pure : (a : A) → ReadOnly {S = S} (pure a)
  ReadOnly-pure a = record { same = λ s. refl }

  pub ReadOnly-raise : (e : Error) → ReadOnly {S = S} {A = A} (raise e)
  ReadOnly-raise e = record { same = λ s. refl }

  pub ReadOnly-if :
      (b : Bool) (m n : Action S A) → ReadOnly m → ReadOnly n → ReadOnly (if b then m else n)
  ReadOnly-if true m n rm rn = rm
  ReadOnly-if false m n rm rn = rn

module _ {S A : Type 0} {P : S → Type 0} where
  pub Keeps-for_each :
      (body : A → Action S (Unit {0})) (xs : List A)
      → ((x : A) → Keeps P (body x))
      → Keeps P (for_each body xs)
  unfolding for_each
  Keeps-for_each body [] k = Keeps-pure tt
  Keeps-for_each body (x ∷ xs) k =
      Keeps-bind (body x) (λ u. for_each body xs) (k x) (λ u. Keeps-for_each body xs k)

-- Inversion of a chain that returns.
module _ {S A B : Type 0} where
  and_then-ok :
      (r : Result A) (f : A → Action S B) (s : S) (b : B)
      → (and_then r f s).0 ≡ ok b
      → (a : A) × (r ≡ ok a)
  and_then-ok (ok a) f s b h = (a, refl)
  and_then-ok (err e) f s b h = cc

  pub bind-ok :
      (m : Action S A) (f : A → Action S B) (s : S) (b : B)
      → ((m >>= f) s).0 ≡ ok b
      → (a : A) × ((m s).0 ≡ ok a) × ((m >>= f) s ≡ f a (m s).1)
  unfolding ◌>>=◌
  bind-ok m f s b h =
      let (a, e) = and_then-ok (m s).0 f (m s).1 b h in (a, e, λ i. and_then (e i) f (m s).1)

  -- After a read the state is the one before.
  pub bind_read-ok :
      (m : Action S A) (f : A → Action S B) (s : S) (b : B)
      → ReadOnly m
      → ((m >>= f) s).0 ≡ ok b
      → (a : A) × ((m s).0 ≡ ok a) × ((m >>= f) s ≡ f a s)
  bind_read-ok m f s b r h =
      let (a, e, whole) = bind-ok m f s b h in (a, e, whole ∙ λ i. f a (r.same s i))

-- Chains that go on alike.
pub bind_ext :
    {S A B : Type 0} (m : Action S A) (f g : A → Action S B) (s : S)
    → ((a : A) (s' : S) → f a s' ≡ g a s')
    → (m >>= f) s ≡ (m >>= g) s
bind_ext m f g s h = λ i. (m >>= λ a s'. h a s' i) s
