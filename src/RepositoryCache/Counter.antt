-- ===== src/RepositoryCache/Counter.antt =====
-- A JavaScript number that counts up and down, for apps/gti-server/src/RepositoryCache.ts.
use freephite.Base.{ℕ, zero, suc, Bool, true, false}

-- `negsuc n` is -(n + 1).
pub data ℤ : Type 0 where
  pos : ℕ → ℤ
  negsuc : ℕ → ℤ

unfoldable pub increment : ℤ → ℤ
increment (pos n) = pos (suc n)
increment (negsuc zero) = pos 0
increment (negsuc (suc n)) = negsuc n

unfoldable pub decrement : ℤ → ℤ
decrement (pos zero) = negsuc 0
decrement (pos (suc n)) = pos n
decrement (negsuc n) = negsuc (suc n)

unfoldable pub is_zero : ℤ → Bool
is_zero (pos zero) = true
is_zero (pos (suc n)) = false
is_zero (negsuc n) = false

infixl 65 ◌+ℤ◌
unfoldable pub ◌+ℤ◌ : ℤ → ℤ → ℤ
unfolding increment decrement
pos zero +ℤ z = z
pos (suc n) +ℤ z = increment (pos n +ℤ z)
negsuc zero +ℤ z = decrement z
negsuc (suc n) +ℤ z = decrement (negsuc n +ℤ z)
