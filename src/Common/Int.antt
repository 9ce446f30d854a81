-- ===== src/Common/Int.antt =====
-- Signed integers over the native numbers. `negsuc n` is -(n + 1).
use Prim.Native.Nat.{ℕ, zero, suc}

pub data ℤ : Type 0 where
  pos : ℕ → ℤ
  negsuc : ℕ → ℤ

-- One more, and one less.
unfoldable pub sucℤ : ℤ → ℤ
sucℤ (pos n) = pos (suc n)
sucℤ (negsuc zero) = pos 0
sucℤ (negsuc (suc n)) = negsuc n

unfoldable pub predℤ : ℤ → ℤ
predℤ (pos zero) = negsuc 0
predℤ (pos (suc n)) = pos n
predℤ (negsuc n) = negsuc (suc n)
