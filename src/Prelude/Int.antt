-- ===== src/Prelude/Int.antt =====
-- Signed integers over the native numbers.
use bucketvcs.Prelude.{ℕ, Bool, true, false}

pub data ℤ : Type 0 where
  pos : ℕ → ℤ
  negsuc : ℕ → ℤ

-- `n < 0`
unfoldable pub is_negative : ℤ → Bool
is_negative (pos n) = false
is_negative (negsuc n) = true
