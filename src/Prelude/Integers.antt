-- ===== src/Prelude/Integers.antt =====
-- Integers over the native numbers, and the bounds of a signed 64-bit integer.
use Prim.Native.Nat.{ℕ, ◌<◌}

-- `negsuc n` is `-(n + 1)`.
pub data ℤ : Type 0 where
  pos negsuc : ℕ → ℤ

-- The values of `i64`.
abbrev pub IsI64 : ℤ → Type 0
IsI64 (pos n) = n < 9223372036854775808
IsI64 (negsuc n) = n < 9223372036854775808
