-- ===== src/Base/Int.antt =====
-- Signed integers over the native numbers, and the conversion of a `size_t` to an `int`.
use Prim.Native.Nat.{ℕ, ◌-◌, ◌%◌, ◌^◌, ◌<◌}
use mathlib.Core.Path.{◌≡◌}
use native.Mathlib.Omega.{arith}
use nev.Base.Tests.{ltb, if◌then◌else◌}

-- `negsuc n` is -(n + 1).
pub data ℤ : Type 0 where
  pos : ℕ → ℤ
  negsuc : ℕ → ℤ

-- An `int` of 32 bits, from its bit pattern.
abbrev pub signed32 : ℕ → ℤ
signed32 w = if ltb w (2 ^ 31) then pos w else negsuc (2 ^ 32 - w - 1)

-- `static_cast<int>` of a `size_t`.
unfoldable pub int_of_size : ℕ → ℤ
int_of_size n = signed32 (n % 2 ^ 32)

-- The value is kept exactly when it fits into 31 bits.
pub int_of_size-exact : (n : ℕ) → n < 2 ^ 31 → int_of_size n ≡ pos n
unfolding int_of_size
int_of_size-exact n h = ground arith
