-- ===== src/Base/Word.antt =====
-- Casts between 64-bit words and signed integers, written out with their wrap-around.
use Prim.Native.Nat.{ℕ, zero, suc, ◌+◌, ◌-◌, ◌*◌, ◌/◌, ◌%◌, ◌^◌}
use mathlib.Core.List.{List, [], ◌∷◌}
use l4rerust.Base.Tests.{ltb, if◌then◌else◌}
use l4rerust.Base.Int.{ℤ, pos, negsuc}

-- `x as u64`
abbrev pub as_u64 : ℤ → ℕ
as_u64 (pos n) = n % 2 ^ 64
as_u64 (negsuc n) = 2 ^ 64 - 1 - n % 2 ^ 64

-- `x as i64` and `x as isize`
abbrev pub as_i64 : ℕ → ℤ
as_i64 w = if ltb (w % 2 ^ 64) (2 ^ 63) then pos (w % 2 ^ 64) else negsuc (2 ^ 64 - 1 - w % 2 ^ 64)

-- `x as i32` and `x as c_int`: the low 32 bits
abbrev pub as_i32 : ℕ → ℤ
as_i32 w = if ltb (w % 2 ^ 32) (2 ^ 31) then pos (w % 2 ^ 32) else negsuc (2 ^ 32 - 1 - w % 2 ^ 32)

-- `x as u32` and `x as c_uint`
abbrev pub as_u32 : ℕ → ℕ
as_u32 w = w % 2 ^ 32

-- The value of the bytes of an integer in memory, the lowest first.
unfoldable pub from_le_bytes : List ℕ → ℕ
from_le_bytes [] = 0
from_le_bytes (b ∷ bs) = b % 256 + 256 * from_le_bytes bs

-- `x` as `n` bytes, the lowest first.
unfoldable pub to_le_bytes : ℕ → ℕ → List ℕ
to_le_bytes zero x = []
to_le_bytes (suc n) x = x % 256 ∷ to_le_bytes n (x / 256)
