-- ===== src/Prelude/Ints.antt =====
-- Signed integers over the native numbers, and Rust's conversion to `i32`.
use Prim.Native.Nat.{ℕ, ◌-◌, ◌^◌, ◌%◌}
use xdg_desktop_portal_aegis.Prelude.Tests.{ltb, if◌then◌else◌}

pub data ℤ : Type 0 where
  pos : ℕ → ℤ
  negsuc : ℕ → ℤ

-- `as i32`, of an unsigned number: the low 32 bits in two's complement.
unfoldable pub as_i32 : ℕ → ℤ
as_i32 n = let low = n % 2 ^ 32 in if ltb low (2 ^ 31) then pos low else negsuc (2 ^ 32 - 1 - low)
