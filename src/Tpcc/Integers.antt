-- ===== src/Tpcc/Integers.antt =====
-- Machine integers as their bits: a signed integer is its two's complement.
use remora.Prelude.{ℕ, ◌+◌, ◌-◌, ◌^◌, ◌%◌, Bool, leb}

unfoldable pub add32 : ℕ → ℕ → ℕ
add32 a b = (a + b) % 2 ^ 32

unfoldable pub sub32 : ℕ → ℕ → ℕ
sub32 a b = (a + 2 ^ 32 - b) % 2 ^ 32

unfoldable pub add64 : ℕ → ℕ → ℕ
add64 a b = (a + b) % 2 ^ 64

unfoldable pub sub64 : ℕ → ℕ → ℕ
sub64 a b = (a + 2 ^ 64 - b) % 2 ^ 64

-- a >= b on i32
unfoldable pub ge_i32 : ℕ → ℕ → Bool
ge_i32 a b = leb ((b + 2 ^ 31) % 2 ^ 32) ((a + 2 ^ 31) % 2 ^ 32)
