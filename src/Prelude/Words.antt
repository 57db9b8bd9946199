-- ===== src/Prelude/Words.antt =====
-- 32-bit unsigned integers, `uint32_t`: numbers below 2 ^ 32, with the wrap-around written out.
use Prim.Native.Nat.{ℕ, ◌+◌, ◌-◌, ◌%◌, ◌<◌}
use mathlib.Core.Path.{◌≡◌}
use native.Mathlib.Omega.{arith}

abbrev pub u32_mod : ℕ
u32_mod = 4294967296

-- What a function of type `uint32_t` returns by `return -1`.
abbrev pub minus_one : ℕ
minus_one = 4294967295

abbrev pub add32 : ℕ → ℕ → ℕ
add32 a b = (a + b) % u32_mod

abbrev pub sub32 : ℕ → ℕ → ℕ
sub32 a b = (a + u32_mod - b) % u32_mod

pub add32-sub32 : (a b : ℕ) → a < u32_mod → b < u32_mod → add32 (sub32 a b) b ≡ a
add32-sub32 a b p q = omega arith
