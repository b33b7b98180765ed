-- ===== src/Base/Words.antt =====
-- Machine words as native numbers: the wrap-around of `uint8_t`, `uint16_t` and `uint32_t`.
use Prim.Native.Nat.{ℕ, ◌+◌, ◌-◌, ◌%◌, ◌<◌}
use mathlib.Core.Path.{◌≡◌}
use native.Mathlib.Omega.{arith}

abbrev pub u8 : ℕ → ℕ
u8 n = n % 256

abbrev pub u16 : ℕ → ℕ
u16 n = n % 65536

abbrev pub u32_mod : ℕ
u32_mod = 4294967296

abbrev pub u32 : ℕ → ℕ
u32 n = n % u32_mod

-- `a - b` on `uint32_t` operands.
abbrev pub sub32 : ℕ → ℕ → ℕ
sub32 a b = (a + u32_mod - b) % u32_mod

-- A timestamp difference survives the wrap of the clock: `h` and `d` are unbounded counts of
-- milliseconds, and the device sees both instants modulo 2^32.
pub sub32-elapsed : (h d : ℕ) → d < u32_mod → sub32 (u32 (h + d)) (u32 h) ≡ d
sub32-elapsed h d l = omega arith
