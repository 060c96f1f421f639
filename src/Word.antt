-- ===== src/Word.antt =====
-- C's 32-bit words as native numbers: what the register code does with `|`, `&`, `~`, `<<`, `>>`.
pub mod Digits
pub mod Testbit
pub mod Field
pub mod Bit
pub mod Pack
pub mod Mask
use bsp_v3s.Common.{ℕ, zero, suc, ◌+◌, ◌-◌, ◌*◌, ◌/◌, ◌%◌, ◌^◌, bit_and, bit_or, Bool, ◌==◌}

abbrev pub u8 : ℕ → ℕ
u8 n = n % 2 ^ 8

abbrev pub u32 : ℕ → ℕ
u32 n = n % 2 ^ 32

-- `x << k` and `x >> k` on an unsigned 32-bit word.
abbrev pub shl32 : ℕ → ℕ → ℕ
shl32 x k = x * 2 ^ k % 2 ^ 32

abbrev pub shr : ℕ → ℕ → ℕ
shr x k = x / 2 ^ k

-- `~x` on an unsigned 32-bit word.
abbrev pub not32 : ℕ → ℕ
not32 x = 2 ^ 32 - 1 - x

-- `a - b` on an unsigned 32-bit word; `-` on ℕ stops at 0, so the modulus is added first.
abbrev pub sub32 : ℕ → ℕ → ℕ
sub32 a b = (a + 2 ^ 32 - b) % 2 ^ 32

-- `(x & ~clear) | set`, the value that clrsetbits_le32 writes back.
abbrev pub clrset : ℕ → ℕ → ℕ → ℕ
clrset x clear set = bit_or (bit_and x (not32 clear)) set

-- Digit `i` of the binary form.
unfoldable pub testbit : ℕ → ℕ → Bool
testbit x zero = x % 2 == 1
testbit x (suc i) = testbit (x / 2) i
