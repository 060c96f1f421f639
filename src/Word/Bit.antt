-- ===== src/Word/Bit.antt =====
-- One bit of a 32-bit word: set, cleared, tested.
use bsp_v3s.Common.{
  ℕ, zero, suc, ◌-◌, ◌<◌, ◌==◌, bit_and, bit_or, ◌≡◌, refl, ◌&&◌, ◌||◌, not, arith,
}
use bsp_v3s.Word.{testbit, not32, shl32}
use bsp_v3s.Word.Testbit.{testbit-bit_and, testbit-bit_or, testbit-not32, zero-testbit}
use bsp_v3s.Word.Field.{testbit-shl32}

one-testbit : (i : ℕ) → testbit 1 i ≡ (i == 0)
unfolding testbit
one-testbit zero = refl
one-testbit (suc i) = ground (arith, zero-testbit i)

-- `1 << k`
pub testbit-bit : (k j : ℕ) → j < 32 → testbit (shl32 1 k) j ≡ (j == k)
testbit-bit k j h = ground (arith, testbit-shl32 1 k j h, one-testbit (j - k))

pub testbit-set_bit :
    (x k j : ℕ) → j < 32 → testbit (bit_or x (shl32 1 k)) j ≡ (testbit x j || j == k)
testbit-set_bit x k j h = rw (testbit-bit_or, testbit-bit k j h)

pub testbit-clear_bit :
    (x k j : ℕ) → j < 32 → testbit (bit_and x (not32 (shl32 1 k))) j ≡ (testbit x j && not (j == k))
testbit-clear_bit x k j h =
    rw (testbit-bit_and, testbit-not32 (shl32 1 k) j (omega arith) h, testbit-bit k j h)
