-- ===== src/Word/Mask.antt =====
-- Fields that are taken out and put in with a mask in place: `(x & mask) >> off` and
-- `x << off & mask`.
use native.Mathlib.Nat.{one-le-pow, div-le_self, pow-le-pow_right}
use bsp_v3s.Common.{
  ℕ, ◌+◌, ◌-◌, ◌/◌, ◌^◌, ◌≤◌, ◌<◌, bit_and, ltb, ◌≡◌, refl, ◌&&◌, arith, ap, dec_lt,
}
use bsp_v3s.Word.{testbit, shl32, shr}
use bsp_v3s.Word.Testbit.{
  testbit-bit_and, testbit-shr, testbit-low_mask, testbit_ext, testbit_of_lt, bit_and_lt_right,
  bit_and_lt_left,
}
use bsp_v3s.Word.Field.{field, field_lt, testbit-shl32}

pub bit_and-shl32_mask :
    (v off w : ℕ)
    → v < 2 ^ w
    → off + w ≤ 32
    → bit_and (shl32 v off) (shl32 (2 ^ w - 1) off) ≡ shl32 v off
bit_and-shl32_mask v off w hv hw =
    testbit_ext 32 _ _ (bit_and_lt_left 32 (shl32 v off) _ (omega arith)) (omega arith) λ i h.
      ground (
        arith,
        testbit-bit_and (shl32 v off) (shl32 (2 ^ w - 1) off) i,
        testbit-shl32 v off i h,
        testbit-shl32 (2 ^ w - 1) off i h,
        testbit-low_mask w (i - off),
        testbit_of_lt w v (i - off) hv,
      )

shr_lt : (a k : ℕ) → a < 2 ^ 32 → shr a k < 2 ^ 32
shr_lt a k h = omega (arith, one-le-pow k 2, div-le_self a (2 ^ k))

-- Digit `i` of the field of `w` bits.
testbit-field_any : (x off w i : ℕ) → testbit (field x off w) i ≡ (ltb i w && testbit x (off + i))
testbit-field_any x off w i =
    ground (
      arith,
      testbit-bit_and (x / 2 ^ off) (2 ^ w - 1) i,
      testbit-shr off x i,
      testbit-low_mask w i,
    )

testbit-masked :
    (x off w i : ℕ)
    → off + w ≤ 32
    → testbit (bit_and x (shl32 (2 ^ w - 1) off)) (off + i) ≡ (ltb i w && testbit x (off + i))
testbit-masked x off w i hw = elim (dec_lt (off + i) 32) [
  | yes h ↦ ground (
    arith,
    testbit-bit_and x (shl32 (2 ^ w - 1) off) (off + i),
    testbit-shl32 (2 ^ w - 1) off (off + i) h,
    back,
    testbit-low_mask w i,
  )
  | no h ↦ ground (
    arith,
    testbit_of_lt 32 (bit_and x (shl32 (2 ^ w - 1) off)) (off + i)
        (bit_and_lt_right 32 x (shl32 (2 ^ w - 1) off) (omega arith)),
  )
]
  where
    back : testbit (2 ^ w - 1) (off + i - off) ≡ testbit (2 ^ w - 1) i
    back = ap (testbit (2 ^ w - 1)) (omega arith)

pub shr-bit_and_mask :
    (x off w : ℕ) → off + w ≤ 32 → shr (bit_and x (shl32 (2 ^ w - 1) off)) off ≡ field x off w
shr-bit_and_mask x off w hw =
    testbit_ext 32 _ _ (shr_lt _ off (bit_and_lt_right 32 x (shl32 (2 ^ w - 1) off) (omega arith)))
      (omega (
        arith,
        field_lt x off w,
        pow-le-pow_right {n = 2} (omega arith) {i = w} {j = 32} (omega arith),
      ))
      λ i h.
        (rw
          (
            testbit-shr off (bit_and x (shl32 (2 ^ w - 1) off)) i,
            testbit-masked x off w i hw,
            testbit-field_any,
          )
          refl)
