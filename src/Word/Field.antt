-- ===== src/Word/Field.antt =====
-- A field of `w` digits at digit `off` of a 32-bit word: what clrsetbits_le32 does to it.
use native.Mathlib.Nat.{one-le-pow}
use bsp_v3s.Common.{
  ℕ, ◌+◌, ◌-◌, ◌*◌, ◌/◌, ◌%◌, ◌^◌, ◌≤◌, ◌<◌, bit_and, ◌≡◌, sym, bit_or, ◌⊎◌, ◌&&◌, ◌||◌, not, arith,
  ltb, ap, dec_lt, if◌then◌else◌,
}
use bsp_v3s.Word.{testbit, not32, shl32, clrset}
use bsp_v3s.Word.Testbit.{
  testbit-bit_and, testbit-bit_or, testbit-not32, testbit_of_lt, testbit-shr, testbit-mul_pow,
  testbit-mul_pow_low, testbit-mod_pow, testbit-low_mask, testbit_ext, zero-testbit,
  bit_and_lt_left, bit_and_lt_right, bit_or_lt,
}

-- `&` with a mask of low ones is a remainder.
pub bit_and-low_mask : (k x : ℕ) → bit_and x (2 ^ k - 1) ≡ x % 2 ^ k
bit_and-low_mask k x =
    testbit_ext k _ _ (bit_and_lt_right k x (2 ^ k - 1) (omega (arith, one-le-pow k 2)))
      (omega (arith, one-le-pow k 2))
      (λ i h.
        ground
          (arith, testbit-bit_and x (2 ^ k - 1) i, testbit-low_mask k i, testbit-mod_pow k x i))

pub clrset_lt : (x m s : ℕ) → x < 2 ^ 32 → s < 2 ^ 32 → clrset x m s < 2 ^ 32
clrset_lt x m s hx hs = bit_or_lt 32 _ s (bit_and_lt_left 32 x (not32 m) hx) hs

-- The digits of `(x & ~m) | s`.
pub testbit-clrset :
    (x m s i : ℕ)
    → m < 2 ^ 32
    → i < 32
    → testbit (clrset x m s) i ≡ ((testbit x i && not (testbit m i)) || testbit s i)
testbit-clrset x m s i hm hi = rw (testbit-bit_or, testbit-bit_and, testbit-not32 m i hm hi)

-- `(x >> off) & ((1 << w) - 1)`
abbrev pub field : ℕ → ℕ → ℕ → ℕ
field x off w = bit_and (x / 2 ^ off) (2 ^ w - 1)

-- What clrsetbits_le32(r, mask << off, v << off) makes of `x`, the mask having `w` ones.
abbrev pub put_field : ℕ → ℕ → ℕ → ℕ → ℕ
put_field x off w v = clrset x (shl32 (2 ^ w - 1) off) (shl32 v off)

pub testbit-field : (x off w i : ℕ) → i < w → testbit (field x off w) i ≡ testbit x (off + i)
testbit-field x off w i h =
    rw (bit_and-low_mask, testbit-mod_pow w (x / 2 ^ off) i h) (testbit-shr off x i)

pub field_lt : (x off w : ℕ) → field x off w < 2 ^ w
field_lt x off w = rw bit_and-low_mask (omega (arith, one-le-pow w 2))

-- The digits of a shifted value: zeros below `off`, the value from there on.
pub testbit-shl32 :
    (x off i : ℕ) → i < 32 → testbit (shl32 x off) i ≡ (not (ltb i off) && testbit x (i - off))
testbit-shl32 x off i h = elim (dec_lt i off) [
  | yes p ↦ ground (arith, testbit-mod_pow 32 (x * 2 ^ off) i, testbit-mul_pow_low off x i)
  | no p ↦ ground (arith, testbit-mod_pow 32 (x * 2 ^ off) i, above (i - off) (omega arith))
]
  where
    above : (j : ℕ) → i ≡ off + j → testbit (x * 2 ^ off) i ≡ testbit x j
    above j e = rw e (testbit-mul_pow off x j)

-- Digit `i` after the write: the value inside the field, the old word outside it.
testbit-put_field :
    (x off w v i : ℕ)
    → v < 2 ^ w
    → i < 32
    → testbit (put_field x off w v) i
      ≡ (if not (ltb i off) && ltb i (off + w) then testbit v (i - off) else testbit x i)
testbit-put_field x off w v i hv hi = ground (
  arith,
  testbit-clrset x (shl32 (2 ^ w - 1) off) (shl32 v off) i (omega arith) hi,
  testbit-shl32 (2 ^ w - 1) off i hi,
  testbit-shl32 v off i hi,
  testbit-low_mask w (i - off),
  testbit_of_lt w v (i - off) hv,
)

pub put_field_lt : (x off w v : ℕ) → x < 2 ^ 32 → put_field x off w v < 2 ^ 32
put_field_lt x off w v h = clrset_lt x (shl32 (2 ^ w - 1) off) (shl32 v off) h (omega arith)

-- The field reads back the value put into it.
pub field-put_field_self :
    (x off w v : ℕ) → v < 2 ^ w → off + w ≤ 32 → field (put_field x off w v) off w ≡ v
field-put_field_self x off w v hv hw =
    testbit_ext w _ v (field_lt (put_field x off w v) off w) hv λ i h. ground (
      arith,
      testbit-field (put_field x off w v) off w i h,
      testbit-put_field x off w v (off + i) hv (omega arith),
      back i,
    )
  where
    back : (i : ℕ) → testbit v (off + i - off) ≡ testbit v i
    back i = ap (testbit v) (omega arith)

-- A field that does not overlap keeps its value.
pub field-put_field_ne :
    (x off w v off' w' : ℕ)
    → v < 2 ^ w
    → off' + w' ≤ 32
    → (off + w ≤ off') ⊎ (off' + w' ≤ off)
    → field (put_field x off w v) off' w' ≡ field x off' w'
field-put_field_ne x off w v off' w' hv hw apart =
    testbit_ext w' _ _ (field_lt (put_field x off w v) off' w') (field_lt x off' w') λ i h. ground (
      arith,
      testbit-field (put_field x off w v) off' w' i h,
      testbit-field x off' w' i h,
      testbit-put_field x off w v (off' + i) hv (omega arith),
    )

bit_or-zero : (x : ℕ) → x < 2 ^ 32 → bit_or x 0 ≡ x
bit_or-zero x h =
    testbit_ext 32 _ x (bit_or_lt 32 x 0 h (omega arith)) h
      λ i hi. ground (arith, testbit-bit_or x 0 i, zero-testbit i)

-- `x |= s` sets the field that `s` masks to ones.
pub bit_or-clrset : (x s : ℕ) → x < 2 ^ 32 → s < 2 ^ 32 → bit_or x s ≡ clrset x s s
bit_or-clrset x s hx hs =
    testbit_ext 32 _ _ (bit_or_lt 32 x s hx hs) (clrset_lt x s s hx hs)
      λ i hi. ground (arith, testbit-bit_or x s i, testbit-clrset x s s i hs hi)

-- `x &= ~s` clears the field that `s` masks.
pub bit_and-not32-clrset : (x s : ℕ) → x < 2 ^ 32 → bit_and x (not32 s) ≡ clrset x s 0
bit_and-not32-clrset x s hx = sym (bit_or-zero _ (bit_and_lt_left 32 x (not32 s) hx))
