-- ===== src/Word/Pack.antt =====
-- Fields of a word that is put together by `|` from shifted values.
use Prim.Native.Nat.{bit_or-bitwise}
use native.Mathlib.Nat.{
  div-one, mul-one, add-mul, pow-succ', div-div-eq-div-mul, one-le-pow, pow-suc, zero-add,
}
use bsp_v3s.Common.{
  ℕ, zero, suc, ◌+◌, ◌-◌, ◌*◌, ◌/◌, ◌^◌, ◌≤◌, ◌<◌, bit_or, bit_and, ◌≡◌, ◌⊎◌, refl, sym, arith, ap,
}
use bsp_v3s.Word.{testbit, shl32}
use bsp_v3s.Word.Digits.{bit_or_step, bit_and_step}
use bsp_v3s.Word.Testbit.{
  testbit-bit_or, bit_and-zero, testbit_ext, testbit_of_lt, zero-testbit, bit_or_lt,
}
use bsp_v3s.Word.Field.{field, field_lt, testbit-field, testbit-shl32}

pub field-bit_or :
    (x y off w : ℕ) → field (bit_or x y) off w ≡ bit_or (field x off w) (field y off w)
field-bit_or x y off w =
    testbit_ext w _ _ (field_lt (bit_or x y) off w)
      (bit_or_lt w _ _ (field_lt x off w) (field_lt y off w))
      λ i h. ground (
        arith,
        testbit-field (bit_or x y) off w i h,
        testbit-field x off w i h,
        testbit-field y off w i h,
        testbit-bit_or x y (off + i),
        testbit-bit_or (field x off w) (field y off w) i,
      )

pub field-shl32_self : (v off w : ℕ) → v < 2 ^ w → off + w ≤ 32 → field (shl32 v off) off w ≡ v
field-shl32_self v off w hv hw = testbit_ext w _ v (field_lt (shl32 v off) off w) hv λ i h.
    ground (arith, testbit-field (shl32 v off) off w i h, testbit-shl32 v off (off + i), back i)
  where
    back : (i : ℕ) → testbit v (off + i - off) ≡ testbit v i
    back i = ap (testbit v) (omega arith)

-- A value of `k` bits shifted by `sh` has no digit in a field beside it.
pub field-shl32_ne :
    (v sh k off w : ℕ)
    → v < 2 ^ k
    → off + w ≤ 32
    → (sh + k ≤ off) ⊎ (off + w ≤ sh)
    → field (shl32 v sh) off w ≡ 0
field-shl32_ne v sh k off w hv hw apart =
    testbit_ext w _ 0 (field_lt (shl32 v sh) off w) (one-le-pow w 2 (omega arith)) λ i h. ground (
      arith,
      testbit-field (shl32 v sh) off w i h,
      testbit-shl32 v sh (off + i),
      testbit_of_lt k v (off + i - sh) hv,
      zero-testbit i,
    )

pub zero-bit_or : (y : ℕ) → bit_or 0 y ≡ y
zero-bit_or y = bit_or-bitwise 0 y

or-zero_fuel : (n x : ℕ) → x ≤ n → bit_or x 0 ≡ x
or-zero_fuel n zero h = refl
or-zero_fuel zero (suc x) h = absurd (omega arith)
or-zero_fuel (suc n) (suc x) h =
    omega (arith, bit_or_step (suc x) 0, or-zero_fuel n (suc x / 2) (omega arith))

pub or-zero : (x : ℕ) → bit_or x 0 ≡ x
or-zero x = or-zero_fuel x x (omega arith)

-- A word below `2 ^ k` and a multiple of `2 ^ k` share no digit.
pub bit_or-disjoint : (k x y : ℕ) → x < 2 ^ k → bit_or x (y * 2 ^ k) ≡ x + y * 2 ^ k
bit_or-disjoint zero x y h =
    let e : x ≡ 0 = omega arith in rw (e, zero-add) (zero-bit_or (y * 2 ^ 0))
bit_or-disjoint (suc k) x y h =
    let e : y * 2 ^ suc k ≡ 2 * (y * 2 ^ k) = omega (arith, ap (λ (t : ℕ). y * t) (pow-suc 2 k)) in
    let half : y * 2 ^ suc k / 2 ≡ y * 2 ^ k = omega arith in
    let rest = bit_or-disjoint k (x / 2) y (omega (arith, pow-suc 2 k)) in
    omega (arith, bit_or_step x (y * 2 ^ suc k), ap (λ (t : ℕ). bit_or (x / 2) t) half, rest)

pub disjoint-bit_or : (k x y : ℕ) → x < 2 ^ k → bit_or (y * 2 ^ k) x ≡ x + y * 2 ^ k
disjoint-bit_or zero x y h = let e : x ≡ 0 = omega arith in rw (e, zero-add) (or-zero (y * 2 ^ 0))
disjoint-bit_or (suc k) x y h =
    let e : y * 2 ^ suc k ≡ 2 * (y * 2 ^ k) = omega (arith, ap (λ (t : ℕ). y * t) (pow-suc 2 k)) in
    let half : y * 2 ^ suc k / 2 ≡ y * 2 ^ k = omega arith in
    let rest = disjoint-bit_or k (x / 2) y (omega (arith, pow-suc 2 k)) in
    omega (arith, bit_or_step (y * 2 ^ suc k) x, ap (λ (t : ℕ). bit_or t (x / 2)) half, rest)

-- A mask that is a multiple of `2 ^ k` leaves the digits below out.
pub bit_and-scaled : (k x c : ℕ) → bit_and x (c * 2 ^ k) ≡ bit_and (x / 2 ^ k) c * 2 ^ k
bit_and-scaled zero x c =
    let mask : c * 1 ≡ c = mul-one c in
    let whole : x / 1 ≡ x = div-one x in rw (mask, whole) (sym (mul-one (bit_and x c)))
bit_and-scaled (suc k) x c =
    let e : c * 2 ^ suc k ≡ 2 * (c * 2 ^ k) = omega (arith, ap (λ (t : ℕ). c * t) (pow-suc 2 k)) in
    let half : c * 2 ^ suc k / 2 ≡ c * 2 ^ k = omega arith in
    let deep : x / 2 ^ suc k ≡ x / 2 / 2 ^ k = rw (pow-succ', ← div-div-eq-div-mul x 2 (2 ^ k)) in
    let out : ℕ = bit_and (x / 2 / 2 ^ k) c in
    let up : out * 2 ^ suc k ≡ 2 * (out * 2 ^ k) =
      omega (arith, ap (λ (t : ℕ). out * t) (pow-suc 2 k)) in
    rw deep (
      omega (
        arith,
        bit_and_step x (c * 2 ^ suc k),
        ap (λ (t : ℕ). bit_and (x / 2) t) half,
        bit_and-scaled k (x / 2) c,
        up,
      ))

-- Two neighbouring bits of a mask, and each of them.
pub bit_and-two : (k x : ℕ) → bit_and x (3 * 2 ^ k) ≡ bit_and x (2 * 2 ^ k) + bit_and x (1 * 2 ^ k)
bit_and-two k x =
    let y : ℕ = x / 2 ^ k in
    let split : bit_and y 3 ≡ bit_and y 2 + bit_and y 1 =
      omega (arith, bit_and_step y 3, bit_and_step y 2, bit_and_step y 1, bit_and-zero (y / 2)) in
    rw (bit_and-scaled k x 3, bit_and-scaled k x 2, bit_and-scaled k x 1, split)
      (add-mul (bit_and y 2) (bit_and y 1) (2 ^ k))
