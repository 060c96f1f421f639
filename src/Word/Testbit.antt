-- ===== src/Word/Testbit.antt =====
-- What each word operation does to each binary digit, and that the digits determine the word.
use Prim.Native.Nat.{bit_and-bitwise}
use native.Mathlib.Nat.{
  pow-zero, pow-suc, pow-succ', one-le-pow, zero-add, suc-add, mul-one, div-one, div-div-eq-div-mul,
  div-add-mod',
}
use bsp_v3s.Common.{
  ℕ, zero, suc, ◌+◌, ◌-◌, ◌*◌, ◌/◌, ◌%◌, ◌^◌, ◌≤◌, ◌<◌, bit_and, bit_or, ◌≡◌, refl, false, ◌&&◌,
  ◌||◌, not, arith, ltb, ap, sym, ◌∙◌, dec_lt, ◌==◌, if◌then◌else◌,
}
use bsp_v3s.Word.{testbit, not32}
use bsp_v3s.Word.Digits.{bit_or_step, bit_and_step}

pub testbit-bit_and : (x y i : ℕ) → testbit (bit_and x y) i ≡ (testbit x i && testbit y i)
unfolding testbit
testbit-bit_and x y zero = ground (arith, bit_and_step x y)
testbit-bit_and x y (suc i) =
    let half : bit_and x y / 2 ≡ bit_and (x / 2) (y / 2) = omega (arith, bit_and_step x y) in
    rw half (testbit-bit_and (x / 2) (y / 2) i)

pub testbit-bit_or : (x y i : ℕ) → testbit (bit_or x y) i ≡ (testbit x i || testbit y i)
unfolding testbit
testbit-bit_or x y zero = ground (arith, bit_or_step x y)
testbit-bit_or x y (suc i) =
    let half : bit_or x y / 2 ≡ bit_or (x / 2) (y / 2) = omega (arith, bit_or_step x y) in
    rw half (testbit-bit_or (x / 2) (y / 2) i)

pub zero-testbit : (i : ℕ) → testbit 0 i ≡ false
unfolding testbit
zero-testbit zero = refl
zero-testbit (suc i) = zero-testbit i

-- A number below `2 ^ k` has no digit from `k` on.
pub testbit_of_lt : (k x i : ℕ) → x < 2 ^ k → k ≤ i → testbit x i ≡ false
unfolding testbit
testbit_of_lt zero x i h g = let e : x ≡ 0 = omega arith in rw e (zero-testbit i)
testbit_of_lt (suc k) x zero h g = absurd (omega arith)
testbit_of_lt (suc k) x (suc i) h g =
    testbit_of_lt k (x / 2) i (omega (arith, pow-suc 2 k)) (omega arith)

testbit-complement : (k x i : ℕ) → x < 2 ^ k → i < k → testbit (2 ^ k - 1 - x) i ≡ not (testbit x i)
unfolding testbit
testbit-complement zero x i h g = absurd (omega arith)
testbit-complement (suc k) x zero h g = ground (arith, pow-suc 2 k)
testbit-complement (suc k) x (suc i) h g =
    let half : (2 ^ suc k - 1 - x) / 2 ≡ 2 ^ k - 1 - x / 2 = omega (arith, pow-suc 2 k) in
    rw half (testbit-complement k (x / 2) i (omega (arith, pow-suc 2 k)) (omega arith))

pub testbit-not32 : (x i : ℕ) → x < 2 ^ 32 → i < 32 → testbit (not32 x) i ≡ not (testbit x i)
testbit-not32 x i h g = testbit-complement 32 x i h g

-- Shifting right drops the low digits.
pub testbit-shr : (k x i : ℕ) → testbit (x / 2 ^ k) i ≡ testbit x (k + i)
unfolding testbit
testbit-shr zero x i = rw (zero-add, pow-zero, div-one)
testbit-shr (suc k) x i =
    let halve : x / 2 ^ suc k ≡ x / 2 / 2 ^ k = rw (pow-succ', ← div-div-eq-div-mul x 2 (2 ^ k)) in
    rw (halve, suc-add) (testbit-shr k (x / 2) i)

double-half : (x y : ℕ) → y ≡ 2 * x → y / 2 ≡ x
double-half x y e = omega arith

-- Shifting left puts zeros below.
pub testbit-mul_pow_low : (k x i : ℕ) → i < k → testbit (x * 2 ^ k) i ≡ false
unfolding testbit
testbit-mul_pow_low zero x i h = absurd (omega arith)
testbit-mul_pow_low (suc k) x zero h =
    let e : x * 2 ^ suc k ≡ 2 * (x * 2 ^ k) = omega (arith, ap (λ (t : ℕ). x * t) (pow-suc 2 k)) in
    rw e (ground arith)
testbit-mul_pow_low (suc k) x (suc i) h =
    let e : x * 2 ^ suc k ≡ 2 * (x * 2 ^ k) = omega (arith, ap (λ (t : ℕ). x * t) (pow-suc 2 k)) in
    rw (double-half (x * 2 ^ k) _ e) (testbit-mul_pow_low k x i (omega arith))

pub testbit-mul_pow : (k x i : ℕ) → testbit (x * 2 ^ k) (k + i) ≡ testbit x i
unfolding testbit
testbit-mul_pow zero x i = rw (zero-add, pow-zero, mul-one)
testbit-mul_pow (suc k) x i =
    let e : x * 2 ^ suc k ≡ 2 * (x * 2 ^ k) = omega (arith, ap (λ (t : ℕ). x * t) (pow-suc 2 k)) in
    let halved : testbit (x * 2 ^ suc k / 2) (k + i) ≡ testbit x i =
      rw (double-half (x * 2 ^ k) _ e) (testbit-mul_pow k x i) in
    rw suc-add halved

-- The low `k` digits do not depend on a multiple of `2 ^ k`.
testbit-add_multiple : (k q r i : ℕ) → i < k → testbit (q * 2 ^ k + r) i ≡ testbit r i
unfolding testbit
testbit-add_multiple zero q r i h = absurd (omega arith)
testbit-add_multiple (suc k) q r zero h =
    let e : (q * 2 ^ suc k + r) % 2 ≡ r % 2 = omega (arith, ap (λ (t : ℕ). q * t) (pow-suc 2 k)) in
    rw e
testbit-add_multiple (suc k) q r (suc i) h =
    let e : (q * 2 ^ suc k + r) / 2 ≡ q * 2 ^ k + r / 2 =
      omega (arith, ap (λ (t : ℕ). q * t) (pow-suc 2 k)) in
    rw e (testbit-add_multiple k q (r / 2) i (omega arith))

-- The remainder by `2 ^ k` keeps the low `k` digits.
pub testbit-mod_pow : (k x i : ℕ) → i < k → testbit (x % 2 ^ k) i ≡ testbit x i
testbit-mod_pow k x i h =
    sym (testbit-add_multiple k (x / 2 ^ k) (x % 2 ^ k) i h)
    ∙ ap (λ t. testbit t i) (div-add-mod' x (2 ^ k))

pub testbit-low_mask : (k i : ℕ) → testbit (2 ^ k - 1) i ≡ ltb i k
testbit-low_mask k i = elim (dec_lt i k) [
  | yes h ↦
      ground (arith, testbit-complement k 0 i (one-le-pow k 2 (omega arith)) h, zero-testbit i)
  | no h ↦ ground (arith, testbit_of_lt k (2 ^ k - 1) i, one-le-pow k 2)
]

-- Words with the same digits are equal.
pub testbit_ext :
    (k x y : ℕ) → x < 2 ^ k → y < 2 ^ k → ((i : ℕ) → i < k → testbit x i ≡ testbit y i) → x ≡ y
testbit_ext zero x y hx hy e = omega arith
testbit_ext (suc k) x y hx hy e =
    let lowest : x % 2 ≡ y % 2 = (unfold testbit in ground (arith, e 0 (omega arith))) in
    let rest : x / 2 ≡ y / 2 =
      testbit_ext k (x / 2) (y / 2) (omega (arith, pow-suc 2 k)) (omega (arith, pow-suc 2 k))
        (λ i h. unfold testbit in e (suc i) (omega arith)) in
    omega arith

pub zero-bit_and : (y : ℕ) → bit_and 0 y ≡ 0
zero-bit_and y = bit_and-bitwise 0 y

bit_and-zero_fuel : (n x : ℕ) → x ≤ n → bit_and x 0 ≡ 0
bit_and-zero_fuel n zero h = refl
bit_and-zero_fuel zero (suc x) h = absurd (omega arith)
bit_and-zero_fuel (suc n) (suc x) h =
    omega (arith, bit_and_step (suc x) 0, bit_and-zero_fuel n (suc x / 2) (omega arith))

pub bit_and-zero : (x : ℕ) → bit_and x 0 ≡ 0
bit_and-zero x = bit_and-zero_fuel x x (omega arith)

pub bit_and_lt_left : (k x y : ℕ) → x < 2 ^ k → bit_and x y < 2 ^ k
bit_and_lt_left zero x y h = let e : x ≡ 0 = omega arith in rw (e, zero-bit_and) (omega arith)
bit_and_lt_left (suc k) x y h = omega (
  arith,
  bit_and_step x y,
  pow-suc 2 k,
  bit_and_lt_left k (x / 2) (y / 2) (omega (arith, pow-suc 2 k)),
)

pub bit_and_lt_right : (k x y : ℕ) → y < 2 ^ k → bit_and x y < 2 ^ k
bit_and_lt_right zero x y h = let e : y ≡ 0 = omega arith in rw (e, bit_and-zero) (omega arith)
bit_and_lt_right (suc k) x y h = omega (
  arith,
  bit_and_step x y,
  pow-suc 2 k,
  bit_and_lt_right k (x / 2) (y / 2) (omega (arith, pow-suc 2 k)),
)

pub bit_or_lt : (k x y : ℕ) → x < 2 ^ k → y < 2 ^ k → bit_or x y < 2 ^ k
bit_or_lt zero x y h g =
    let e : x ≡ 0 = omega arith in let d : y ≡ 0 = omega arith in rw (e, d) (omega arith)
bit_or_lt (suc k) x y h g = omega (
  arith,
  bit_or_step x y,
  pow-suc 2 k,
  bit_or_lt k (x / 2) (y / 2) (omega (arith, pow-suc 2 k)) (omega (arith, pow-suc 2 k)),
)

-- Testing one digit with a mask: `x & (1 << i)`.
pub bit_and-pow : (i x : ℕ) → bit_and x (2 ^ i) ≡ (if testbit x i then 2 ^ i else 0)
unfolding testbit
bit_and-pow zero x = ground (arith, bit_and_step x 1, bit_and-zero (x / 2))
bit_and-pow (suc i) x =
    let half : 2 ^ suc i / 2 ≡ 2 ^ i = omega (arith, pow-suc 2 i) in
    ground (arith, bit_and_step x (2 ^ suc i), half, pow-suc 2 i, bit_and-pow i (x / 2))

-- As a C condition the masked word is false exactly where the digit is 0.
pub test-bit_and-pow : (i x : ℕ) → (bit_and x (2 ^ i) == 0) ≡ not (testbit x i)
test-bit_and-pow i x = ground (arith, bit_and-pow i x, one-le-pow i 2)
