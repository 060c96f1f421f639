-- ===== src/Div64/Quotient.antt =====
-- The division ends, and gives quotient and remainder.
use native.Mathlib.Nat.{
  pow-suc, mod-lt, mul_right_comm, mul-add-div_right, mul-add-mod_self_right, div-eq_of_lt,
  mod-eq_of_lt, div-add-mod', add-zero, add-mul, mul_comm, mul-one, mul-le-mul_left, one-le-pow,
}
use bsp_v3s.Common.{
  ℕ, zero, suc, ◌+◌, ◌-◌, ◌*◌, ◌/◌, ◌%◌, ◌^◌, ◌≤◌, ◌<◌, leb, if◌then◌else◌, true, false, Option,
  some, ◌≡◌, ◌∙◌, refl, sym, ap, arith, dec_le,
}
use bsp_v3s.Word.{u32}
use bsp_v3s.Div64.{u64, reduction, double_up, halve_down, divide_from, div64_32}

double : (base k : ℕ) → base * 2 ^ suc k ≡ 2 * (base * 2 ^ k)
double base k = omega (arith, ap (λ (t : ℕ). base * t) (pow-suc 2 k))

-- A shift of at least 1 is as large as what is shifted.
grows : (base k : ℕ) → 1 ≤ base → 2 ^ k ≤ base * 2 ^ k
grows base k h = omega (arith, mul-le-mul_left (2 ^ k) h, mul_comm base (2 ^ k))

double_more :
    (fuel rem b d : ℕ)
    → 1 ≤ b
    → b < 2 ^ 63
    → b < rem
    → double_up (suc fuel) rem b d ≡ double_up fuel rem (u64 (b + b)) (u64 (d + d))
unfolding double_up
double_more fuel rem b d h g l = ground arith

double_done : (fuel rem b d : ℕ) → rem ≤ b → double_up (suc fuel) rem b d ≡ some (b, d)
unfolding double_up
double_done fuel rem b d h = ground arith

double_full : (fuel rem b d : ℕ) → 2 ^ 63 ≤ b → double_up (suc fuel) rem b d ≡ some (b, d)
unfolding double_up
double_full fuel rem b d h = ground arith

-- What the first loop ends with: a multiple of the base above half the number.
abbrev Raised : ℕ → ℕ → ℕ → Option (ℕ × ℕ) → Type 0
Raised base rem most r =
    (k : ℕ) × (r ≡ some (base * 2 ^ k, 2 ^ k)) × (rem < 2 * (base * 2 ^ k)) × (k ≤ most)

at_least : (base k : ℕ) → 1 ≤ base → 1 ≤ base * 2 ^ k
at_least base k h = omega (arith, grows base k h, one-le-pow k 2)

double_up-Raised :
    (fuel base rem k : ℕ)
    → 1 ≤ base
    → base * 2 ^ k < 2 ^ 64
    → rem < 2 ^ 64
    → rem ≤ base * 2 ^ (k + fuel)
    → Raised base rem (k + fuel) (double_up (suc fuel) rem (base * 2 ^ k) (2 ^ k))
double_up-Raised zero base rem k one small word least =
    let le : rem ≤ base * 2 ^ k = rw add-zero at least in
    (
      k,
      double_done 0 rem (base * 2 ^ k) (2 ^ k) le,
      omega (arith, at_least base k one),
      omega arith,
    )
double_up-Raised (suc fuel) base rem k one small word least = elim (dec_le rem (base * 2 ^ k)) [
  | yes le ↦ (
    k,
    double_done (suc fuel) rem (base * 2 ^ k) (2 ^ k) le,
    omega (arith, at_least base k one),
    omega arith,
  )
  | no gt ↦ elim (dec_le (2 ^ 63) (base * 2 ^ k)) [
    | yes full ↦
        (k, double_full (suc fuel) rem (base * 2 ^ k) (2 ^ k) full, omega arith, omega arith)
    | no room ↦
        let twice = double base k in
        let b2 : u64 (base * 2 ^ k + base * 2 ^ k) ≡ base * 2 ^ suc k = omega arith in
        let d2 : u64 (2 ^ k + 2 ^ k) ≡ 2 ^ suc k = omega (arith, pow-suc 2 k, grows base k one) in
        let shift : k + suc fuel ≡ suc k + fuel = omega arith in
        let step =
          double_more (suc fuel) rem (base * 2 ^ k) (2 ^ k) (at_least base k one) (omega arith)
            (omega arith) in
        let same : double_up (suc fuel) rem (u64 (base * 2 ^ k + base * 2 ^ k))
              (u64 (2 ^ k + 2 ^ k))
            ≡ double_up (suc fuel) rem (base * 2 ^ suc k) (2 ^ suc k) =
          rw (b2, d2) refl in
        let (k', e, above, bound) =
          double_up-Raised fuel base rem (suc k) one (omega arith) word (rw shift at least) in
        (k', step ∙ same ∙ e, above, omega arith)
  ]
]

-- The sum that the second loop keeps, and the remainder that it ends with.
abbrev Divided : ℕ → ℕ → Option (ℕ × ℕ) → Type 0
Divided base n r = (q : ℕ) × (rem : ℕ) × (r ≡ some (q, rem)) × (q * base + rem ≡ n) × (rem < base)

halve_last :
    (fuel rem res b : ℕ)
    → halve_down (suc fuel) rem res b 1
      ≡ some (if leb b rem then u64 (res + 1) else res, if leb b rem then rem - b else rem)
unfolding halve_down
halve_last fuel rem res b = refl

halve_more :
    (fuel rem res b d : ℕ)
    → 2 ≤ d
    → halve_down (suc fuel) rem res b d
      ≡ halve_down fuel
          (if leb b rem then rem - b else rem)
          (if leb b rem then u64 (res + d) else res)
          (b / 2)
          (d / 2)
unfolding halve_down
halve_more fuel rem res b d h = ground arith

-- One subtraction keeps the sum.
subtract :
    (base k n rem res : ℕ)
    → 1 ≤ base
    → n < 2 ^ 64
    → res * base + rem ≡ n
    → base * 2 ^ k ≤ rem
    → (u64 (res + 2 ^ k) ≡ res + 2 ^ k) × ((res + 2 ^ k) * base + (rem - base * 2 ^ k) ≡ n)
subtract base k n rem res one word sum le =
    let spread = add-mul res (2 ^ k) base in
    let turn = mul_comm (2 ^ k) base in
    let fits : (res + 2 ^ k) * 1 ≤ (res + 2 ^ k) * base = mul-le-mul_left (res + 2 ^ k) one in
    (omega (arith, spread, turn, fits), omega (arith, spread, turn, fits))

halve_down-Divided :
    (fuel k base n rem res : ℕ)
    → k ≤ fuel
    → 1 ≤ base
    → n < 2 ^ 64
    → res * base + rem ≡ n
    → rem < 2 * (base * 2 ^ k)
    → Divided base n (halve_down (suc fuel) rem res (base * 2 ^ k) (2 ^ k))
halve_down-Divided fuel zero base n rem res enough one word sum lt = elim (dec_le base rem) [
  | yes le ↦
      let (fits, kept) = subtract base 0 n rem res one word sum (omega arith) in
      let b : leb (base * 2 ^ 0) rem ≡ true = ground arith in
      (
        res + 2 ^ 0,
        rem - base * 2 ^ 0,
        halve_last fuel rem res (base * 2 ^ 0) ∙ (rw (b, fits) refl),
        kept,
        omega arith,
      )
  | no gt ↦
      let b : leb (base * 2 ^ 0) rem ≡ false = ground arith in
      (res, rem, halve_last fuel rem res (base * 2 ^ 0) ∙ (rw b refl), sum, omega arith)
]
halve_down-Divided zero (suc k) base n rem res enough one word sum lt = absurd (omega arith)
halve_down-Divided (suc fuel) (suc k) base n rem res enough one word sum lt =
    let twice = double base k in
    let b2 : base * 2 ^ suc k / 2 ≡ base * 2 ^ k = omega arith in
    let d2 : 2 ^ suc k / 2 ≡ 2 ^ k = omega (arith, pow-suc 2 k) in
    let step =
      halve_more (suc fuel) rem res (base * 2 ^ suc k) (2 ^ suc k)
        (omega (arith, pow-suc 2 k, one-le-pow k 2)) in
    elim (dec_le (base * 2 ^ suc k) rem) [
      | yes le ↦
          let (fits, kept) = subtract base (suc k) n rem res one word sum le in
          let b : leb (base * 2 ^ suc k) rem ≡ true = ground arith in
          rw (step, b, b2, d2, fits)
            (halve_down-Divided fuel k base n (rem - base * 2 ^ suc k) (res + 2 ^ suc k)
              (omega arith) one word kept (omega arith))
      | no gt ↦
          let b : leb (base * 2 ^ suc k) rem ≡ false = ground arith in
          rw (step, b, b2, d2)
            (halve_down-Divided fuel k base n rem res (omega arith) one word sum (omega arith))
    ]

-- The reduction keeps the sum, and leaves a number whose quotient has 32 bits.
reduction_lem :
    (n base : ℕ)
    → 1 ≤ base
    → n < 2 ^ 64
    → ((reduction n base).1 * base + (reduction n base).0 ≡ n)
      × ((reduction n base).0 < base * 2 ^ 32)
      × ((reduction n base).0 ≤ n)
reduction_lem n base one word = elim (dec_le base (n / 2 ^ 32)) [
  | yes le ↦
      let b : leb base (n / 2 ^ 32) ≡ true = ground arith in
      let q : ℕ = n / 2 ^ 32 / base in
      let whole : q * base + n / 2 ^ 32 % base ≡ n / 2 ^ 32 = div-add-mod' (n / 2 ^ 32) base in
      let less : n / 2 ^ 32 % base < base = mod-lt (n / 2 ^ 32) one in
      let fits : u32 (q * base) ≡ q * base = omega arith in
      let turn = mul_right_comm q (2 ^ 32) base in
      rw (b, fits) (omega arith, omega arith, omega arith)
  | no gt ↦
      let b : leb base (n / 2 ^ 32) ≡ false = ground arith in
      rw b (omega arith, omega arith, omega arith)
]

unique : (base n q r : ℕ) → q * base + r ≡ n → r < base → (q ≡ n / base) × (r ≡ n % base)
unique base n q r sum lt = (
  sym (
      rw (← sum) (mul-add-div_right {m = base} (omega arith) q r ∙ omega (arith, div-eq_of_lt lt))),
  sym (rw (← sum, mul-add-mod_self_right q base r) (mod-eq_of_lt lt)),
)

div_steps :
    (fuel n base b d q r : ℕ)
    → double_up fuel (reduction n base).0 base 1 ≡ some (b, d)
    → halve_down fuel (reduction n base).0 (reduction n base).1 b d ≡ some (q, r)
    → div64_32 fuel n base ≡ some (q, u32 r)
unfolding div64_32 divide_from
div_steps fuel n base b d q r up down = rw (div64_32, up, down) refl

-- The division of a 64-bit number by a 32-bit one that is not 0 ends, each of its loops within 64
-- rounds, and gives the quotient and the remainder.
pub div64_32_lem :
    (n base : ℕ)
    → 1 ≤ base
    → base < 2 ^ 32
    → n < 2 ^ 64
    → div64_32 64 n base ≡ some (n / base, n % base)
div64_32_lem n base one small word =
    let (sum, short, below) = reduction_lem n base one word in
    let rem : ℕ = (reduction n base).0 in
    let res : ℕ = (reduction n base).1 in
    let (k, e, above, bound) =
      double_up-Raised 63 base rem 0 one (omega arith) (omega arith) (omega arith) in
    let e' : double_up 64 rem base 1 ≡ some (base * 2 ^ k, 2 ^ k) = rw mul-one at e in
    let (q, r, f, kept, lt) = halve_down-Divided 63 k base n rem res bound one word sum above in
    let (is_q, is_r) = unique base n q r kept lt in
    let low : u32 r ≡ r = omega arith in
    div_steps 64 n base (base * 2 ^ k) (2 ^ k) q r e' f ∙ (rw (low, is_q, is_r) refl)
