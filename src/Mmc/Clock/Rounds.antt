-- ===== src/Mmc/Clock/Rounds.antt =====
-- The quotient rounded up, and the loop that halves it to at most 16.
use native.Mathlib.Nat.{
  pow-suc, one-le-pow, div-add-mod', mod-lt, mul-le-mul_right, mul-le-mul_left,
}
use native.Mathlib.Numerals.{add-one}
use bsp_v3s.Common.{
  ℕ, zero, suc, ◌+◌, ◌*◌, ◌/◌, ◌%◌, ◌^◌, ◌≤◌, ◌<◌, ◌==◌, ltb, if◌then◌else◌, ◌≡◌, ◌↔◌, refl, arith,
  Bool-cases, ltb→lt, inl, inr, ap, dec_lt,
}
use bsp_v3s.Mmc.Clock.{Divider, halve, first_div}

-- What the loop makes of `div` with `n` rounds done before: it takes the fewest rounds that bring
-- the quotient to 16, and no rounding is lost.
pub record Halved (div n : ℕ) (d : Divider) : Type 0 where
  pub rounds : ℕ
  pub counted : d.n ≡ n + rounds
  pub positive : 0 < d.div
  pub small : d.div ≤ 16
  pub covers : div ≤ d.div * 2 ^ rounds
  pub least : (j : ℕ) → (rounds ≤ j) ↔ (div ≤ 16 * 2 ^ j)

Halved-done : (n div : ℕ) → 0 < div → div ≤ 16 → Halved div n (record { n = n; div = div })
Halved-done n div pos le = record {
  rounds = 0;
  counted = omega arith;
  positive = pos;
  small = le;
  covers = omega arith;
  least = λ j. (λ _. omega (arith, one-le-pow j 2), λ _. omega arith);
}

least_suc :
    (k div : ℕ)
    → 16 < div
    → ((j : ℕ) → (k ≤ j) ↔ ((div + 1) / 2 ≤ 16 * 2 ^ j))
    → (j : ℕ) → (k + 1 ≤ j) ↔ (div ≤ 16 * 2 ^ j)
least_suc k div big h zero = (λ le. absurd (omega arith), λ le. absurd (omega arith))
least_suc k div big h (suc j) = (
  λ le. omega (arith, pow-suc 2 j, (h j).0 (omega arith)),
  λ le. omega (arith, (h j).1 (omega (arith, pow-suc 2 j))),
)

Halved-round :
    (n div : ℕ) (d : Divider) → 16 < div → Halved ((div + 1) / 2) (n + 1) d → Halved div n d
Halved-round n div d big h = record {
  rounds = h.rounds + 1;
  counted = omega (arith, h.counted);
  positive = h.positive;
  small = h.small;
  covers = rw add-one (omega (arith, h.covers, ap (λ (t : ℕ). d.div * t) (pow-suc 2 h.rounds)));
  least = least_suc h.rounds div big h.least;
}

pub halve-Halved :
    (fuel n div : ℕ) → 0 < div → div ≤ 16 * 2 ^ fuel → Halved div n (halve fuel n div)
unfolding halve
halve-Halved zero n div pos fits = Halved-done n div pos (omega arith)
halve-Halved (suc fuel) n div pos fits = elim (Bool-cases (ltb 16 div)) [
  | inl big ↦
      let h =
        halve-Halved fuel (n + 1) ((div + 1) / 2) (omega arith) (omega (arith, pow-suc 2 fuel)) in
      rw big (Halved-round n div _ (ltb→lt 16 div big) h)
  | inr le ↦ rw le (Halved-done n div pos (ground arith))
]

mul_mono : (m n k : ℕ) → m ≤ n → m * k ≤ n * k
mul_mono m n k h = mul-le-mul_right k h

-- A quotient rounded up is at most `b` exactly when the number is at most `b` times the divisor.
ceil_iff :
    (c q r hz p b : ℕ)
    → 0 < hz
    → q * hz + r ≡ p
    → r < hz
    → c ≡ (if r == 0 then q else q + 1)
    → (c ≤ b) ↔ (p ≤ b * hz)
ceil_iff c q r hz p b pos e small d = elim (dec_lt b c) [
  | yes lt ↦ (
    λ le. absurd (omega arith),
    λ le. absurd (ground (arith, mul_mono (b) (q) hz, mul_mono (b + 1) (q) hz)),
  )
  | no ge ↦ (λ le. ground (arith, mul_mono (q) (b) hz, mul_mono (q + 1) (b) hz), λ le. omega arith)
]

-- The first quotient is the exact one, rounded up.
pub first_div_iff : (pll_hz hz b : ℕ) → 0 < hz → (first_div pll_hz hz ≤ b) ↔ (pll_hz ≤ b * hz)
first_div_iff pll_hz hz b pos =
    ceil_iff _ (pll_hz / hz) (pll_hz % hz) hz pll_hz b pos (div-add-mod' pll_hz hz)
      (mod-lt pll_hz pos) refl

pub first_div_pos : (pll_hz hz : ℕ) → 0 < hz → 0 < pll_hz → 0 < first_div pll_hz hz
first_div_pos pll_hz hz pos p = elim (dec_lt 0 (first_div pll_hz hz)) [
  | yes lt ↦ lt
  | no ge ↦ absurd (omega (arith, (first_div_iff pll_hz hz 0 pos).0 (omega arith)))
]

pub first_div_le : (pll_hz hz : ℕ) → 0 < hz → first_div pll_hz hz ≤ pll_hz
first_div_le pll_hz hz pos =
    (first_div_iff pll_hz hz pll_hz pos).1
      (omega (arith, mul-le-mul_left {m = 1} {n = hz} pll_hz (omega arith)))
