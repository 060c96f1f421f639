-- ===== src/Div64.antt =====
-- uboot/div64.c: the division of a 64-bit number by a 32-bit one, for a processor that has none.
pub mod Quotient
use bsp_v3s.Common.{
  ℕ, zero, suc, ◌+◌, ◌-◌, ◌*◌, ◌/◌, ◌%◌, ◌^◌, ◌==◌, ltb, leb, if◌then◌else◌, not, ◌&&◌, true, false,
  Option, none, some,
}
use bsp_v3s.Word.{u32}

abbrev pub u64 : ℕ → ℕ
u64 n = n % 2 ^ 64

-- "Reduce the thing a bit first": the remainder and the quotient so far.
abbrev pub reduction : ℕ → ℕ → ℕ × ℕ
reduction n base =
    let high = n / 2 ^ 32 in
    if leb base high then (n - u32 (high / base * base) * 2 ^ 32, high / base * 2 ^ 32) else (n, 0)

-- The first loop, on `b` and `d`; none is a loop that goes on. `(int64_t)b > 0` is a `b` that is not
-- 0 and has bit 63 clear.
unfoldable pub double_up : ℕ → ℕ → ℕ → ℕ → Option (ℕ × ℕ)
double_up zero rem b d = none
double_up (suc fuel) rem b d = elim (not (b == 0) && ltb b (2 ^ 63) && ltb b rem) [
  | true ↦ double_up fuel rem (u64 (b + b)) (u64 (d + d))
  | false ↦ some (b, d)
]

-- The second loop, on `rem`, `res`, `b` and `d`.
unfoldable pub halve_down : ℕ → ℕ → ℕ → ℕ → ℕ → Option (ℕ × ℕ)
halve_down zero rem res b d = none
halve_down (suc fuel) rem res b d =
    let rem' = if leb b rem then rem - b else rem in
    let res' = if leb b rem then u64 (res + d) else res in
    elim (d / 2 == 0) [
      | true ↦ some (res', rem')
      | false ↦ halve_down fuel rem' res' (b / 2) (d / 2)
    ]

unfoldable pub divide_from : ℕ → Option (ℕ × ℕ) → ℕ × ℕ → Option (ℕ × ℕ)
divide_from fuel none (rem, res) = none
divide_from fuel (some (b, d)) (rem, res) = halve_down fuel rem res b d

-- `*n` and the value returned, for a `base` that is not 0.
unfoldable pub div64_32 : ℕ → ℕ → ℕ → Option (ℕ × ℕ)
unfolding double_up divide_from
div64_32 fuel n base =
    let start = reduction n base in
    elim (divide_from fuel (double_up fuel start.0 base 1) start) [
      | none ↦ none
      | some (res, rem) ↦ some (res, u32 rem)
    ]
