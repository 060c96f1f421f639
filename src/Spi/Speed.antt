-- ===== src/Spi/Speed.antt =====
-- The rate that sunxi_spi_set_speed of uboot/sunxi_spi.c programs.
use bsp_v3s.Common.{
  ℕ, ◌+◌, ◌-◌, ◌*◌, ◌/◌, ◌%◌, ◌≤◌, ◌<◌, leb, min, max, true, bit_and, ◌≡◌, refl, arith, pos, ◌∷◌,
}
use native.Mathlib.Nat.{
  le-div_iff_mul-le, div-le_of_le-mul, div-lt_iff_lt-mul, lt-mul-div-succ, div-mul-le_self,
}
use bsp_v3s.Word.Field.{bit_and-low_mask}
use bsp_v3s.Word.Pack.{bit_or-disjoint}
use bsp_v3s.Machine.Io.{Io, wr}
use bsp_v3s.Spi.{clk_ctl, speed_word, sunxi_spi_set_speed}

-- With DRS set, bit 12, and CDR2 in the low byte, the rate is 24 MHz / (2 * (CDR2 + 1)).
abbrev pub cdr2_rate : ℕ → ℕ
cdr2_rate w = 24000000 / (2 * (w % 256 + 1))

module _ (s : ℕ) (low : 46875 ≤ s) (high : s ≤ 12000000) where
  divider : ℕ
  divider = 24000000 / (2 * s)

  divider_fits : (1 ≤ divider) × (divider ≤ 256)
  unfolding divider
  divider_fits = (
    (le-div_iff_mul-le {k = 2 * s} {x = 1} {y = 24000000} (omega arith)).1 (omega arith),
    div-le_of_le-mul (2 * s) (omega arith),
  )

  chosen_word : speed_word s ≡ divider - 1 + 4096
  unfolding divider speed_word
  chosen_word =
      let clamped : max 3000 (min s 24000000) ≡ s = omega arith in
      let fits = divider_fits in
      let branch : leb (24000000 / (2 * s)) 256 ≡ true = ground (arith, fits.1) in
      let field : bit_and (24000000 / (2 * s) - 1) 0xff ≡ 24000000 / (2 * s) - 1 =
        omega (arith, bit_and-low_mask 8 (24000000 / (2 * s) - 1)) in
      rw (speed_word, clamped, branch, field)
        (bit_or-disjoint 12 (24000000 / (2 * s) - 1) 1 (omega arith))

  rate_not_below : s ≤ 24000000 / (2 * divider)
  unfolding divider
  rate_not_below =
      (le-div_iff_mul-le {k = 2 * (24000000 / (2 * s))} {x = s} {y = 24000000}
          (omega (arith, divider_fits))).1
        (omega (arith, div-mul-le_self 24000000 (2 * s)))

  next_below : 24000000 / (2 * (divider + 1)) < s
  unfolding divider
  next_below =
      (div-lt_iff_lt-mul {k = 2 * (24000000 / (2 * s) + 1)} {x = 24000000} {y = s} (omega arith)).1
        (omega (arith, lt-mul-div-succ 24000000 {b = 2 * s} (omega arith)))

-- A request from 46875 Hz to 12 MHz is one write of the clock register, with the divider of the second
-- kind, whose rate is not below the request, while the next slower one is below it. So the rate is
-- above the request wherever no divider gives it exactly.
pub set_speed-rate :
    (speed : ℕ) (s : Io)
    → 46875 ≤ speed
    → speed ≤ 12000000
    → (w : ℕ) × (sunxi_spi_set_speed speed s
        ≡ (pos 0, record { input = s.input; log = wr clk_ctl w ∷ s.log }))
      × (w / 4096 ≡ 1)
      × (speed ≤ cdr2_rate w)
      × (24000000 / (2 * (w % 256 + 2)) < speed)
unfolding sunxi_spi_set_speed
set_speed-rate speed s low high =
    let d = divider speed low high in
    let (least, most) = divider_fits speed low high in
    let field : (d - 1 + 4096) % 256 + 1 ≡ d = omega arith in
    let next : (d - 1 + 4096) % 256 + 2 ≡ d + 1 = omega arith in
    (
      d - 1 + 4096,
      rw (chosen_word speed low high) refl,
      omega arith,
      rw field (rate_not_below speed low high),
      rw next (next_below speed low high),
    )
