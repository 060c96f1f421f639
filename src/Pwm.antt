-- ===== src/Pwm.antt =====
-- uboot/pwm-sun4i.c: the pulse width modulator, both channels. Addresses are offsets in its
-- registers; `clk` is the rate that sun4i_pwm_probe stores, and both channels have the data of
-- sun4i_pwm_data_a20. Times in nanoseconds are not negative.
pub mod Divider
pub mod Config
pub mod Backlight
use bsp_v3s.Common.{
  ℕ, zero, suc, ◌+◌, ◌-◌, ◌*◌, ◌/◌, ◌%◌, ◌^◌, ◌==◌, ltb, leb, bit_and, bit_or, if◌then◌else◌, Bool,
  true, false, not, ◌&&◌, Option, none, some, List, [], ◌∷◌, get_elem?, ℤ, pos, negsuc,
}
use bsp_v3s.Word.{u32, shl32, not32, sub32}
use bsp_v3s.Machine.Io.{M, pure, readl, writel, ◌>>=◌, ◌>>◌}

abbrev table : List ℕ
table =
    120 ∷ 180 ∷ 240 ∷ 360 ∷ 480 ∷ 0 ∷ 0 ∷ 0 ∷ 12000 ∷ 24000 ∷ 36000 ∷ 48000 ∷ 72000 ∷ 0 ∷ 0 ∷ 0 ∷ []

-- The loop reads it below 15 only.
unfoldable pub prescaler_table : ℕ → ℕ
prescaler_table i = elim (get_elem? table i) [ none ↦ 0 | some d ↦ d ]

abbrev pub u64 : ℕ → ℕ
u64 n = n % 2 ^ 64

-- `div - 1 <= PWM_PRD_MASK` on 64 bits.
abbrev pub in_range : ℕ → Bool
in_range d = leb (u64 (d + 18446744073709551615)) 65535

-- The period in clock cycles, without a prescaler and with prescaler `p`.
abbrev pub bypass_div : ℕ → ℕ → ℕ
bypass_div clk period_ns = u64 (u64 (clk * period_ns) + 500000000) / 1000000000

unfoldable pub prescaled_div : ℕ → ℕ → ℕ → ℕ
unfolding prescaler_table
prescaled_div clk period_ns p = u64 (clk / prescaler_table p * period_ns) / 1000000000

-- The test that ends the loop at prescaler `p`.
abbrev pub usable : ℕ → ℕ → ℕ → Bool
usable clk period_ns p = not (prescaler_table p == 0) && in_range (prescaled_div clk period_ns p)

-- "Go up from the first divider", `n` to go: the prescaler and the quotient at the end of the loop.
unfoldable pub search_prescaler : ℕ → ℕ → ℕ → ℕ → ℕ → ℕ × ℕ
unfolding prescaler_table prescaled_div
search_prescaler clk period_ns zero p div = (p, div)
search_prescaler clk period_ns (suc n) p div =
    let d = prescaled_div clk period_ns p in
    let rest =
      search_prescaler clk period_ns n (p + 1) (if prescaler_table p == 0 then div else d) in
    if usable clk period_ns p then (p, d) else rest

-- The prescaler and the period in cycles; `none` is the return of -EINVAL.
unfoldable pub choose_prescaler : ℕ → ℕ → Option (ℕ × ℕ)
unfolding search_prescaler
choose_prescaler clk period_ns =
    let d = bypass_div clk period_ns in
    let found = search_prescaler clk period_ns 15 0 d in
    if in_range d then some (15, d) else if in_range found.1 then some found else none

abbrev pub pwm_ctrl : ℕ
pwm_ctrl = 0x0

-- PWM_CH_PRD(ch) and BIT_CH(bit, chan)
abbrev pub pwm_ch_prd : ℕ → ℕ
pwm_ch_prd ch = 4 + 4 * ch

abbrev pub bit_ch : ℕ → ℕ → ℕ
bit_ch bit chan = shl32 bit (chan * 15)

abbrev pub pwm_en : ℕ
pwm_en = 16

abbrev pub pwm_act_state : ℕ
pwm_act_state = 32

abbrev pub pwm_clk_gating : ℕ
pwm_clk_gating = 64

-- The value of the period register.
abbrev pub prd_word : ℕ → ℕ → ℕ → ℕ
prd_word prd duty_ns period_ns =
    bit_or (bit_and (u32 (u64 (prd * duty_ns) / period_ns)) 0xffff) (shl32 (sub32 (u32 prd) 1) 16)

-- -EINVAL and -EBUSY
abbrev pub einval : ℤ
einval = negsuc 21

abbrev pub ebusy : ℤ
ebusy = negsuc 15

-- The registers' part of sun4i_pwm_config.
unfoldable pub pwm_program : ℕ → ℕ → ℕ → M ℤ
pwm_program hwpwm prescaler prd_value = do
  val ← readl pwm_ctrl
  elim (bit_and val (shl32 1 (28 + hwpwm)) == 0) [
    | false ↦ pure ebusy
    | true ↦ do
      let clk_gate = bit_and val (bit_ch pwm_clk_gating hwpwm)
      elim (clk_gate == 0) [
        | true ↦ pure tt
        | false ↦ writel (bit_and val (not32 (bit_ch pwm_clk_gating hwpwm))) pwm_ctrl
      ]
      v ← readl pwm_ctrl
      writel (bit_or (bit_and v (not32 (bit_ch 15 hwpwm))) (bit_ch prescaler hwpwm)) pwm_ctrl
      writel prd_value (pwm_ch_prd hwpwm)
      elim (clk_gate == 0) [
        | true ↦ pure tt
        | false ↦ do w ← readl pwm_ctrl; writel (bit_or w clk_gate) pwm_ctrl
      ]
      pure (pos 0)
  ]

unfoldable pub sun4i_pwm_config : ℕ → ℕ → ℕ → ℕ → M ℤ
unfolding choose_prescaler pwm_program
sun4i_pwm_config clk hwpwm duty_ns period_ns = elim (choose_prescaler clk period_ns) [
  | none ↦ pure einval
  | some c ↦ pwm_program hwpwm c.0 (prd_word c.1 duty_ns period_ns)
]

unfoldable pub sun4i_pwm_set_polarity : ℕ → ℕ → M ℤ
sun4i_pwm_set_polarity hwpwm polarity = do
  val ← readl pwm_ctrl
  writel
      (if polarity == 0
        then bit_or val (bit_ch pwm_act_state hwpwm)
        else bit_and val (not32 (bit_ch pwm_act_state hwpwm)))
      pwm_ctrl
  pure (pos 0)

unfoldable pub sun4i_pwm_enable : ℕ → M ℤ
sun4i_pwm_enable hwpwm = do
  val ← readl pwm_ctrl
  writel (bit_or (bit_or val (bit_ch pwm_en hwpwm)) (bit_ch pwm_clk_gating hwpwm)) pwm_ctrl
  pure (pos 0)

unfoldable pub sun4i_pwm_disable : ℕ → M (Unit {0})
sun4i_pwm_disable hwpwm = do
  val ← readl pwm_ctrl
  writel (bit_and (bit_and val (not32 (bit_ch pwm_en hwpwm))) (not32 (bit_ch pwm_clk_gating hwpwm)))
      pwm_ctrl
