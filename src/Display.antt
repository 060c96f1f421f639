-- ===== src/Display.antt =====
-- uboot/sunxi_display.c: the clock of the panel, as it is built for this chip, with a parallel panel
-- and without double clocks.
pub mod Pll
use bsp_v3s.Common.{
  ℕ, zero, suc, ◌+◌, ◌-◌, ◌*◌, ◌/◌, ◌==◌, ltb, leb, if◌then◌else◌, Bool, true, false, ◌&&◌, bit_or,
  bit_and, min, ℤ, pos, negsuc,
}
use bsp_v3s.Machine.Io.{M, pure, readl, writel, ◌>>=◌, ◌>>◌}
use bsp_v3s.Word.{sub32}
use bsp_v3s.Clk.{clock_set_pll3}

-- best_n, best_m and best_diff.
pub record Best : Type 0 where
  pub best_n : ℕ
  pub best_m : ℕ
  pub best_diff : ℕ

abbrev pub no_best : Best
no_best = record { best_n = 0; best_m = 0; best_diff = 0x0FFFFFFF }

-- The factor of a divider, whether the PLL has it, and how far the clock is below `dotclock`: it is
-- never above, so that the difference is not negative.
unfoldable pub factor : ℕ → ℕ → ℕ
factor dotclock m = m * dotclock / 3000

unfoldable pub in_pll : ℕ → Bool
in_pll n = leb 9 n && leb n 127

unfoldable pub clock_diff : ℕ → ℕ → ℕ
unfolding factor
clock_diff dotclock m = dotclock - 3000 * factor dotclock m / m

-- One round of the loop.
unfoldable pub try_divider : ℕ → ℕ → Best → Best
unfolding factor in_pll clock_diff
try_divider dotclock m best =
    if in_pll (factor dotclock m) && ltb (clock_diff dotclock m) best.best_diff
    then record { best_n = factor dotclock m; best_m = m; best_diff = clock_diff dotclock m }
    else best

-- The loop from `m` on, of `left` rounds.
unfoldable pub search_divider : ℕ → ℕ → ℕ → Best → Best
unfolding try_divider
search_divider dotclock zero m best = best
search_divider dotclock (suc left) m best =
    search_divider dotclock left (m + 1) (try_divider dotclock m best)

-- min_m to max_m is 6 to 127 for TCON 0 and 1 to 15 for TCON 1.
unfoldable pub best_divider : ℕ → ℕ → Best
unfolding search_divider
best_divider tcon dotclock =
    if tcon == 0
    then search_divider dotclock 122 6 no_best
    else search_divider dotclock 15 1 no_best

abbrev pub lcd0_ch0_clk_cfg : ℕ
lcd0_ch0_clk_cfg = 0x118

abbrev pub lcd0_ch1_clk_cfg : ℕ
lcd0_ch1_clk_cfg = 0x12c

-- `composite` is sunxi_is_composite(); its bit is 0 on this chip. What is stored through `clk_div` and
-- `clk_double`.
unfoldable pub sunxi_lcdc_pll_set : Bool → ℕ → ℕ → M (ℕ × ℕ)
unfolding best_divider
sunxi_lcdc_pll_set composite tcon dotclock = do
  let best = best_divider tcon dotclock
  clock_set_pll3 (best.best_n * 3000000)
  elim (tcon == 0) [
    | true ↦ writel 0x80000000 lcd0_ch0_clk_cfg
    | false ↦ do
      writel (bit_or 0x80000000 (bit_and (sub32 best.best_m 1) 0xf)) lcd0_ch1_clk_cfg
      elim composite [
        | true ↦ do v ← readl lcd0_ch1_clk_cfg; writel (bit_or v 0) lcd0_ch1_clk_cfg
        | false ↦ pure tt
      ]
  ]
  pure (best.best_m, 0)

-- struct ctfb_res_modes, the fields that the clock delay and the timings use; sunxi_lcdc_get_clk_delay
-- with `interlaced` the test of vmode. A sum below 2 is negative after the subtraction, and has the
-- bits of a 32-bit word then.
abbrev pub sunxi_lcdc_get_clk_delay : ℕ → ℕ → ℕ → Bool → ℕ → ℤ
sunxi_lcdc_get_clk_delay lower_margin vsync_len upper_margin interlaced tcon =
    let lines = lower_margin + vsync_len + upper_margin in
    let delay = if interlaced then lines / 2 else lines in
    if tcon == 1
    then (if ltb delay 2 then negsuc (1 - delay) else pos (min (delay - 2) 30))
    else pos (min delay 30)
