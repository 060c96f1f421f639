-- ===== src/Mmc/Ios.antt =====
-- uboot/sunxi_mmc.c: the clock and the bus width of the host.
use bsp_v3s.Common.{
  ℕ, ◌==◌, bit_and, bit_or, if◌then◌else◌, true, false, Option, none, some, ℤ, pos, is_neg,
}
use bsp_v3s.Word.{not32}
use bsp_v3s.Mmc.Regs.{width, failed, gctrl, clkcr, width, gctrl_reset}
use bsp_v3s.Machine.Io.{M, pure, readl, writel, udelay, ◌>>=◌, ◌>>◌}
use bsp_v3s.Mmc.{mmc_update_clk}

-- The host's clock configuration: mmc_config_clock, with the value that mmc_set_mod_clk gives for
-- the clock register of the module, if any.
unfoldable pub mmc_config_clock : Option ℕ → ℕ → M ℤ
unfolding mmc_update_clk
mmc_config_clock mod_clk mclkreg = do
  v ← readl clkcr
  let off = bit_and v (not32 65536)
  writel off clkcr
  e ← mmc_update_clk
  elim (is_neg e) [
    | true ↦ pure failed
    | false ↦ elim mod_clk [
      | none ↦ pure failed
      | some w ↦ do
        writel w mclkreg
        let base = bit_and off (not32 0xff)
        writel base clkcr
        writel (bit_or base 65536) clkcr
        e' ← mmc_update_clk
        pure (if is_neg e' then failed else pos 0)
    ]
  ]

-- The new `fatal_err`; `mod_clk` is the value that mmc_set_mod_clk gives for a rate, if any.
unfoldable pub sunxi_mmc_set_ios : (ℕ → Option ℕ) → ℕ → ℕ → ℕ → ℕ → M ℕ
unfolding mmc_config_clock
sunxi_mmc_set_ios mod_clk mclkreg fatal_err clock bus_width = do
  e ← elim (clock == 0) [ true ↦ pure (pos 0) | false ↦ mmc_config_clock (mod_clk clock) mclkreg ]
  elim (is_neg e) [
    | true ↦ pure 1
    | false ↦ do
      elim (bus_width == 8) [
        | true ↦ writel 0x2 width
        | false ↦ elim (bus_width == 4) [
          | true ↦ writel 0x1 width
          | false ↦ elim (bus_width == 1) [ true ↦ writel 0x0 width | false ↦ pure tt ]
        ]
      ]
      pure fatal_err
  ]

-- The new `fatal_err`.
unfoldable pub sunxi_mmc_core_init : M ℕ
sunxi_mmc_core_init = do writel gctrl_reset gctrl; udelay 1000; pure 0
