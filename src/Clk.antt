-- ===== src/Clk.antt =====
-- uboot/clock_sun6i.c: the clock unit. Addresses are offsets in `struct sunxi_ccm_reg`.
pub mod Rates
use bsp_v3s.Common.{
  ℕ, ◌+◌, ◌-◌, ◌*◌, ◌/◌, ◌==◌, ltb, bit_and, bit_or, if◌then◌else◌, Bool, true, false,
}
use bsp_v3s.Word.{u32, shl32, shr, not32, sub32}
use bsp_v3s.Machine.Io.{M, pure, readl, writel, udelay, ◌>>=◌, ◌>>◌}

abbrev pub pll3_cfg : ℕ
pll3_cfg = 0x10

abbrev pub pll5_cfg : ℕ
pll5_cfg = 0x20

abbrev pub pll10_cfg : ℕ
pll10_cfg = 0x48

abbrev setbits : ℕ → ℕ → M (Unit {0})
setbits a s = do v ← readl a; writel (bit_or v s) a

unfoldable pub clock_init_quirk : M (Unit {0})
clock_init_quirk = do setbits 0x60 16777216; setbits 0x2c0 16777216

-- With CONFIG_CONS_INDEX 1.
unfoldable pub clock_init_uart : M (Unit {0})
clock_init_uart = do writel 16777216 0x58; setbits 0x6c 65536; setbits 0x2d8 65536

-- CCM_PLL3_CTRL_N and _M, and those of PLL10, are these fields.
abbrev pub video_word : ℕ → ℕ → ℕ
video_word n m =
    bit_or (bit_or (bit_or 2147483648 16777216) (shl32 (bit_and (sub32 n 1) 0x7f) 8))
      (bit_and (sub32 m 1) 0xf)

unfoldable pub clock_set_pll3 : ℕ → M (Unit {0})
clock_set_pll3 clk = elim (clk == 0) [
  | true ↦ do v ← readl pll3_cfg; writel (bit_and v (not32 2147483648)) pll3_cfg
  | false ↦ writel (video_word (clk / 3000000) 8) pll3_cfg
]

unfoldable pub clock_set_pll3_factors : ℕ → ℕ → M (Unit {0})
clock_set_pll3_factors m n = writel (video_word n m) pll3_cfg

unfoldable pub clock_set_pll10 : ℕ → M (Unit {0})
clock_set_pll10 clk = elim (clk == 0) [
  | true ↦ do v ← readl pll10_cfg; writel (bit_and v (not32 2147483648)) pll10_cfg
  | false ↦ writel (video_word (clk / 12000000) 2) pll10_cfg
]

-- The factors `k` and `m` for a rate.
abbrev pub pll5_km : ℕ → ℕ × ℕ
pll5_km clk = if ltb 384000000 clk then (if ltb 768000000 clk then (2, 1) else (1, 1)) else (1, 2)

abbrev pub pll5_word : ℕ → ℕ × ℕ → Bool → ℕ
pll5_word clk km sigma =
    bit_or
      (bit_or
        (bit_or (bit_or (bit_or 2147483648 (if sigma then 16777216 else 0)) 1048576)
          (shl32 (bit_and (sub32 (clk / (24000000 * km.0 / km.1)) 1) 0x1f) 8))
        (shl32 (bit_and (km.0 - 1) 0x3) 4))
      (bit_and (km.1 - 1) 0x3)

unfoldable pub clock_set_pll5 : ℕ → Bool → M (Unit {0})
clock_set_pll5 clk sigma = do
  elim sigma [ true ↦ writel 3509596979 0x290 | false ↦ pure tt ]
  writel (pll5_word clk (pll5_km clk) sigma) pll5_cfg
  udelay 5500

-- In MHz, as the function computes it.
unfoldable pub clock_get_pll1 : M ℕ
clock_get_pll1 = do
  rval ← readl 0x00
  let n = shr (bit_and rval 0x1f00) 8 + 1
  let k = shr (bit_and rval 0x30) 4 + 1
  let m = bit_and rval 0x3 + 1
  pure (24 * n * k / m)

unfoldable pub clock_get_pll3 : M ℕ
clock_get_pll3 = do
  rval ← readl pll3_cfg
  let n = shr (bit_and rval 0x7f00) 8 + 1
  let m = bit_and rval 0xf + 1
  pure (u32 (24000 * n / m * 1000))

-- Half of a C int, as a word; the int is negative from 2^31 on.
abbrev pub half_int : ℕ → ℕ
half_int x = if ltb x 2147483648 then x / 2 else u32 (4294967296 - (4294967296 - x) / 2)

unfoldable pub clock_get_pll6 : M ℕ
clock_get_pll6 = do
  rval ← readl 0x28
  let n = shr (bit_and rval 0x1f00) 8 + 1
  let k = shr (bit_and rval 0x30) 4 + 1
  pure (half_int (u32 (24000000 * n * k)))

unfoldable pub clock_get_mipi_pll : M ℕ
unfolding clock_get_pll3
clock_get_mipi_pll = do
  rval ← readl 0x40
  let n = shr (bit_and rval 0xf00) 8 + 1
  let k = shr (bit_and rval 0x30) 4 + 1
  let m = bit_and rval 0xf + 1
  src ← clock_get_pll3
  pure (u32 (src / 1000 * n * k / m * 1000))
