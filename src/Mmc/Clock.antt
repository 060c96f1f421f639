-- ===== src/Mmc/Clock.antt =====
-- mmc_set_mod_clk of uboot/sunxi_mmc.c: the divider of the controller's clock.
pub mod Rounds
pub mod Laws
use native.Mathlib.Nat.{
  pow-suc, one-le-pow, div-add-mod', div-lt_iff_lt-mul, le-div_iff_mul-le, mod-lt, le_refl,
  mul-le-mul_right, mul-le-mul_left,
}
use native.Mathlib.Numerals.{add-one}
use bsp_v3s.Common.{
  ℕ, zero, suc, ◌+◌, ◌-◌, ◌*◌, ◌/◌, ◌%◌, ◌^◌, ◌≤◌, ◌<◌, ◌==◌, leb, ltb, bit_or, if◌then◌else◌, ◌≡◌,
  ◌↔◌, refl, arith, Option, none, some, Bool, true, false, Bool-cases, ltb→lt, inl, inr, ap, dec_lt,
  sym,
}
use bsp_v3s.Word.{shl32}
use bsp_v3s.Word.Field.{field}
use bsp_v3s.Word.Pack.{field-bit_or, field-shl32_self, field-shl32_ne, zero-bit_or, or-zero}

pub record Divider : Type 0 where
  pub n : ℕ
  pub div : ℕ

-- `while (div > 16) { n++; div = (div + 1) / 2; }`; 32 rounds are enough for a word.
unfoldable pub halve : ℕ → ℕ → ℕ → Divider
halve zero n div = record { n = n; div = div }
halve (suc fuel) n div =
    let rest = halve fuel (n + 1) ((div + 1) / 2) in
    if ltb 16 div then rest else record { n = n; div = div }

-- `div = pll_hz / hz; if (pll_hz % hz) div++;`
abbrev pub first_div : ℕ → ℕ → ℕ
first_div pll_hz hz = if pll_hz % hz == 0 then pll_hz / hz else pll_hz / hz + 1

abbrev pub oclk_dly : ℕ → ℕ
oclk_dly hz = if leb hz 25000000 then 0 else if leb hz 50000000 then 3 else 1

abbrev pub sclk_dly : ℕ → ℕ
sclk_dly hz = if leb hz 400000 then 0 else if leb hz 25000000 then 5 else 4

abbrev pub mod_clk_word : ℕ → ℕ → Divider → ℕ
mod_clk_word pll hz d =
    bit_or
      (bit_or (bit_or (bit_or (bit_or (shl32 0x1 31) pll) (shl32 (sclk_dly hz) 20)) (shl32 d.n 16))
        (shl32 (oclk_dly hz) 8))
      (d.div - 1)

-- The value for the clock register; `none` is the return of -1. `pll6_hz` is clock_get_pll6().
unfoldable pub mmc_set_mod_clk : ℕ → ℕ → Option ℕ
unfolding halve
mmc_set_mod_clk pll6_hz hz =
    let slow = leb hz 24000000 in
    let pll = if slow then shl32 0x0 24 else shl32 0x1 24 in
    let d = halve 32 0 (first_div (if slow then 24000000 else pll6_hz) hz) in
    if ltb 3 d.n then none else some (mod_clk_word pll hz d)

-- The frequency that is divided.
abbrev pub parent_hz : ℕ → ℕ → ℕ
parent_hz pll6_hz hz = if leb hz 24000000 then 24000000 else pll6_hz
