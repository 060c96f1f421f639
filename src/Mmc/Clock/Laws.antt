-- ===== src/Mmc/Clock/Laws.antt =====
-- The rate that mmc_set_mod_clk programs.
use native.Mathlib.Nat.{le_refl, mul-le-mul_right}
use bsp_v3s.Common.{
  ℕ, ◌+◌, ◌-◌, ◌*◌, ◌^◌, ◌≤◌, ◌<◌, leb, ltb, if◌then◌else◌, ◌≡◌, ◌↔◌, refl, arith, Option, none,
  some, Bool-cases, inl, inr,
}
use bsp_v3s.Word.{shl32}
use bsp_v3s.Word.Field.{field}
use bsp_v3s.Word.Pack.{field-bit_or, field-shl32_self, field-shl32_ne, zero-bit_or, or-zero}
use bsp_v3s.Mmc.Clock.{
  Divider, halve, first_div, oclk_dly, sclk_dly, mod_clk_word, mmc_set_mod_clk, parent_hz,
}
use bsp_v3s.Mmc.Clock.Rounds.{Halved, halve-Halved, first_div_iff, first_div_pos, first_div_le}

-- The fields of the register value.
abbrev pub div_field : ℕ → ℕ
div_field w = field w 0 4

abbrev pub n_field : ℕ → ℕ
n_field w = field w 16 2

dly_lt : (hz : ℕ) → (oclk_dly hz < 2 ^ 3) × (sclk_dly hz < 2 ^ 3)
dly_lt hz = ground arith

module _ (sel hz : ℕ) (d : Divider) (sel_ok : sel < 2) (n_ok : d.n ≤ 3) (pos : 0 < d.div)
    (div_ok : d.div ≤ 16) where
  low : d.div - 1 ≡ shl32 (d.div - 1) 0
  low = omega arith

  div_field-mod_clk_word : div_field (mod_clk_word (shl32 sel 24) hz d) ≡ d.div - 1
  div_field-mod_clk_word =
      rw
        (
          low,
          field-bit_or,
          field-bit_or,
          field-bit_or,
          field-bit_or,
          field-bit_or,
          field-shl32_ne 1 31 1 0 4 (omega arith) (omega arith) (omega arith),
          field-shl32_ne sel 24 1 0 4 sel_ok (omega arith) (omega arith),
          field-shl32_ne (sclk_dly hz) 20 3 0 4 (dly_lt hz).1 (omega arith) (omega arith),
          field-shl32_ne d.n 16 2 0 4 (omega arith) (omega arith) (omega arith),
          field-shl32_ne (oclk_dly hz) 8 3 0 4 (dly_lt hz).0 (omega arith) (omega arith),
          field-shl32_self (d.div - 1) 0 4 (omega arith) (omega arith),
          zero-bit_or,
        )
        low

  n_field-mod_clk_word : n_field (mod_clk_word (shl32 sel 24) hz d) ≡ d.n
  n_field-mod_clk_word =
      rw
        (
          low,
          field-bit_or,
          field-bit_or,
          field-bit_or,
          field-bit_or,
          field-bit_or,
          field-shl32_ne 1 31 1 16 2 (omega arith) (omega arith) (omega arith),
          field-shl32_ne sel 24 1 16 2 sel_ok (omega arith) (omega arith),
          field-shl32_ne (sclk_dly hz) 20 3 16 2 (dly_lt hz).1 (omega arith) (omega arith),
          field-shl32_self d.n 16 2 (omega arith) (omega arith),
          field-shl32_ne (oclk_dly hz) 8 3 16 2 (dly_lt hz).0 (omega arith) (omega arith),
          field-shl32_ne (d.div - 1) 0 4 16 2 (omega arith) (omega arith) (omega arith),
          zero-bit_or,
          or-zero,
          or-zero,
        )
        refl

-- The choice of the divider for a parent clock of `p` Hz, chosen by `sel`.
abbrev programmed : ℕ → ℕ → ℕ → Option ℕ
programmed p sel hz =
    let d = halve 32 0 (first_div p hz) in
    if ltb 3 d.n then none else some (mod_clk_word (shl32 sel 24) hz d)

module _ (p sel hz : ℕ) (sel_ok : sel < 2) (pos : 0 < hz) (ppos : 0 < p) (small : p < 2 ^ 32) where
  chosen : Halved (first_div p hz) 0 (halve 32 0 (first_div p hz))
  chosen =
      halve-Halved 32 0 (first_div p hz) (first_div_pos p hz pos ppos)
        (omega (arith, first_div_le p hz pos))

  programmed-none : (programmed p sel hz ≡ none) ↔ (128 * hz < p)
  programmed-none =
      let h = chosen in ground (arith, h.counted, h.least 3, first_div_iff p hz 128 pos)

  rate_le : (d : Divider) → Halved (first_div p hz) 0 d → p ≤ hz * d.div * 2 ^ d.n
  rate_le d h =
      let covered : p ≤ first_div p hz * hz =
        (first_div_iff p hz (first_div p hz) pos).0 (le_refl _) in
      let scaled : first_div p hz * hz ≤ d.div * 2 ^ h.rounds * hz = mul-le-mul_right hz h.covers in
      let same : d.n ≡ h.rounds = omega (arith, h.counted) in rw same (omega arith)

  programmed-some :
      (word : ℕ)
      → programmed p sel hz ≡ some word
      → p ≤ hz * (div_field word + 1) * 2 ^ n_field word
  programmed-some word e =
      let d = halve 32 0 (first_div p hz) in
      let h = chosen in
      let bounded : d.n ≤ 3 = ground arith in
      let is : mod_clk_word (shl32 sel 24) hz d ≡ word = ground arith in
      let back : div_field word + 1 ≡ d.div =
        rw (← is, div_field-mod_clk_word sel hz d sel_ok bounded h.positive h.small)
          (omega (arith, h.positive)) in
      let back_n : n_field word ≡ d.n =
        rw (← is) (n_field-mod_clk_word sel hz d sel_ok bounded h.positive h.small) in
      rw (back, back_n) (rate_le d h)

-- mmc_set_mod_clk refuses a rate exactly where the parent clock is more than 128 times as fast, and
-- otherwise programs a divider whose rate does not exceed the one asked for: the quotient is 1 to 16,
-- the shift at most 3, both as they read back from the register value.
pub mmc_set_mod_clk_lem :
    (pll6_hz hz : ℕ)
    → 0 < hz
    → 0 < pll6_hz
    → pll6_hz < 2 ^ 32
    → let p = parent_hz pll6_hz hz in
      ((mmc_set_mod_clk pll6_hz hz ≡ none) ↔ (128 * hz < p))
      × ((word : ℕ)
          → mmc_set_mod_clk pll6_hz hz ≡ some word
          → p ≤ hz * (div_field word + 1) * 2 ^ n_field word)
unfolding mmc_set_mod_clk
mmc_set_mod_clk_lem pll6_hz hz pos ppos small = elim (Bool-cases (leb hz 24000000)) [
  | inl slow ↦ rw slow (
    programmed-none 24000000 0 hz (omega arith) pos (omega arith) (omega arith),
    programmed-some 24000000 0 hz (omega arith) pos (omega arith) (omega arith),
  )
  | inr fast ↦ rw fast (
    programmed-none pll6_hz 1 hz (omega arith) pos ppos small,
    programmed-some pll6_hz 1 hz (omega arith) pos ppos small,
  )
]
