-- ===== src/Clk/Rates.antt =====
-- The rate that is read back after it was set.
use native.Mathlib.Nat.{div-one}
use bsp_v3s.Common.{
  ℕ, ◌-◌, ◌*◌, ◌/◌, ◌==◌, ◌≤◌, ◌<◌, ◌≡◌, false, ◌∷◌, refl, arith, bit_and, bit_or, sym, ◌∙◌, ap,
}
use bsp_v3s.Word.{shl32, shr, sub32}
use bsp_v3s.Word.Field.{field, bit_and-low_mask}
use bsp_v3s.Word.Pack.{field-bit_or, field-shl32_self, field-shl32_ne, zero-bit_or, or-zero}
use bsp_v3s.Word.Mask.{shr-bit_and_mask}
use bsp_v3s.Machine.Io.{Io, wr}
use bsp_v3s.Clk.{pll3_cfg, video_word, clock_set_pll3, clock_get_pll3}

-- The fields of the register of the video PLL, less one each.
module _ (n m : ℕ) (n_from : 1 ≤ n) (n_to : n ≤ 128) (m_from : 1 ≤ m) (m_to : m ≤ 16) where
  word :
      video_word n m
      ≡ bit_or (bit_or (bit_or (shl32 1 31) (shl32 1 24)) (shl32 (n - 1) 8)) (shl32 (m - 1) 0)
  word =
      let a : bit_and (sub32 n 1) 0x7f ≡ n - 1 = bit_and-low_mask 7 (sub32 n 1) ∙ omega arith in
      let b : bit_and (sub32 m 1) 0xf ≡ shl32 (m - 1) 0 =
        bit_and-low_mask 4 (sub32 m 1) ∙ omega arith in
      rw (a, b) refl

  n_field : shr (bit_and (video_word n m) 0x7f00) 8 ≡ n - 1
  n_field =
      rw
        (
          shr-bit_and_mask (video_word n m) 8 7 (omega arith),
          word,
          field-bit_or,
          field-bit_or,
          field-bit_or,
          field-shl32_ne 1 31 1 8 7 (omega arith) (omega arith) (omega arith),
          field-shl32_ne 1 24 1 8 7 (omega arith) (omega arith) (omega arith),
          field-shl32_self (n - 1) 8 7 (omega arith) (omega arith),
          field-shl32_ne (m - 1) 0 4 8 7 (omega arith) (omega arith) (omega arith),
          zero-bit_or,
          or-zero,
        )
        refl

  low_field : field (video_word n m) 0 4 ≡ m - 1
  low_field =
      rw
        (
          word,
          field-bit_or,
          field-bit_or,
          field-bit_or,
          field-shl32_ne 1 31 1 0 4 (omega arith) (omega arith) (omega arith),
          field-shl32_ne 1 24 1 0 4 (omega arith) (omega arith) (omega arith),
          field-shl32_ne (n - 1) 8 7 0 4 (omega arith) (omega arith) (omega arith),
          field-shl32_self (m - 1) 0 4 (omega arith) (omega arith),
          zero-bit_or,
        )
        refl

  m_field : bit_and (video_word n m) 0xf ≡ m - 1
  m_field = ap (λ (y : ℕ). bit_and y 0xf) (sym (div-one (video_word n m))) ∙ low_field

get_pll3-video_word :
    (n : ℕ) (s : Io)
    → 1 ≤ n
    → n ≤ 128
    → s.input 0 ≡ video_word n 8
    → (clock_get_pll3 s).0 ≡ n * 3000000
unfolding clock_get_pll3
get_pll3-video_word n s from to here =
    rw
      (
        here,
        n_field n 8 from to (omega arith) (omega arith),
        m_field n 8 from to (omega arith) (omega arith),
      )
      (omega arith)

-- Setting the video PLL to a rate from 3 MHz up to below 387 MHz is one write of its register;
-- while the register then delivers the word that was written, the rate read back is the one asked
-- for, rounded down to a multiple of 3 MHz.
pub get_pll3-set_pll3 :
    (clk : ℕ) (s s' : Io)
    → 3000000 ≤ clk
    → clk < 387000000
    → (w : ℕ) × ((clock_set_pll3 clk s).1.log ≡ wr pll3_cfg w ∷ s.log)
      × (s'.input 0 ≡ w → (clock_get_pll3 s').0 ≡ clk / 3000000 * 3000000)
unfolding clock_set_pll3
get_pll3-set_pll3 clk s s' from to =
    let not_off : (clk == 0) ≡ false = ground arith in
    (
      video_word (clk / 3000000) 8,
      rw (clock_set_pll3, not_off) refl,
      λ here. get_pll3-video_word (clk / 3000000) s' (omega arith) (omega arith) here,
    )
