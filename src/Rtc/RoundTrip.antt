-- ===== src/Rtc/RoundTrip.antt =====
-- What sun6i_rtc_settime writes is what sun6i_rtc_gettime reads.
use native.Mathlib.Nat.{mod-eq_of_lt, div-one, pow-le-pow_right}
use bsp_v3s.Common.{
  ℕ, suc, ◌+◌, ◌-◌, ◌^◌, ◌≤◌, ◌<◌, bit_and, bit_or, if◌then◌else◌, some, ◌≡◌, refl, arith,
  Bool-cases, inl, inr, ap, sym, ◌∙◌,
}
use bsp_v3s.Word.{u32, shl32, sub32}
use bsp_v3s.Word.Field.{field, bit_and-low_mask}
use bsp_v3s.Word.Pack.{field-bit_or, field-shl32_self, field-shl32_ne, zero-bit_or, or-zero}
use bsp_v3s.Word.Mask.{bit_and-shl32_mask, shr-bit_and_mask}
use bsp_v3s.Machine.Io.{Io}
use bsp_v3s.Rtc.{
  Tm, is_leap_year, tm_of, date_word, time_word, read_stable, sun6i_rtc_gettime, rtc_valid_tm,
}

-- A structure whose fields fit the registers: a year from 1970 to 2033.
pub record Fits (t : Tm) : Type 0 where
  pub sec_fits : t.sec < 2 ^ 6
  pub min_fits : t.min < 2 ^ 6
  pub hour_fits : t.hour < 2 ^ 5
  pub mday_fits : t.mday < 2 ^ 5
  pub mon_fits : t.mon < 12
  pub year_from : 70 ≤ t.year
  pub year_to : t.year ≤ 133

unfoldable packed : ℕ → ℕ → ℕ → ℕ → ℕ
packed a b c top = bit_or (bit_or (bit_or (shl32 a 0) (shl32 b 8)) (shl32 c 16)) (shl32 top 22)

-- A word of three fields at 0, 8 and 16, and a part above them.
module _ (a b c wa wb wc top : ℕ) (ha : a < 2 ^ wa) (hb : b < 2 ^ wb) (hc : c < 2 ^ wc)
    (la : wa ≤ 8) (lb : wb ≤ 8) (lc : wc ≤ 6) (ht : top < 2 ^ 10) where
  field-packed_a : field (packed a b c top) 0 wa ≡ a
  unfolding packed
  field-packed_a =
      rw
        (
          field-bit_or,
          field-bit_or,
          field-bit_or,
          field-shl32_self a 0 wa ha (omega arith),
          field-shl32_ne b 8 wb 0 wa hb (omega arith) (omega arith),
          field-shl32_ne c 16 wc 0 wa hc (omega arith) (omega arith),
          field-shl32_ne top 22 10 0 wa ht (omega arith) (omega arith),
          or-zero,
          or-zero,
          or-zero,
        )
        refl

  field-packed_b : field (packed a b c top) 8 wb ≡ b
  unfolding packed
  field-packed_b =
      rw
        (
          field-bit_or,
          field-bit_or,
          field-bit_or,
          field-shl32_ne a 0 wa 8 wb ha (omega arith) (omega arith),
          field-shl32_self b 8 wb hb (omega arith),
          field-shl32_ne c 16 wc 8 wb hc (omega arith) (omega arith),
          field-shl32_ne top 22 10 8 wb ht (omega arith) (omega arith),
          zero-bit_or,
          or-zero,
          or-zero,
        )
        refl

  field-packed_c : field (packed a b c top) 16 wc ≡ c
  unfolding packed
  field-packed_c =
      rw
        (
          field-bit_or,
          field-bit_or,
          field-bit_or,
          field-shl32_ne a 0 wa 16 wc ha (omega arith) (omega arith),
          field-shl32_ne b 8 wb 16 wc hb (omega arith) (omega arith),
          field-shl32_self c 16 wc hc (omega arith),
          field-shl32_ne top 22 10 16 wc ht (omega arith) (omega arith),
          zero-bit_or,
          or-zero,
        )
        refl

low_mask : (x w : ℕ) → x < 2 ^ w → w ≤ 32 → bit_and x (2 ^ w - 1) ≡ shl32 x 0
low_mask x w h l =
    rw (bit_and-low_mask, mod-eq_of_lt h)
      (omega (arith, pow-le-pow_right {n = 2} (omega arith) {i = w} {j = 32} l))

time-packed : (t : Tm) → Fits t → time_word t ≡ packed t.sec t.min t.hour 0
unfolding time_word packed
time-packed t f =
    rw
      (
        bit_and-shl32_mask t.min 8 6 f.min_fits (omega arith),
        bit_and-shl32_mask t.hour 16 5 f.hour_fits (omega arith),
        low_mask t.sec 6 f.sec_fits (omega arith),
        or-zero,
      )
      refl

-- The bit of a leap year.
abbrev leap_bit : Tm → ℕ
leap_bit t = if is_leap_year (u32 (t.year + 1900)) then 1 else 0

date-packed :
    (t : Tm) → Fits t → date_word t ≡ packed t.mday (u32 (t.mon + 1)) (sub32 t.year 70) (leap_bit t)
unfolding date_word packed
date-packed t f = elim (Bool-cases (is_leap_year (u32 (t.year + 1900)))) [
  | inl e ↦ rw (e, masked) refl
  | inr e ↦ rw (e, masked, or-zero) refl
]
  where
    mon_ok : u32 (t.mon + 1) < 2 ^ 4
    mon_ok = omega (arith, f.mon_fits)

    year_small : sub32 t.year 70 < 2 ^ 6
    year_small = omega (arith, f.year_from, f.year_to)

    masked :
        bit_or
          (bit_or (bit_and t.mday 0x1f) (bit_and (shl32 (u32 (t.mon + 1)) 8) 0xf00))
          (bit_and (shl32 (sub32 t.year 70) 16) 0x3f0000)
        ≡ bit_or (bit_or (shl32 t.mday 0) (shl32 (u32 (t.mon + 1)) 8)) (shl32 (sub32 t.year 70) 16)
    masked =
        rw
          (
            bit_and-shl32_mask (u32 (t.mon + 1)) 8 4 mon_ok (omega arith),
            bit_and-shl32_mask (sub32 t.year 70) 16 6 year_small (omega arith),
            low_mask t.mday 5 f.mday_fits (omega arith),
          )
          refl

low_field : (x w : ℕ) → bit_and x (2 ^ w - 1) ≡ field x 0 w
low_field x w = ap (λ (y : ℕ). bit_and y (2 ^ w - 1)) (sym (div-one x))

tm_of_time :
    (t : Tm) (date : ℕ)
    → Fits t
    → ((tm_of date (time_word t)).sec ≡ t.sec)
      × ((tm_of date (time_word t)).min ≡ t.min)
      × ((tm_of date (time_word t)).hour ≡ t.hour)
unfolding tm_of
tm_of_time t date f = rw (time-packed t f) (
  low_field _ 6
      ∙ field-packed_a t.sec t.min t.hour 6 6 5 0 f.sec_fits f.min_fits f.hour_fits (omega arith)
          (omega arith) (omega arith) (omega arith),
  shr-bit_and_mask _ 8 6 (omega arith)
      ∙ field-packed_b t.sec t.min t.hour 6 6 5 0 f.sec_fits f.min_fits f.hour_fits (omega arith)
          (omega arith) (omega arith) (omega arith),
  shr-bit_and_mask _ 16 5 (omega arith)
      ∙ field-packed_c t.sec t.min t.hour 6 6 5 0 f.sec_fits f.min_fits f.hour_fits (omega arith)
          (omega arith) (omega arith) (omega arith),
)

tm_of_date :
    (t : Tm) (time : ℕ)
    → Fits t
    → ((tm_of (date_word t) time).mday ≡ t.mday)
      × ((tm_of (date_word t) time).mon ≡ t.mon)
      × ((tm_of (date_word t) time).year ≡ t.year)
unfolding tm_of
tm_of_date t time f =
    let m = u32 (t.mon + 1) in
    let y = sub32 t.year 70 in
    let mon_ok : m < 2 ^ 4 = omega (arith, f.mon_fits) in
    let year_small : y < 2 ^ 6 = omega (arith, f.year_from, f.year_to) in
    let top_ok : leap_bit t < 2 ^ 10 = ground arith in
    let day =
      field-packed_a t.mday m y 5 4 6 (leap_bit t) f.mday_fits mon_ok year_small (omega arith)
        (omega arith) (omega arith) top_ok in
    let month =
      field-packed_b t.mday m y 5 4 6 (leap_bit t) f.mday_fits mon_ok year_small (omega arith)
        (omega arith) (omega arith) top_ok in
    let yr =
      field-packed_c t.mday m y 5 4 6 (leap_bit t) f.mday_fits mon_ok year_small (omega arith)
        (omega arith) (omega arith) top_ok in
    rw (date-packed t f) (
      low_field _ 5 ∙ day,
      rw (shr-bit_and_mask _ 8 4 (omega arith), month) (omega (arith, f.mon_fits)),
      rw (shr-bit_and_mask _ 16 6 (omega arith), yr) (omega (arith, f.year_from, f.year_to)),
    )

tm_of-words : (t : Tm) → Fits t → tm_of (date_word t) (time_word t) ≡ t
tm_of-words t f =
    let (sec, min, hour) = tm_of_time t (date_word t) f in
    let (mday, mon, year) = tm_of_date t (time_word t) f in
    λ i. record {
      sec = sec i;
      min = min i;
      hour = hour i;
      mday = mday i;
      mon = mon i;
      year = year i;
    }

read_stable_once :
    (fuel date time : ℕ) (s : Io)
    → s.input 0 ≡ date
    → s.input 1 ≡ time
    → s.input 2 ≡ date
    → s.input 3 ≡ time
    → (read_stable (suc fuel) s).0 ≡ some (date, time)
unfolding read_stable
read_stable_once fuel date time s a b c d = ground arith

-- Let the fields of a structure fit the registers, the month below 12 and the year from 1970 to
-- 2033. Reading the clock while it holds, over one round of readings, the two words that
-- sun6i_rtc_settime writes for the structure gives the structure back, with the result of the check
-- of its validity.
pub gettime-settime :
    (fuel : ℕ) (t : Tm) (s : Io)
    → Fits t
    → s.input 0 ≡ date_word t
    → s.input 1 ≡ time_word t
    → s.input 2 ≡ date_word t
    → s.input 3 ≡ time_word t
    → (sun6i_rtc_gettime (suc fuel) s).0 ≡ some (rtc_valid_tm t, t)
unfolding sun6i_rtc_gettime
gettime-settime fuel t s f a b c d =
    rw (read_stable_once fuel (date_word t) (time_word t) s a b c d)
      (ap (λ (u : Tm). some (rtc_valid_tm u, u)) (tm_of-words t f))
