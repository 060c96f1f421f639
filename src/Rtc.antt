-- ===== src/Rtc.antt =====
-- uboot/rtc-sun6i.c: the real-time clock. Addresses are offsets in its registers.
pub mod RoundTrip
pub mod Set
pub mod Wait
use bsp_v3s.Common.{
  ℕ, zero, suc, ◌+◌, ◌*◌, ◌/◌, ◌%◌, ◌-◌, ◌^◌, ◌==◌, ltb, bit_and, bit_or, if◌then◌else◌, Bool, true,
  false, not, ◌&&◌, ◌||◌, Option, none, some, List, [], ◌∷◌, get_elem?, ℤ, pos, negsuc,
}
use bsp_v3s.Word.{u32, shl32, shr, sub32}
use bsp_v3s.Machine.Io.{Io, M, pure, readl, writel, udelay, ◌>>=◌, ◌>>◌}

-- The fields of `struct tm` that the driver uses; each is the word of a C int.
pub record Tm : Type 0 where
  pub sec : ℕ
  pub min : ℕ
  pub hour : ℕ
  pub mday : ℕ
  pub mon : ℕ
  pub year : ℕ

abbrev pub losc_ctrl : ℕ
losc_ctrl = 0x0000

abbrev pub rtc_ymd : ℕ
rtc_ymd = 0x0010

abbrev pub rtc_hms : ℕ
rtc_hms = 0x0014

-- The order of two C ints.
abbrev pub int_lt : ℕ → ℕ → Bool
int_lt a b = ltb (u32 (a + 2147483648)) (u32 (b + 2147483648))

unfoldable pub is_leap_year : ℕ → Bool
is_leap_year year = ((year % 4 == 0) && not (year % 100 == 0)) || (year % 400 == 0)

abbrev days : List ℕ
days = 31 ∷ 28 ∷ 31 ∷ 30 ∷ 31 ∷ 30 ∷ 31 ∷ 31 ∷ 30 ∷ 31 ∷ 30 ∷ 31 ∷ []

-- rtc_days_in_month; the only caller has checked that the month is below 12.
unfoldable pub rtc_days_in_month : ℕ → ℕ
rtc_days_in_month month = elim (get_elem? days month) [ none ↦ 0 | some d ↦ d ]

unfoldable pub rtc_month_days : ℕ → ℕ → ℕ
unfolding is_leap_year rtc_days_in_month
rtc_month_days month year =
    rtc_days_in_month month + (if is_leap_year year && (month == 1) then 1 else 0)

-- -EINVAL, -ETIMEDOUT and -EBUSY
abbrev pub einval : ℤ
einval = negsuc 21

abbrev pub etimedout : ℤ
etimedout = negsuc 109

abbrev pub ebusy : ℤ
ebusy = negsuc 15

unfoldable pub rtc_valid_tm : Tm → ℤ
unfolding rtc_month_days
rtc_valid_tm t =
    if int_lt t.year 70
      || not (ltb t.mon 12)
      || int_lt t.mday 1
      || int_lt (rtc_month_days t.mon (u32 (t.year + 1900))) t.mday
      || not (ltb t.hour 24)
      || not (ltb t.min 60)
      || not (ltb t.sec 60)
    then einval
    else pos 0

-- The fields of the two register words.
unfoldable pub tm_of : ℕ → ℕ → Tm
tm_of date time = record {
  sec = bit_and time 0x3f;
  min = shr (bit_and time 0x3f00) 8;
  hour = shr (bit_and time 0x1f0000) 16;
  mday = bit_and date 0x1f;
  mon = sub32 (shr (bit_and date 0xf00) 8) 1;
  year = u32 (shr (bit_and date 0x3f0000) 16 + 70);
}

-- Reads until two readings agree, at most `fuel` times; `none` is a loop that goes on. As in C, the
-- second time word is read only where the date words agree.
unfoldable pub read_stable : ℕ → M (Option (ℕ × ℕ))
read_stable zero = pure none
read_stable (suc fuel) = do
  date ← readl rtc_ymd
  time ← readl rtc_hms
  date' ← readl rtc_ymd
  elim (date == date') [
    | false ↦ read_stable fuel
    | true ↦ do
      time' ← readl rtc_hms
      elim (time == time') [ true ↦ pure (some (date, time)) | false ↦ read_stable fuel ]
  ]

unfoldable pub sun6i_rtc_gettime : ℕ → M (Option (ℤ × Tm))
unfolding read_stable tm_of rtc_valid_tm
sun6i_rtc_gettime fuel = do
  r ← read_stable fuel
  pure (elim r [ none ↦ none | some w ↦ some (rtc_valid_tm (tm_of w.0 w.1), tm_of w.0 w.1) ])

-- The words that are written; the year is relative to 1970, the month counts from 1.
unfoldable pub date_word : Tm → ℕ
unfolding is_leap_year
date_word t =
    let date =
      bit_or (bit_or (bit_and t.mday 0x1f) (bit_and (shl32 (u32 (t.mon + 1)) 8) 0xf00))
        (bit_and (shl32 (sub32 t.year 70) 16) 0x3f0000) in
    if is_leap_year (u32 (t.year + 1900)) then bit_or date (bit_and (shl32 1 22) 0x400000) else date

unfoldable pub time_word : Tm → ℕ
time_word t =
    bit_or (bit_or (bit_and t.sec 0x3f) (bit_and (shl32 t.min 8) 0x3f00))
      (bit_and (shl32 t.hour 16) 0x1f0000)

-- The range check of sun6i_rtc_settime.
abbrev pub year_ok : Tm → Bool
year_ok t = not (int_lt (u32 (t.year + 1900)) 1970 || int_lt 2033 (u32 (t.year + 1900)))

-- What sun6i_rtc_settime leaves in its caller's structure, whatever it returns.
unfoldable pub settime_tm : Tm → Tm
settime_tm t = if year_ok t then record t { mon = u32 (t.mon + 1); year = sub32 t.year 70 } else t

-- The rest of sun6i_rtc_settime after a wait: on with `next`, or out with `err`.
abbrev pub on_wait : Option ℤ → ℤ → M (Option ℤ) → M (Option ℤ)
on_wait r err next = elim r [
  | none ↦ pure none
  | some (pos zero) ↦ next
  | some (pos (suc n)) ↦ pure (some err)
  | some (negsuc n) ↦ pure (some err)
]

-- rt_tick_get() is a read of `tick`; get_timer(base) is its distance from `base`.
module _ (tick : ℕ) where
  -- `none` is a loop that goes on.
  unfoldable pub wait_loop : ℕ → ℕ → ℕ → ℕ → ℕ → M (Option ℤ)
  wait_loop zero start offset mask ms_timeout = pure none
  wait_loop (suc fuel) start offset mask ms_timeout = do
    reg ← readl offset
    elim (bit_and reg mask == 0) [
      | true ↦ pure (some (pos 0))
      | false ↦ do
        udelay 10
        now ← readl tick
        elim (ltb (sub32 now start) ms_timeout) [
          | true ↦ wait_loop fuel start offset mask ms_timeout
          | false ↦ pure (some etimedout)
        ]
    ]

  unfoldable pub sun6i_rtc_wait : ℕ → ℕ → ℕ → ℕ → M (Option ℤ)
  unfolding wait_loop
  sun6i_rtc_wait fuel offset mask ms_timeout = do
    start ← readl tick
    wait_loop fuel start offset mask ms_timeout

  unfoldable pub sun6i_rtc_settime : ℕ → Tm → M (Option ℤ)
  unfolding date_word time_word sun6i_rtc_wait
  sun6i_rtc_settime fuel t = elim (year_ok t) [
    | false ↦ pure (some einval)
    | true ↦ do
      a ← sun6i_rtc_wait fuel losc_ctrl 0x380 50
      on_wait a ebusy (do
        writel (time_word t) rtc_hms
        b ← sun6i_rtc_wait fuel losc_ctrl 0x100 50
        on_wait b etimedout (do
          writel (date_word t) rtc_ymd
          c ← sun6i_rtc_wait fuel losc_ctrl 0x80 50
          on_wait c etimedout (pure (some (pos 0)))))
  ]

unfoldable pub sun6i_rtc_probe : M ℤ
sun6i_rtc_probe = do
  writel 0 0x0020
  writel 0 0x0028
  writel 0 0x002c
  writel 0 0x0044
  writel 0 0x0048
  writel 1 0x0030
  writel 1 0x004c
  writel 0 0x0050
  writel (bit_or (shl32 0x16aa 16) 1) losc_ctrl
  pure (pos 0)
