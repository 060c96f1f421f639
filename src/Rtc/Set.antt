-- ===== src/Rtc/Set.antt =====
-- What sun6i_rtc_settime writes, whatever the clock and the kernel's tick deliver.
use bsp_v3s.Common.{
  ℕ, zero, suc, ◌==◌, ltb, bit_and, ◌≡◌, ◌∙◌, ap, ◌⊎◌, inl, inr, refl, arith, true, false,
  Bool-cases, Option, none, some, List, [], ◌∷◌, ℤ, pos,
}
use bsp_v3s.Word.{sub32}
use bsp_v3s.Machine.Io.{Io, Access, rd, wr, delay, readl, udelay, writel, M}
use bsp_v3s.Rtc.{
  Tm, year_ok, date_word, time_word, rtc_hms, rtc_ymd, losc_ctrl, einval, ebusy, etimedout,
  wait_loop, sun6i_rtc_wait, on_wait, sun6i_rtc_settime,
}

-- The writes of a log.
abbrev pub writes : List Access → List Access
writes [] = []
writes (rd a v ∷ log) = writes log
writes (wr a v ∷ log) = wr a v ∷ writes log
writes (delay n ∷ log) = writes log

module _ (tick start offset mask ms : ℕ) where
  pub loop_ready :
      (fuel : ℕ) (s : Io)
      → (bit_and (s.input 0) mask == 0) ≡ true
      → wait_loop tick (suc fuel) start offset mask ms s ≡ (some (pos 0), (readl offset s).1)
  unfolding wait_loop
  loop_ready fuel s e = ground arith

  -- The state after a poll that found the clock busy.
  abbrev pub polled : Io → Io
  polled s = (readl tick (udelay 10 (readl offset s).1).1).1

  pub loop_again :
      (fuel : ℕ) (s : Io)
      → (bit_and (s.input 0) mask == 0) ≡ false
      → ltb (sub32 (s.input 1) start) ms ≡ true
      → wait_loop tick (suc fuel) start offset mask ms s
        ≡ wait_loop tick fuel start offset mask ms (polled s)
  unfolding wait_loop
  loop_again fuel s e f = ground arith

  pub loop_late :
      (fuel : ℕ) (s : Io)
      → (bit_and (s.input 0) mask == 0) ≡ false
      → ltb (sub32 (s.input 1) start) ms ≡ false
      → wait_loop tick (suc fuel) start offset mask ms s ≡ (some etimedout, polled s)
  unfolding wait_loop
  loop_late fuel s e f = ground arith

  -- A wait writes nothing, and ends with 0 or the timeout.
  abbrev Waited : List Access → Option ℤ × Io → Type 0
  Waited log r =
      (writes r.1.log ≡ writes log) × ((r.0 ≡ none) ⊎ (r.0 ≡ some (pos 0)) ⊎ (r.0 ≡ some etimedout))

  loop-Waited : (fuel : ℕ) (s : Io) → Waited s.log (wait_loop tick fuel start offset mask ms s)
  unfolding wait_loop
  loop-Waited zero s = (refl, inl refl)
  loop-Waited (suc fuel) s = elim (Bool-cases (bit_and (s.input 0) mask == 0)) [
    | inl e ↦ rw (loop_ready fuel s e) (refl, inr (inl refl))
    | inr e ↦ elim (Bool-cases (ltb (sub32 (s.input 1) start) ms)) [
      | inl f ↦ rw (loop_again fuel s e f) (loop-Waited fuel (polled s))
      | inr f ↦ rw (loop_late fuel s e f) (refl, inr (inr refl))
    ]
  ]

-- How a wait ends.
abbrev Ended : Option ℤ → Type 0
Ended r = (r ≡ none) ⊎ (r ≡ some (pos 0)) ⊎ (r ≡ some etimedout)

rtc_wait-Waited :
    (tick fuel offset mask ms : ℕ) (s : Io)
    → (writes (sun6i_rtc_wait tick fuel offset mask ms s).1.log ≡ writes s.log)
      × Ended (sun6i_rtc_wait tick fuel offset mask ms s).0
unfolding sun6i_rtc_wait
rtc_wait-Waited tick fuel offset mask ms s =
    loop-Waited tick (s.input 0) offset mask ms fuel (readl tick s).1

-- What holds of the rest of the function on each end of a wait holds after the wait.
after_wait :
    (P : Option ℤ × Io → Type 0) (r : Option ℤ) (err : ℤ) (next : M (Option ℤ)) (s : Io)
    → Ended r
    → P (none, s)
    → P (some err, s)
    → P (next s)
    → P (on_wait r err next s)
after_wait P r err next s (inl e) a b c = rw e a
after_wait P r err next s (inr (inl e)) a b c = rw e c
after_wait P r err next s (inr (inr e)) a b c = rw e b

-- The registers written, by the result.
abbrev pub SetBy : Tm → List Access → Option ℤ × Io → Type 0
SetBy t log r =
    let hms = wr rtc_hms (time_word t) ∷ writes log in
    let ymd = wr rtc_ymd (date_word t) ∷ hms in
    ((r.0 ≡ some (pos 0)) × (writes r.1.log ≡ ymd))
    ⊎ ((r.0 ≡ some ebusy) × (writes r.1.log ≡ writes log))
    ⊎ ((r.0 ≡ some etimedout) × ((writes r.1.log ≡ hms) ⊎ (writes r.1.log ≡ ymd)))
    ⊎ (r.0 ≡ none)

module _ (tick fuel : ℕ) (t : Tm) (s : Io) where
  w1 : Option ℤ × Io
  w1 = sun6i_rtc_wait tick fuel losc_ctrl 0x380 50 s

  w2 : Option ℤ × Io
  w2 = sun6i_rtc_wait tick fuel losc_ctrl 0x100 50 (writel (time_word t) rtc_hms w1.1).1

  w3 : Option ℤ × Io
  w3 = sun6i_rtc_wait tick fuel losc_ctrl 0x80 50 (writel (date_word t) rtc_ymd w2.1).1

  written1 : writes w1.1.log ≡ writes s.log
  unfolding w1
  written1 = (rtc_wait-Waited tick fuel losc_ctrl 0x380 50 s).0

  written2 : writes w2.1.log ≡ wr rtc_hms (time_word t) ∷ writes s.log
  unfolding w2
  written2 =
      (rtc_wait-Waited tick fuel losc_ctrl 0x100 50 (writel (time_word t) rtc_hms w1.1).1).0
      ∙ ap (λ l. wr rtc_hms (time_word t) ∷ l) written1

  written3 : writes w3.1.log ≡ wr rtc_ymd (date_word t) ∷ wr rtc_hms (time_word t) ∷ writes s.log
  unfolding w3
  written3 =
      (rtc_wait-Waited tick fuel losc_ctrl 0x80 50 (writel (date_word t) rtc_ymd w2.1).1).0
      ∙ ap (λ l. wr rtc_ymd (date_word t) ∷ l) written2

  settime-SetBy : year_ok t ≡ true → SetBy t s.log (sun6i_rtc_settime tick fuel t s)
  unfolding sun6i_rtc_settime w1 w2 w3
  settime-SetBy e =
      rw (sun6i_rtc_settime, e)
        (after_wait (SetBy t s.log) w1.0 ebusy _ w1.1
          (rtc_wait-Waited tick fuel losc_ctrl 0x380 50 s).1 (inr (inr (inr refl)))
          (inr (inl (refl, written1)))
          (after_wait (SetBy t s.log) w2.0 etimedout _ w2.1
            (rtc_wait-Waited tick fuel losc_ctrl 0x100 50 (writel (time_word t) rtc_hms w1.1).1).1
            (inr (inr (inr refl))) (inr (inr (inl (refl, inl written2))))
            (after_wait (SetBy t s.log) w3.0 etimedout _ w3.1
              (rtc_wait-Waited tick fuel losc_ctrl 0x80 50 (writel (date_word t) rtc_ymd w2.1).1).1
              (inr (inr (inr refl))) (inr (inr (inl (refl, inr written3))))
              (inl (refl, written3)))))

settime_bad_year :
    (tick fuel : ℕ) (t : Tm) (s : Io)
    → year_ok t ≡ false
    → sun6i_rtc_settime tick fuel t s ≡ (some einval, s)
unfolding sun6i_rtc_settime
settime_bad_year tick fuel t s e = rw (sun6i_rtc_settime, e) refl

-- Whatever the clock and the kernel's tick deliver: a year outside 1970 to 2033 is refused with
-- -EINVAL and without any access. Otherwise a result of 0 means that exactly the time word and then
-- the date word were written, -EBUSY that nothing was, and -ETIMEDOUT that the time word was, and
-- perhaps then the date word; there is no other result, `none` being a wait that goes on.
pub sun6i_rtc_settime_lem :
    (tick fuel : ℕ) (t : Tm) (s : Io)
    → (year_ok t ≡ false → sun6i_rtc_settime tick fuel t s ≡ (some einval, s))
      × (year_ok t ≡ true → SetBy t s.log (sun6i_rtc_settime tick fuel t s))
sun6i_rtc_settime_lem tick fuel t s = (settime_bad_year tick fuel t s, settime-SetBy tick fuel t s)
