-- ===== src/Examples/Devices.antt =====
-- The drivers on a device that delivers given values.
use bsp_v3s.Mmc.Tf.{ReqCmd, Monitor, mmc_mci_request, monitor_round, request-monitor}
use bsp_v3s.Spi.Log.{tx_of, rx_of, back}
use bsp_v3s.Spi.Returns.{xfer_whole}
use bsp_v3s.Spi.{Priv, sunxi_spi_xfer, clk_ctl, sunxi_spi_set_speed}
use bsp_v3s.Spi.Speed.{cdr2_rate, set_speed-rate}
use bsp_v3s.Common.{
  ℕ, zero, suc, ◌+◌, ◌*◌, ◌/◌, ◌%◌, ◌^◌, ◌≤◌, ◌<◌, ◌≡◌, ◌≢◌, ◌↔◌, refl, arith, List, [], ◌∷◌, ◌++◌,
  none, some, true, false, length, pos, ltb, if◌then◌else◌, inl, inr,
}
use bsp_v3s.Machine.Io.{Io, rd, wr}
use bsp_v3s.Mmc.Regs.{fifo, fifo_empty, fifo_full, failed}
use bsp_v3s.Mmc.{mmc_rint_wait, read_words, write_words, sunxi_mmc_send_cmd, MmcCmd, stop}
use bsp_v3s.Mmc.Clock.{mmc_set_mod_clk}
use bsp_v3s.Mmc.Clock.Laws.{div_field, n_field, mmc_set_mod_clk_lem}
use bsp_v3s.Mmc.Wait.{DoneAt, mmc_rint_wait_iff}
use bsp_v3s.Mmc.Fifo.{Transfer, sent, read_words-Transfer, write_words-Transfer}
use bsp_v3s.Mmc.Cmd.{Cleaned, sunxi_mmc_send_cmd_lem}
use bsp_v3s.Rtc.{
  year_ok, einval, sun6i_rtc_settime, Tm, date_word, time_word, rtc_valid_tm, sun6i_rtc_gettime,
}
use bsp_v3s.Rtc.Set.{SetBy, sun6i_rtc_settime_lem}
use bsp_v3s.Rtc.RoundTrip.{Fits, gettime-settime}
use bsp_v3s.Clk.{pll3_cfg, clock_set_pll3, clock_get_pll3}
use bsp_v3s.Clk.Rates.{get_pll3-set_pll3}
use bsp_v3s.Pwm.{sun4i_pwm_config}
use bsp_v3s.Pwm.Config.{Configured, pwm_config-Configured}

-- A device that delivers 4 at every read.
abbrev fours : Io
fours = record { input = λ n. 4; log = [] }

mmc_set_mod_clk_lem_example :
    ((mmc_set_mod_clk 600000000 50000000 ≡ none) ↔ (6400000000 < 600000000))
    × ((word : ℕ)
        → mmc_set_mod_clk 600000000 50000000 ≡ some word
        → 600000000 ≤ 50000000 * (div_field word + 1) * 2 ^ n_field word)
mmc_set_mod_clk_lem_example =
    mmc_set_mod_clk_lem 600000000 50000000 (omega arith) (omega arith) (omega arith)

mmc_rint_wait_iff_example :
    ((mmc_rint_wait 3 4 fours).0 ≡ pos 0) ↔ ((k : ℕ) × (k < 3) × DoneAt (λ n. 4) 4 k)
mmc_rint_wait_iff_example = mmc_rint_wait_iff 3 4 fours

read_words-Transfer_example :
    let r = read_words 2 5 [] fours in
    Transfer (rd fifo) fifo_empty [] [] r.1.log r.0.1 × (r.0.0 ≡ true → length r.0.1 ≡ 2)
read_words-Transfer_example = read_words-Transfer 2 5 fours

write_words-Transfer_example :
    let r = write_words (λ i. i + 10) 2 0 5 fours in
    (k : ℕ) × (k ≤ 2)
    × (r.0 ≡ true → k ≡ 2)
    × Transfer (λ v. wr fifo v) fifo_full [] [] r.1.log (sent (λ i. i + 10) 0 k [])
write_words-Transfer_example = write_words-Transfer (λ i. i + 10) 2 5 fours

-- Command 8 of a card.
abbrev if_cond : MmcCmd
if_cond = record { cmdidx = 8; resp_type = 21; cmdarg = 426 }

abbrev not_fatal : ℕ
not_fatal = 0

sunxi_mmc_send_cmd_lem_example :
    let r = sunxi_mmc_send_cmd not_fatal if_cond none fours in
    (not_fatal ≢ 0 → r ≡ (stop failed [], fours))
    × (not_fatal ≡ 0 → if_cond.cmdidx ≡ 12 → r ≡ (stop (pos 0) [], fours))
    × (not_fatal ≡ 0 → if_cond.cmdidx ≢ 12 → Cleaned r.0.error r.1.log)
sunxi_mmc_send_cmd_lem_example = sunxi_mmc_send_cmd_lem not_fatal if_cond none fours

-- 29 February 2024, 23:59:58.
abbrev leap_day : Tm
leap_day = record { sec = 58; min = 59; hour = 23; mday = 29; mon = 1; year = 124 }

-- A clock that holds it.
abbrev clock_input : ℕ → ℕ
clock_input zero = date_word leap_day
clock_input (suc zero) = time_word leap_day
clock_input (suc (suc n)) = clock_input n

abbrev clock : Io
clock = record { input = clock_input; log = [] }

leap_day-Fits : Fits leap_day
leap_day-Fits = record {
  sec_fits = omega arith;
  min_fits = omega arith;
  hour_fits = omega arith;
  mday_fits = omega arith;
  mon_fits = omega arith;
  year_from = omega arith;
  year_to = omega arith;
}

gettime-settime_example : (sun6i_rtc_gettime 1 clock).0 ≡ some (rtc_valid_tm leap_day, leap_day)
gettime-settime_example = gettime-settime 0 leap_day clock leap_day-Fits refl refl refl refl

pwm_config-Configured_example :
    Configured 24000000 1 500000 2000000 fours (sun4i_pwm_config 24000000 1 500000 2000000 fours)
pwm_config-Configured_example =
    pwm_config-Configured 24000000 1 500000 2000000 fours (omega arith) (omega arith) (omega arith)
      (omega arith)

get_pll3-set_pll3_example :
    (w : ℕ) × ((clock_set_pll3 100000000 fours).1.log ≡ wr pll3_cfg w ∷ [])
    × (4 ≡ w → (clock_get_pll3 fours).0 ≡ 99000000)
get_pll3-set_pll3_example = get_pll3-set_pll3 100000000 fours fours (omega arith) (omega arith)

sun6i_rtc_settime_lem_example :
    (year_ok leap_day ≡ false → sun6i_rtc_settime 0xf000 3 leap_day fours ≡ (some einval, fours))
    × (year_ok leap_day ≡ true → SetBy leap_day [] (sun6i_rtc_settime 0xf000 3 leap_day fours))
sun6i_rtc_settime_lem_example = sun6i_rtc_settime_lem 0xf000 3 leap_day fours

abbrev stop_request : ReqCmd
stop_request = record { cmd_code = 12; arg = 0; resp = 2; payload = none }

abbrev read_request : ReqCmd
read_request = record { cmd_code = 18; arg = 0; resp = 1; payload = none }

request-monitor_example :
    let r =
      mmc_mci_request 0 4 read_request (some stop_request) (record { input = λ n. 0; log = [] }) in
    let m : Monitor = record { status = 1; plug = 1; err = r.0.2 } in
    (r.0.2 ≡ 0) × (monitor_round 1 true 0 m ≡ (false, m))
request-monitor_example =
    request-monitor 4 read_request stop_request (record { input = λ n. 0; log = [] }) 1 0 1 1 refl

set_speed-rate_example :
    (w : ℕ) × (sunxi_spi_set_speed 10000000 (record { input = λ n. 0; log = [] })
      ≡ (pos 0, record { input = λ n. 0; log = wr clk_ctl w ∷ [] }))
    × (w / 4096 ≡ 1)
    × (10000000 ≤ cdr2_rate w)
    × (24000000 / (2 * (w % 256 + 2)) < 10000000)
set_speed-rate_example =
    set_speed-rate 10000000 (record { input = λ n. 0; log = [] }) (omega arith) (omega arith)

abbrev spi_priv : Priv
spi_priv = record { activate_delay_us = 0; deactivate_delay_us = 5; last_transaction_us = 0 }

-- A device that shows 63 bytes in its first round of 100, and 37 in the other.
abbrev two_rounds : Io
two_rounds = record { input = λ k. if ltb k 66 then 63 else 37; log = [] }

xfer_whole_example :
    (bs : List ℕ) × (p' : Priv) × (length bs ≡ 100)
    × ((sunxi_spi_xfer 1 0 spi_priv (100 * 8) 0 (some (λ i. i)) 3 two_rounds).0
        ≡ some (pos 0, p', bs))
    × (rx_of (sunxi_spi_xfer 1 0 spi_priv (100 * 8) 0 (some (λ i. i)) 3 two_rounds).1.log
        ≡ bs ++ [])
    × (tx_of (sunxi_spi_xfer 1 0 spi_priv (100 * 8) 0 (some (λ i. i)) 3 two_rounds).1.log
        ≡ back (λ i. i) 0 100 [])
xfer_whole_example =
    xfer_whole 1 0 refl 0 3 (λ i. i) spi_priv 100 two_rounds (omega arith)
      (inr (
        0,
        omega arith,
        λ j lt. absurd (omega arith),
        omega arith,
        inr (0, omega arith, λ j lt. absurd (omega arith), omega arith, inl refl),
      ))
