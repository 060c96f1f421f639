-- ===== src/Wdt/Control.antt =====
-- The timeouts that the watchdog's commands program.
use bsp_v3s.Common.{ℕ, ◌+◌, ◌/◌, ◌^◌, ◌≤◌, ◌<◌, ◌≡◌, arith, bit_or, Option, some, ◌∷◌}
use bsp_v3s.Word.Field.{put_field}
use bsp_v3s.Machine.Io.{Io, rd, wr}
use bsp_v3s.Wdt.{
  wdt_ctrl, wdt_cfg, wdt_mode, ctrl_reload, wdt_timeout_map, timeout_entry, clamp_msecs,
}

-- What the map holds for the first number of seconds, from `timeout` on, that it has an entry for: that
-- number is `timeout`, or one more where `timeout` is a gap.
abbrev pub Entry : ℕ → ℕ → ℕ → Type 0
Entry timeout secs v =
    (wdt_timeout_map secs ≡ some v)
    × (0 < v)
    × (v < 2 ^ 4)
    × (timeout ≤ secs)
    × (secs ≤ timeout + 1)
    × ((k : ℕ) → timeout ≤ k → k < secs → wdt_timeout_map k ≡ some 0)

data Fits (timeout : ℕ) : Type 0 where
  fits : (secs v : ℕ) → timeout_entry timeout ≡ some (secs, v) → Entry timeout secs v → Fits timeout

pub clamp_msecs_lem : (secs : ℕ) → (1000 ≤ clamp_msecs secs) × (clamp_msecs secs ≤ 16000)
unfolding clamp_msecs
clamp_msecs_lem secs = ground arith

-- The log of a start: the timeout and the reload, the reset function, then the enable bit.
abbrev pub StartLog : ℕ → Io → Io → Type 0
StartLog v s s' =
    s'.log
    ≡ wr wdt_mode (bit_or (s.input 2) 1)
      ∷ rd wdt_mode (s.input 2)
      ∷ wr wdt_cfg (put_field (s.input 1) 0 2 1)
      ∷ rd wdt_cfg (s.input 1)
      ∷ wr wdt_ctrl ctrl_reload
      ∷ wr wdt_mode (put_field (s.input 0) 4 4 v)
      ∷ rd wdt_mode (s.input 0)
      ∷ s.log

abbrev pub Started : ℕ → Io → Option ℕ × Io → Type 0
Started msecs s r =
    (n : ℕ) × (v : ℕ) × Entry (msecs / 1000) n v × (r.0 ≡ some msecs) × StartLog v s r.1
