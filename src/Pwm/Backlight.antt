-- ===== src/Pwm/Backlight.antt =====
-- driver/drv_pwm.c: the command that sets the brightness of the panel.
use bsp_v3s.Common.{ℕ, ◌*◌, ◌/◌, ltb, if◌then◌else◌, Option, none, some, ℤ, pos, negsuc}
use bsp_v3s.Machine.Io.{M, pure, ◌>>=◌, ◌>>◌}
use bsp_v3s.Pwm.{sun4i_pwm_config, sun4i_pwm_enable, sun4i_pwm_disable}

-- The percentage: what atol of the C library makes of the argument, if there is one, between 0 and 100.
abbrev pub percentage : Option ℤ → ℕ
percentage none = 100
percentage (some (negsuc n)) = 0
percentage (some (pos n)) = if ltb 100 n then 100 else n

-- The probe sets the clock of the PWM to 24 MHz.
unfoldable pub cmd_backlight : Option ℤ → M ℤ
cmd_backlight argument = do
  sun4i_pwm_disable 0
  a ← sun4i_pwm_config 24000000 0 (percentage argument * 2000000 / 100) 2000000
  b ← sun4i_pwm_enable 0
  pure (pos 0)
