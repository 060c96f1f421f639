-- ===== src/Timer.antt =====
-- uboot/timer.c: the tick timer and the delays. Addresses are offsets in `struct sunxi_timer_reg`;
-- the counter counts down from `load`, the file's TIMER_LOAD_VAL, and rt_tick_get() is a read of
-- `tick`. WATCHDOG_RESET does nothing here.
pub mod Delay
use bsp_v3s.Common.{
  ℕ, zero, suc, ◌+◌, ◌-◌, ◌*◌, ◌/◌, ◌==◌, ltb, if◌then◌else◌, Bool, true, false, not, ◌&&◌, min,
}
use bsp_v3s.Word.{u32, sub32}
use bsp_v3s.Machine.Io.{M, pure, readl, writel, ◌>>=◌, ◌>>◌}

abbrev pub timer_ctl : ℕ
timer_ctl = 0x10

abbrev pub timer_inter : ℕ
timer_inter = 0x14

abbrev pub timer_val : ℕ
timer_val = 0x18

unfoldable pub tick_read_timer : ℕ → M ℕ
tick_read_timer load = do v ← readl timer_val; pure (sub32 load v)

-- The new TIMER_LOAD_VAL.
unfoldable pub tick_timer_init : ℕ → M ℕ
tick_timer_init tick = do
  let load = 24000000 / tick
  writel load timer_val
  writel load timer_inter
  writel 7 timer_ctl
  writel 1 0x00
  pure load

unfoldable pub tick_timer_ack : M (Unit {0})
tick_timer_ack = writel 1 0x04

-- `tmo > 0` of a C long.
abbrev pub positive : ℕ → Bool
positive tmo = not (tmo == 0) && ltb tmo 2147483648

-- The time that passed, as the loop of __udelay takes it.
abbrev pub passed : ℕ → ℕ → ℕ → ℕ
passed load last now = if ltb last now then now - last else u32 (sub32 load last + now)

-- The loop with `tmo` counts to go; false is a loop that goes on.
unfoldable pub delay_loop : ℕ → ℕ → ℕ → ℕ → M Bool
unfolding tick_read_timer
delay_loop load zero tmo last = pure (not (positive tmo))
delay_loop load (suc fuel) tmo last = elim (positive tmo) [
  | false ↦ pure true
  | true ↦ do
    now ← tick_read_timer load
    delay_loop load fuel (sub32 tmo (passed load last now)) now
]

unfoldable pub udelay_count : ℕ → ℕ → ℕ → M Bool
unfolding delay_loop
udelay_count load fuel usec = do
  last ← tick_read_timer load
  delay_loop load fuel (u32 (usec * 24)) last

unfoldable pub get_timer : ℕ → ℕ → M ℕ
get_timer tick base = do v ← readl tick; pure (sub32 v base)

unfoldable pub timer_get_us : ℕ → M ℕ
timer_get_us tick = do v ← readl tick; pure (u32 (v * 1000))

-- The rounds of udelay: ten seconds at most in each, so `rounds` = `usec` + 1 is enough. False is a
-- delay that goes on.
unfoldable pub udelay_rounds : ℕ → ℕ → ℕ → ℕ → M Bool
unfolding udelay_count
udelay_rounds load fuel zero usec = pure false
udelay_rounds load fuel (suc rounds) usec = do
  let kv = min usec 10000000
  ok ← udelay_count load fuel kv
  elim (ok && not (usec - kv == 0)) [
    | true ↦ udelay_rounds load fuel rounds (usec - kv)
    | false ↦ pure ok
  ]

unfoldable pub mdelay : ℕ → ℕ → ℕ → M Bool
unfolding udelay_rounds
mdelay load fuel zero = pure true
mdelay load fuel (suc msec) = do
  ok ← udelay_rounds load fuel 1001 1000
  elim ok [ true ↦ mdelay load fuel msec | false ↦ pure false ]
