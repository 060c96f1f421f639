-- ===== src/Wdt.antt =====
-- uboot/sunxi_wdt.c and driver/drv_wdt.c: the watchdog. Addresses are offsets in its registers, those
-- of the table sun6i_wdt_reg.
pub mod Control
use bsp_v3s.Common.{
  ℕ, zero, suc, ◌+◌, ◌*◌, ◌/◌, ◌%◌, ◌-◌, ◌^◌, ◌==◌, ltb, bit_and, bit_or, if◌then◌else◌, Bool, true,
  false, Option, none, some, List, [], ◌∷◌, get_elem?, ℤ, pos, negsuc,
}
use bsp_v3s.Word.{u32, shl32, not32}
use bsp_v3s.Machine.Io.{M, pure, readl, writel, ◌>>=◌, ◌>>◌}

abbrev pub wdt_ctrl : ℕ
wdt_ctrl = 0x10

abbrev pub wdt_cfg : ℕ
wdt_cfg = 0x14

abbrev pub wdt_mode : ℕ
wdt_mode = 0x18

abbrev pub ctrl_reload : ℕ
ctrl_reload = 0x14af

-- By seconds; a gap in the initialiser is 0. `none` is a read past the end.
abbrev pub wdt_timeout_map : ℕ → Option ℕ
wdt_timeout_map i =
    get_elem?
      (0 ∷ 0x1 ∷ 0x2 ∷ 0x3 ∷ 0x4 ∷ 0x5 ∷ 0x6 ∷ 0 ∷ 0x7 ∷ 0 ∷ 0x8 ∷ 0 ∷ 0x9 ∷ 0 ∷ 0xA ∷ 0 ∷ 0xB ∷ [])
      i

unfoldable pub sunxi_wdt_ping : M ℤ
sunxi_wdt_ping = do writel ctrl_reload wdt_ctrl; pure (pos 0)

-- The seconds that are looked up, and their entry; `none` where the lookup leaves the map.
unfoldable pub timeout_entry : ℕ → Option (ℕ × ℕ)
timeout_entry timeout = elim (wdt_timeout_map timeout) [
  | none ↦ none
  | some zero ↦ elim (wdt_timeout_map (timeout + 1)) [
    | none ↦ none
    | some v ↦ some (timeout + 1, v)
  ]
  | some (suc v) ↦ some (timeout, suc v)
]

-- `none` is a read outside wdt_timeout_map, which C leaves undefined.
unfoldable pub sunxi_wdt_set_timeout : ℕ → M (Option ℤ)
unfolding timeout_entry sunxi_wdt_ping
sunxi_wdt_set_timeout timeout = elim (timeout_entry timeout) [
  | none ↦ pure none
  | some e ↦ do
    reg ← readl wdt_mode
    writel (bit_or (bit_and reg (not32 (shl32 0x0F 4))) (shl32 e.1 4)) wdt_mode
    p ← sunxi_wdt_ping
    pure (some (pos 0))
]

unfoldable pub sunxi_wdt_stop : M ℤ
sunxi_wdt_stop = do writel 0 wdt_mode; pure (pos 0)

unfoldable pub sunxi_wdt_start : ℕ → M (Option ℤ)
unfolding sunxi_wdt_set_timeout
sunxi_wdt_start timeout = do
  ret ← sunxi_wdt_set_timeout timeout
  elim ret [
    | none ↦ pure none
    | some e ↦ do
      reg ← readl wdt_cfg
      writel (bit_or (bit_and reg (not32 0x03)) 0x01) wdt_cfg
      reg' ← readl wdt_mode
      writel (bit_or reg' 1) wdt_mode
      pure (some (pos 0))
  ]

unfoldable pub sunxi_wdt_probe : M ℤ
unfolding sunxi_wdt_stop
sunxi_wdt_probe = sunxi_wdt_stop

-- `cmd` and, for the timeout, the seconds at `arg`, the word of a C int.
pub data WdtCmd : Type 0 where
  set_timeout : ℕ → WdtCmd
  start : WdtCmd
  stop : WdtCmd
  keepalive : WdtCmd
  other : WdtCmd

-- `msecs` of `secs` seconds: the product is the word of a C int, negative from 2^31 on.
unfoldable pub clamp_msecs : ℕ → ℕ
clamp_msecs secs =
    let msecs = u32 (secs * 1000) in
    if ltb 2147483647 msecs
    then 1000
    else if ltb msecs 1000
    then 1000
    else if ltb 16000 msecs
    then 16000
    else msecs

-- _wdt_control: the new `msecs` of the device, and `none` where the driver left the map.
unfoldable pub wdt_control : WdtCmd → ℕ → M (Option ℕ)
unfolding clamp_msecs sunxi_wdt_start sunxi_wdt_stop sunxi_wdt_ping
wdt_control (set_timeout secs) msecs = pure (some (clamp_msecs secs))
wdt_control start msecs = do
  r ← sunxi_wdt_start (msecs / 1000)
  pure (elim r [ none ↦ none | some e ↦ some msecs ])
wdt_control stop msecs = do r ← sunxi_wdt_stop; pure (some msecs)
wdt_control keepalive msecs = do r ← sunxi_wdt_ping; pure (some msecs)
wdt_control other msecs = pure (some msecs)
