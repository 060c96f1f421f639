-- ===== src/Gpio.antt =====
-- uboot/sunxi_gpio.c, uboot/pinmux.c and driver/drv_gpio.c over the register store. A pin is
-- 32 * bank + number; each pin has a 4-bit function field, a 2-bit drive field, a 2-bit pull field
-- and a data bit. `&pio->cfg[0] + index` is the byte address `pio + 4 * index`.
pub mod Pin
pub mod Name
pub mod Ops
pub mod SetMode
pub mod Output
use bsp_v3s.Common.{ℕ, ◌+◌, ◌-◌, ◌*◌, ◌/◌, ◌%◌, ◌^◌, ◌==◌, ltb, bit_and, bit_or, if◌then◌else◌}
use bsp_v3s.Word.{u8, shl32, shr, not32}
use bsp_v3s.Machine.{Regs, readl, writel, clrsetbits_le32}

abbrev pub sunxi_pio_base : ℕ
sunxi_pio_base = 0x01c20800

abbrev pub sunxi_r_pio_base : ℕ
sunxi_r_pio_base = 0x01f02c00

abbrev pub sunxi_gpio_l : ℕ
sunxi_gpio_l = 11

abbrev pub sunxi_gpio_input : ℕ
sunxi_gpio_input = 0

abbrev pub sunxi_gpio_output : ℕ
sunxi_gpio_output = 1

abbrev pub gpio_bank : ℕ → ℕ
gpio_bank pin = shr pin 5

abbrev pub gpio_num : ℕ → ℕ
gpio_num pin = bit_and pin 0x1f

-- The address of a bank's `struct sunxi_gpio`, which is 9 words long.
abbrev pub bank_to_gpio : ℕ → ℕ
bank_to_gpio bank =
    if ltb bank sunxi_gpio_l
    then sunxi_pio_base + 36 * bank
    else sunxi_r_pio_base + 36 * (bank - sunxi_gpio_l)

-- The byte offsets of `dat`, `drv` and `pull` in `struct sunxi_gpio`; `cfg` is at 0.
abbrev pub dat_at : ℕ
dat_at = 16

abbrev pub drv_at : ℕ
drv_at = 20

abbrev pub pull_at : ℕ
pull_at = 28

abbrev pub gpio_cfg_index : ℕ → ℕ
gpio_cfg_index pin = shr (bit_and pin 0x1f) 3

abbrev pub gpio_cfg_offset : ℕ → ℕ
gpio_cfg_offset pin = shl32 (bit_and (bit_and pin 0x1f) 0x7) 2

-- The drive and the pull registers have one layout (GPIO_DRV_* and GPIO_PULL_*).
abbrev pub gpio_pull_index : ℕ → ℕ
gpio_pull_index pin = shr (bit_and pin 0x1f) 4

abbrev pub gpio_pull_offset : ℕ → ℕ
gpio_pull_offset pin = shl32 (bit_and (bit_and pin 0x1f) 0xf) 1

pub sunxi_gpio_set_cfgbank : ℕ → ℕ → ℕ → Regs → Regs
sunxi_gpio_set_cfgbank pio bank_offset val =
    let offset = gpio_cfg_offset bank_offset in
    clrsetbits_le32 (pio + 4 * gpio_cfg_index bank_offset) (shl32 0xf offset) (shl32 val offset)

pub sunxi_gpio_set_cfgpin : ℕ → ℕ → Regs → Regs
unfolding sunxi_gpio_set_cfgbank
sunxi_gpio_set_cfgpin pin val = sunxi_gpio_set_cfgbank (bank_to_gpio (gpio_bank pin)) pin val

pub sunxi_gpio_get_cfgbank : Regs → ℕ → ℕ → ℕ
sunxi_gpio_get_cfgbank m pio bank_offset =
    bit_and (shr (readl m (pio + 4 * gpio_cfg_index bank_offset)) (gpio_cfg_offset bank_offset)) 0xf

pub sunxi_gpio_get_cfgpin : Regs → ℕ → ℕ
unfolding sunxi_gpio_get_cfgbank
sunxi_gpio_get_cfgpin m pin = sunxi_gpio_get_cfgbank m (bank_to_gpio (gpio_bank pin)) pin

pub sunxi_gpio_set_drv : ℕ → ℕ → Regs → Regs
sunxi_gpio_set_drv pin val =
    let offset = gpio_pull_offset pin in
    clrsetbits_le32 (bank_to_gpio (gpio_bank pin) + drv_at + 4 * gpio_pull_index pin)
      (shl32 0x3 offset) (shl32 val offset)

pub sunxi_gpio_set_pull : ℕ → ℕ → Regs → Regs
sunxi_gpio_set_pull pin val =
    let offset = gpio_pull_offset pin in
    clrsetbits_le32 (bank_to_gpio (gpio_bank pin) + pull_at + 4 * gpio_pull_index pin)
      (shl32 0x3 offset) (shl32 val offset)

-- The data bit of a pin, driven by `val` as a truth value.
pub sunxi_gpio_output_pin : ℕ → ℕ → Regs → Regs
sunxi_gpio_output_pin pin val m =
    let a = bank_to_gpio (gpio_bank pin) + dat_at in
    let dat = readl m a in
    let mask = shl32 0x1 (gpio_num pin) in
    writel (if val == 0 then bit_and dat (not32 mask) else bit_or dat mask) a m

pub sunxi_gpio_input_pin : Regs → ℕ → ℕ
sunxi_gpio_input_pin m pin =
    bit_and (shr (readl m (bank_to_gpio (gpio_bank pin) + dat_at)) (gpio_num pin)) 0x1

pub gpio_direction_output : ℕ → ℕ → Regs → Regs
unfolding sunxi_gpio_set_cfgpin sunxi_gpio_output_pin
gpio_direction_output gpio value m =
    sunxi_gpio_output_pin gpio value (sunxi_gpio_set_cfgpin gpio sunxi_gpio_output m)

-- The fields of a mode word: what to set, the function, the pull and the drive.
abbrev pub mode_nibble : ℕ → ℕ → ℕ
mode_nibble mode k = u8 (bit_and (shr mode (4 * k)) 0xf)

-- The result is C's return value: 1 where the word asks for nothing.
pub gpio_set_mode : ℕ → ℕ → Regs → ℕ × Regs
unfolding sunxi_gpio_set_cfgpin sunxi_gpio_set_pull sunxi_gpio_set_drv
gpio_set_mode gpio mode m =
    let enable = mode_nibble mode 0 in
    let m1 =
      if bit_and enable 0x1 == 0 then m else sunxi_gpio_set_cfgpin gpio (mode_nibble mode 1) m in
    let m2 =
      if bit_and enable 0x2 == 0 then m1 else sunxi_gpio_set_pull gpio (mode_nibble mode 2) m1 in
    let m3 =
      if bit_and enable 0x4 == 0 then m2 else sunxi_gpio_set_drv gpio (mode_nibble mode 3) m2 in
    if enable == 0 then (1, m) else (0, m3)

-- driver/board.h
abbrev pub pin_type : ℕ → ℕ
pin_type x = bit_or 0x1 (shl32 x 4)

abbrev pub pull_up : ℕ
pull_up = bit_or 0x2 (shl32 1 8)

abbrev pub pull_no : ℕ
pull_no = bit_or 0x2 (shl32 0 8)

-- `pin_mode` of driver/drv_gpio.c; the numbers of the modes are the kernel's.
pub data PinMode : Type 0 where
  output output_od other : PinMode

pub pin_mode : ℕ → PinMode → Regs → Regs
unfolding gpio_set_mode
pin_mode pin output m = (gpio_set_mode pin (bit_or (pin_type sunxi_gpio_output) pull_up) m).1
pin_mode pin output_od m = (gpio_set_mode pin (bit_or (pin_type sunxi_gpio_output) pull_no) m).1
pin_mode pin other m = (gpio_set_mode pin (bit_or (pin_type sunxi_gpio_input) pull_up) m).1

unfoldable pub gpio_direction_input : ℕ → Regs → Regs
unfolding sunxi_gpio_set_cfgpin
gpio_direction_input gpio m = sunxi_gpio_set_cfgpin gpio sunxi_gpio_input m

abbrev pub gpio_get_value : Regs → ℕ → ℕ
gpio_get_value m gpio = sunxi_gpio_input_pin m gpio

abbrev pub gpio_set_value : ℕ → ℕ → Regs → Regs
gpio_set_value gpio value m = sunxi_gpio_output_pin gpio value m

-- The pin operations of driver/drv_gpio.c.
abbrev pub pin_write : ℕ → ℕ → Regs → Regs
pin_write pin value m = gpio_set_value pin value m

abbrev pub pin_read : Regs → ℕ → ℕ
pin_read m pin = gpio_get_value m pin
