-- ===== src/Gpio/Ops.antt =====
-- The pin operations of sunxi_gpio.c and pinmux.c as reads and writes of one field of a pin.
use bsp_v3s.Common.{ℕ, ◌+◌, ◌==◌, if◌then◌else◌, ◌≡◌, refl, arith}
use bsp_v3s.Word.{shl32}
use bsp_v3s.Word.Field.{bit_or-clrset, bit_and-not32-clrset}
use bsp_v3s.Machine.{Regs, IsRegs}
use bsp_v3s.Machine.Slot.{slot_put}
use bsp_v3s.Gpio.{
  bank_to_gpio, gpio_bank, gpio_num, dat_at, sunxi_gpio_set_cfgpin, sunxi_gpio_get_cfgpin,
  sunxi_gpio_set_drv, sunxi_gpio_set_pull, sunxi_gpio_output_pin, sunxi_gpio_input_pin,
}
use bsp_v3s.Gpio.Pin.{cfg, drv, pull, dat, pin_slot, pin_get}

pub set_cfgpin-slot_put :
    (p v : ℕ) (m : Regs) → sunxi_gpio_set_cfgpin p v m ≡ slot_put (pin_slot cfg p) v m
unfolding sunxi_gpio_set_cfgpin
set_cfgpin-slot_put p v m = refl

pub set_pull-slot_put :
    (p v : ℕ) (m : Regs) → sunxi_gpio_set_pull p v m ≡ slot_put (pin_slot pull p) v m
unfolding sunxi_gpio_set_pull
set_pull-slot_put p v m = refl

pub set_drv-slot_put :
    (p v : ℕ) (m : Regs) → sunxi_gpio_set_drv p v m ≡ slot_put (pin_slot drv p) v m
unfolding sunxi_gpio_set_drv
set_drv-slot_put p v m = refl

-- A truth value as the bit that stands for it.
abbrev pub truth : ℕ → ℕ
truth v = if v == 0 then 0 else 1

pub output_pin-slot_put :
    (p v : ℕ) (m : Regs)
    → IsRegs m
    → sunxi_gpio_output_pin p v m ≡ slot_put (pin_slot dat p) (truth v) m
unfolding sunxi_gpio_output_pin
output_pin-slot_put p v m h =
    let a = bank_to_gpio (gpio_bank p) + dat_at in
    let mask = shl32 1 (gpio_num p) in
    ground (arith, bit_and-not32-clrset (m a) mask (h a), bit_or-clrset (m a) mask (h a))

pub get_cfgpin-pin_get : (p : ℕ) (m : Regs) → sunxi_gpio_get_cfgpin m p ≡ pin_get m cfg p
unfolding sunxi_gpio_get_cfgpin
get_cfgpin-pin_get p m = refl

pub input_pin-pin_get : (p : ℕ) (m : Regs) → sunxi_gpio_input_pin m p ≡ pin_get m dat p
unfolding sunxi_gpio_input_pin
input_pin-pin_get p m = refl
