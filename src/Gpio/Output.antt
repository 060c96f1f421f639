-- ===== src/Gpio/Output.antt =====
-- gpio_direction_output and the data bit of uboot/sunxi_gpio.c.
use bsp_v3s.Common.{
  ℕ, ◌^◌, ◌<◌, ◌==◌, if◌then◌else◌, ◌≡◌, arith, ap, inl, inr, ◌∙◌, Bool-cases, ==_iff,
}
use bsp_v3s.Machine.{Regs, IsRegs}
use bsp_v3s.Machine.Slot.{slot_put, slot_get-slot_put_self, slot_put-IsRegs}
use bsp_v3s.Gpio.{
  sunxi_gpio_output_pin, sunxi_gpio_input_pin, gpio_direction_output, sunxi_gpio_output,
}
use bsp_v3s.Gpio.Pin.{Part, cfg, drv, pull, dat, pin_slot, pin_slot-Fits, pin_get, pin_get-put}
use bsp_v3s.Gpio.Ops.{set_cfgpin-slot_put, output_pin-slot_put, input_pin-pin_get, truth}

truth_lt : (v : ℕ) → truth v < 2 ^ 1
truth_lt v = ground arith

-- What driving a pin asks of each of its fields.
abbrev pub driven : ℕ → Part → ℕ → ℕ
driven v cfg old = sunxi_gpio_output
driven v dat old = truth v
driven v pull old = old
driven v drv old = old

abbrev as_output : ℕ → Regs → Regs
as_output p m = slot_put (pin_slot cfg p) sunxi_gpio_output m

module _ (p v : ℕ) (m : Regs) (h : IsRegs m) where
  direction_output-slot_put :
      gpio_direction_output p v m ≡ slot_put (pin_slot dat p) (truth v) (as_output p m)
  unfolding gpio_direction_output
  direction_output-slot_put =
      ap (sunxi_gpio_output_pin p v) (set_cfgpin-slot_put p sunxi_gpio_output m)
      ∙ output_pin-slot_put p v (as_output p m)
          (slot_put-IsRegs (pin_slot cfg p) sunxi_gpio_output m h)

  self :
      (l : Part)
      → pin_get (slot_put (pin_slot dat p) (truth v) (as_output p m)) l p
        ≡ driven v l (pin_get m l p)
  self cfg =
      pin_get-put dat cfg p p (truth v) (as_output p m) (truth_lt v) (inl (λ e. cc))
      ∙ slot_get-slot_put_self (pin_slot cfg p) sunxi_gpio_output m (omega arith)
          (pin_slot-Fits cfg p)
  self dat =
      slot_get-slot_put_self (pin_slot dat p) (truth v) (as_output p m) (truth_lt v)
        (pin_slot-Fits dat p)
  self pull =
      pin_get-put dat pull p p (truth v) (as_output p m) (truth_lt v) (inl (λ e. cc))
      ∙ pin_get-put cfg pull p p sunxi_gpio_output m (omega arith) (inl (λ e. cc))
  self drv =
      pin_get-put dat drv p p (truth v) (as_output p m) (truth_lt v) (inl (λ e. cc))
      ∙ pin_get-put cfg drv p p sunxi_gpio_output m (omega arith) (inl (λ e. cc))

  -- gpio_direction_output makes the pin an output that holds the truth value of its argument, and
  -- changes no other field of it and nothing of any other pin.
  pub direction_output-pin_get :
      (l : Part) (q : ℕ)
      → pin_get (gpio_direction_output p v m) l q
        ≡ (if p == q then driven v l (pin_get m l q) else pin_get m l q)
  direction_output-pin_get l q = rw direction_output-slot_put (elim (Bool-cases (p == q)) [
    | inl e ↦ rw e (let d : p ≡ q = omega (arith, (==_iff p q).0 e) in rw (← d) (self l))
    | inr e ↦ rw e (
        pin_get-put dat l p q (truth v) (as_output p m) (truth_lt v) (inr (λ d. ground arith))
        ∙ pin_get-put cfg l p q sunxi_gpio_output m (omega arith) (inr (λ d. ground arith)))
  ])

  -- A value driven out reads back at the pin.
  pub input_pin-direction_output : sunxi_gpio_input_pin (gpio_direction_output p v m) p ≡ truth v
  input_pin-direction_output =
      input_pin-pin_get p (gpio_direction_output p v m)
      ∙ ap (λ r. pin_get r dat p) direction_output-slot_put
      ∙ self dat
