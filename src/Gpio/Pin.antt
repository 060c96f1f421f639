-- ===== src/Gpio/Pin.antt =====
-- What setting a pin does to the fields of every pin.
use bsp_v3s.Common.{
  ℕ, ◌+◌, ◌*◌, ◌/◌, ◌%◌, ◌^◌, ◌≤◌, ◌<◌, ◌≡◌, ◌≢◌, ◌⊎◌, refl, arith, ℕ_discrete, inl, inr,
}
use bsp_v3s.Word.Field.{bit_and-low_mask}
use bsp_v3s.Machine.{Regs}
use bsp_v3s.Machine.Slot.{Slot, slot_get, slot_put, Apart, Fits, slot_get-slot_put_ne}
use bsp_v3s.Gpio.{
  gpio_bank, gpio_num, bank_to_gpio, gpio_cfg_index, gpio_cfg_offset, gpio_pull_index,
  gpio_pull_offset, drv_at, pull_at, dat_at,
}

-- What a pin has.
pub data Part : Type 0 where
  cfg drv pull dat : Part

abbrev pub pin_slot : Part → ℕ → Slot
pin_slot cfg pin = record {
  at = bank_to_gpio (gpio_bank pin) + 4 * gpio_cfg_index pin;
  off = gpio_cfg_offset pin;
  width = 4;
}
pin_slot drv pin = record {
  at = bank_to_gpio (gpio_bank pin) + drv_at + 4 * gpio_pull_index pin;
  off = gpio_pull_offset pin;
  width = 2;
}
pin_slot pull pin = record {
  at = bank_to_gpio (gpio_bank pin) + pull_at + 4 * gpio_pull_index pin;
  off = gpio_pull_offset pin;
  width = 2;
}
pin_slot dat pin = record {
  at = bank_to_gpio (gpio_bank pin) + dat_at;
  off = gpio_num pin;
  width = 1;
}

-- The same, in arithmetic on the number of the pin in its bank.
reg_of : Part → ℕ → ℕ
reg_of cfg n = 4 * (n / 8)
reg_of drv n = 20 + 4 * (n / 16)
reg_of pull n = 28 + 4 * (n / 16)
reg_of dat n = 16

off_of : Part → ℕ → ℕ
off_of cfg n = n % 8 * 4
off_of drv n = n % 16 * 2
off_of pull n = n % 16 * 2
off_of dat n = n

pin_slot_at : (k : Part) (p : ℕ) → (pin_slot k p).at ≡ bank_to_gpio (p / 32) + reg_of k (p % 32)
unfolding reg_of
pin_slot_at cfg p = omega (arith, bit_and-low_mask 5 p)
pin_slot_at drv p = omega (arith, bit_and-low_mask 5 p)
pin_slot_at pull p = omega (arith, bit_and-low_mask 5 p)
pin_slot_at dat p = omega arith

pin_slot_off : (k : Part) (p : ℕ) → (pin_slot k p).off ≡ off_of k (p % 32)
unfolding off_of
pin_slot_off cfg p = rw (bit_and-low_mask 5 p, bit_and-low_mask 3 (p % 2 ^ 5)) (omega arith)
pin_slot_off drv p = rw (bit_and-low_mask 5 p, bit_and-low_mask 4 (p % 2 ^ 5)) (omega arith)
pin_slot_off pull p = rw (bit_and-low_mask 5 p, bit_and-low_mask 4 (p % 2 ^ 5)) (omega arith)
pin_slot_off dat p = rw (bit_and-low_mask 5 p) (omega arith)

-- Banks do not overlap.
bank_ne : (b c x y : ℕ) → b ≢ c → x < 36 → y < 36 → bank_to_gpio b + x ≢ bank_to_gpio c + y
bank_ne b c x y h hx hy = ground arith

width_of : Part → ℕ
width_of cfg = 4
width_of drv = 2
width_of pull = 2
width_of dat = 1

-- Within a bank, two fields of one kind and of different pins share no bit.
same_kind_apart :
    (k : Part) (n n' : ℕ)
    → n < 32
    → n' < 32
    → n ≢ n'
    → reg_of k n ≡ reg_of k n'
    → (off_of k n + width_of k ≤ off_of k n') ⊎ (off_of k n' + width_of k ≤ off_of k n)
unfolding reg_of off_of width_of
same_kind_apart cfg n n' h h' ne e = grind arith
same_kind_apart drv n n' h h' ne e = grind arith
same_kind_apart pull n n' h h' ne e = grind arith
same_kind_apart dat n n' h h' ne e = grind arith

kinds_ne : (k l : Part) (n n' : ℕ) → n < 32 → n' < 32 → k ≢ l → reg_of k n ≢ reg_of l n'
unfolding reg_of
kinds_ne cfg cfg n n' h h' ne = absurd (ne refl)
kinds_ne drv drv n n' h h' ne = absurd (ne refl)
kinds_ne pull pull n n' h h' ne = absurd (ne refl)
kinds_ne dat dat n n' h h' ne = absurd (ne refl)
kinds_ne _ _ n n' h h' ne = omega arith

reg_of_lt : (k : Part) (n : ℕ) → n < 32 → reg_of k n < 36
unfolding reg_of
reg_of_lt cfg n h = omega arith
reg_of_lt drv n h = omega arith
reg_of_lt pull n h = omega arith
reg_of_lt dat n h = omega arith

pin_slot_width : (k : Part) (p : ℕ) → (pin_slot k p).width ≡ width_of k
unfolding width_of
pin_slot_width cfg p = refl
pin_slot_width drv p = refl
pin_slot_width pull p = refl
pin_slot_width dat p = refl

pub Part-discrete : Discrete Part
Part-discrete = hlevel

-- Same bank: by the kind, then by the number.
bank_apart :
    (k l : Part) (b n n' : ℕ)
    → n < 32
    → n' < 32
    → (k ≢ l) ⊎ (n ≢ n')
    → (bank_to_gpio b + reg_of k n ≢ bank_to_gpio b + reg_of l n')
      ⊎ (off_of k n + width_of k ≤ off_of l n')
      ⊎ (off_of l n' + width_of l ≤ off_of k n)
bank_apart k l b n n' h h' (inl ne) =
    let d : reg_of k n ≢ reg_of l n' = kinds_ne k l n n' h h' ne in inl (λ e. d (omega arith))
bank_apart k l b n n' h h' (inr ne) = elim (Part-discrete k l) [
  | no d ↦ inl (λ e. kinds_ne k l n n' h h' d (omega arith))
  | yes d ↦ rw (← d) (elim (ℕ_discrete (reg_of k n) (reg_of k n')) [
    | no r ↦ inl (λ e. r (omega arith))
    | yes r ↦ inr (same_kind_apart k n n' h h' ne r)
  ])
]

-- Fields of different pins, or different fields of one pin, share no bit.
pub pin_slot-Apart :
    (k l : Part) (p q : ℕ) → (k ≢ l) ⊎ (p ≢ q) → Apart (pin_slot k p) (pin_slot l q)
pin_slot-Apart k l p q h =
    rw
      (
        pin_slot_at k p,
        pin_slot_at l q,
        pin_slot_off k p,
        pin_slot_off l q,
        pin_slot_width k p,
        pin_slot_width l q,
      )
      (elim (ℕ_discrete (p / 32) (q / 32)) [
        | no b ↦ inl (
            bank_ne (p / 32) (q / 32) _ _ b (reg_of_lt k (p % 32) (omega arith))
              (reg_of_lt l (q % 32) (omega arith)))
        | yes b ↦
            rw (← b)
              (bank_apart k l (p / 32) (p % 32) (q % 32) (omega arith) (omega arith) (number b h))
      ])
  where
    number : p / 32 ≡ q / 32 → (k ≢ l) ⊎ (p ≢ q) → (k ≢ l) ⊎ (p % 32 ≢ q % 32)
    number b (inl d) = inl d
    number b (inr d) = inr (λ e. d (omega arith))

pub pin_slot-Fits : (k : Part) (p : ℕ) → Fits (pin_slot k p)
unfolding off_of width_of
pin_slot-Fits cfg p = rw (pin_slot_off cfg p) (omega arith)
pin_slot-Fits drv p = rw (pin_slot_off drv p) (omega arith)
pin_slot-Fits pull p = rw (pin_slot_off pull p) (omega arith)
pin_slot-Fits dat p = rw (pin_slot_off dat p) (omega arith)

-- The value of one field of a pin.
abbrev pub pin_get : Regs → Part → ℕ → ℕ
pin_get m k p = slot_get m (pin_slot k p)

-- A field of a pin after another field was set.
pub pin_get-put :
    (k l : Part) (p q v : ℕ) (m : Regs)
    → v < 2 ^ (pin_slot k p).width
    → (k ≢ l) ⊎ (p ≢ q)
    → pin_get (slot_put (pin_slot k p) v m) l q ≡ pin_get m l q
pin_get-put k l p q v m hv h =
    slot_get-slot_put_ne (pin_slot k p) (pin_slot l q) v m hv (pin_slot-Fits l q)
      (pin_slot-Apart k l p q h)
