-- ===== src/Gpio/Name.antt =====
-- The names of pins: sunxi_name_to_gpio of uboot/sunxi_gpio.c and sunxi_gpio_parse_pin_name of
-- uboot/pinmux.c. A name is the list of its characters' codes, without the NUL at its end; `strtol`, of
-- the C library, gives a number and what is left of the text.
use bsp_v3s.Common.{
  ℕ, suc, ◌+◌, ◌-◌, ◌*◌, ◌<◌, ◌==◌, ltb, leb, if◌then◌else◌, Bool, true, false, ◌&&◌, ◌||◌, not,
  ◌≡◌, refl, arith, List, [], ◌∷◌, ℤ, pos, negsuc,
}
use bsp_v3s.Word.Field.{bit_and-low_mask}
use bsp_v3s.Gpio.{gpio_bank, gpio_num}

-- 'P', 'p', 'A', 'Z' and 'a'
abbrev pub upper_p : ℕ
upper_p = 80

abbrev pub lower_p : ℕ
lower_p = 112

abbrev pub upper_a : ℕ
upper_a = 65

abbrev pub upper_z : ℕ
upper_z = 90

abbrev pub lower_a : ℕ
lower_a = 97

abbrev pub skip_p : List ℕ → List ℕ
skip_p [] = []
skip_p (c ∷ name) = if (c == upper_p) || (c == lower_p) then name else c ∷ name

-- The group, the size of the group and the rest of the name.
abbrev pub group_of : List ℕ → ℕ × ℕ × List ℕ
group_of [] = (0, 288, [])
group_of (c ∷ name) =
    if leb upper_a c
    then (c - (if ltb lower_a c then lower_a else upper_a), 32, name)
    else (0, 288, c ∷ name)

abbrev pub is_empty : List ℕ → Bool
is_empty [] = true
is_empty (c ∷ cs) = false

-- The number of a pin in a group, or -1; `whole` is a number that is there and ends the name.
abbrev pub pin_in_group : ℕ → ℕ → Bool → ℤ → ℤ
pin_in_group group groupsize whole (negsuc n) = negsuc 0
pin_in_group group groupsize whole (pos pin) =
    if whole && not (ltb groupsize pin || leb 9 group) then pos (group * 32 + pin) else negsuc 0

-- A number added to that of a group's first pin.
abbrev pub add_pin : ℕ → ℤ → ℤ
add_pin first (pos n) = pos (first + n)
add_pin first (negsuc n) = if ltb n first then pos (first - suc n) else negsuc (n - first)

module _ (strtol : List ℕ → ℤ × List ℕ) where
  unfoldable pub sunxi_name_to_gpio : List ℕ → ℤ
  sunxi_name_to_gpio text =
      let (group, groupsize, name) = group_of (skip_p text) in
      let r = strtol name in pin_in_group group groupsize (not (is_empty name) && is_empty r.1) r.0

  unfoldable pub sunxi_gpio_parse_pin_name : List ℕ → ℤ
  sunxi_gpio_parse_pin_name [] = negsuc 0
  sunxi_gpio_parse_pin_name (p ∷ []) = negsuc 0
  sunxi_gpio_parse_pin_name (p ∷ c ∷ name) =
      if not (p == upper_p)
      then negsuc 0
      else if ltb c upper_a || ltb upper_z c
      then negsuc 0
      else add_pin ((c - upper_a) * 32) (strtol name).0

-- The texts that name pin `pin` of a group: a decimal number, not empty, that strtol reads whole.
abbrev pub IsNumber : (List ℕ → ℤ × List ℕ) → List ℕ → ℕ → Type 0
IsNumber strtol digits pin = (strtol digits ≡ (pos pin, [])) × (is_empty digits ≡ false)

module _ (strtol : List ℕ → ℤ × List ℕ) where
  -- For each of the groups A to I and a number below 32, the name that is made of P, the letter of the
  -- group and the number is read by both parsers as the pin whose bank is the group and whose number
  -- in the bank is the number.
  pub name_to_gpio-bank :
      (group pin : ℕ) (digits : List ℕ)
      → group < 9
      → pin < 32
      → IsNumber strtol digits pin
      → (gpio : ℕ) × (sunxi_name_to_gpio strtol (upper_p ∷ (upper_a + group) ∷ digits) ≡ pos gpio)
        × (sunxi_gpio_parse_pin_name strtol (upper_p ∷ (upper_a + group) ∷ digits) ≡ pos gpio)
        × (gpio_bank gpio ≡ group)
        × (gpio_num gpio ≡ pin)
  unfolding sunxi_name_to_gpio sunxi_gpio_parse_pin_name
  name_to_gpio-bank group pin digits g p (read, some_digits) =
      let letter : leb upper_a (upper_a + group) ≡ true = ground arith in
      let upper : ltb lower_a (upper_a + group) ≡ false = ground arith in
      let in_range : (ltb (upper_a + group) upper_a || ltb upper_z (upper_a + group)) ≡ false =
        ground arith in
      let place : upper_a + group - upper_a ≡ group = omega arith in
      let fits : (ltb 32 pin || leb 9 group) ≡ false = ground arith in
      (
        group * 32 + pin,
        rw (letter, upper, place, read, some_digits, fits) refl,
        rw (in_range, place, read) refl,
        omega arith,
        omega (arith, bit_and-low_mask 5 (group * 32 + pin)),
      )
