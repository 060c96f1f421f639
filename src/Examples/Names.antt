-- ===== src/Examples/Names.antt =====
-- The names of pins, with a reader of decimal numbers.
use bsp_v3s.Common.{
  ℕ, ◌+◌, ◌-◌, ◌*◌, ◌≡◌, ◌&&◌, leb, if◌then◌else◌, refl, arith, List, [], ◌∷◌, ℤ, pos, negsuc,
}
use bsp_v3s.Gpio.{gpio_bank, gpio_num}
use bsp_v3s.Gpio.Name.{sunxi_name_to_gpio, sunxi_gpio_parse_pin_name, name_to_gpio-bank}

abbrev decimal : ℕ → List ℕ → ℤ × List ℕ
decimal n [] = (pos n, [])
decimal n (c ∷ cs) =
    let rest = decimal (n * 10 + (c - 48)) cs in
    if leb 48 c && leb c 57 then rest else (pos n, c ∷ cs)

-- PE21
name_to_gpio-bank_example :
    (gpio : ℕ) × (sunxi_name_to_gpio (decimal 0) (80 ∷ 69 ∷ 50 ∷ 49 ∷ []) ≡ pos gpio)
    × (sunxi_gpio_parse_pin_name (decimal 0) (80 ∷ 69 ∷ 50 ∷ 49 ∷ []) ≡ pos gpio)
    × (gpio_bank gpio ≡ 4)
    × (gpio_num gpio ≡ 21)
name_to_gpio-bank_example =
    name_to_gpio-bank (decimal 0) 4 21 (50 ∷ 49 ∷ []) (omega arith) (omega arith) (refl, refl)

-- PA32, which is no pin, is read as the pin PB0, and pa0 is refused.
pa32 : sunxi_name_to_gpio (decimal 0) (80 ∷ 65 ∷ 51 ∷ 50 ∷ []) ≡ pos 32
unfolding sunxi_name_to_gpio
pa32 = refl

pa0 : sunxi_name_to_gpio (decimal 0) (112 ∷ 97 ∷ 48 ∷ []) ≡ negsuc 0
unfolding sunxi_name_to_gpio
pa0 = refl
