-- ===== src/Gpio/SetMode.antt =====
-- gpio_set_mode of uboot/sunxi_gpio.c against the fields that a client sees.
use bsp_v3s.Common.{
  ℕ, ◌*◌, ◌%◌, ◌^◌, ◌<◌, ◌==◌, bit_and, if◌then◌else◌, ◌≡◌, ◌≢◌, ◌⊎◌, refl, arith, ap, ℕ_discrete,
  inl, inr, ◌∙◌, sym, not, Bool, Bool-cases, ==_iff, true, false,
}
use bsp_v3s.Word.{shr, testbit}
use bsp_v3s.Word.Testbit.{zero-bit_and, testbit-mod_pow, test-bit_and-pow}
use bsp_v3s.Word.Field.{field, field_lt, bit_and-low_mask}
use bsp_v3s.Machine.{Regs}
use bsp_v3s.Machine.Slot.{slot_put, slot_get-slot_put_self}
use bsp_v3s.Gpio.{gpio_set_mode, mode_nibble}
use bsp_v3s.Gpio.Pin.{Part, cfg, drv, pull, dat, pin_slot, pin_slot-Fits, pin_get, pin_get-put}

-- What a mode word asks of each field: nibble 0 says which of function, pull and drive to set.
abbrev pub requested : ℕ → Part → ℕ → ℕ
requested mode cfg old = if testbit mode 0 then field mode 4 4 else old
requested mode pull old = if testbit mode 1 then field mode 8 4 else old
requested mode drv old = if testbit mode 2 then field mode 12 4 else old
requested mode dat old = old

nibble-field : (mode k : ℕ) → mode_nibble mode k ≡ field mode (4 * k) 4
nibble-field mode k = omega (arith, bit_and-low_mask 4 (shr mode (4 * k)))

-- Bit `i` of nibble 0, as C tests it.
enable_bit :
    (mode i : ℕ) → i < 4 → (bit_and (mode_nibble mode 0) (2 ^ i) == 0) ≡ not (testbit mode i)
enable_bit mode i h =
    test-bit_and-pow i (mode_nibble mode 0) ∙ ap not (low (mode_nibble mode 0) reduced)
  where
    reduced : mode_nibble mode 0 ≡ mode % 2 ^ 4
    reduced = omega (arith, bit_and-low_mask 4 (shr mode 0))

    low : (e : ℕ) → e ≡ mode % 2 ^ 4 → testbit e i ≡ testbit mode i
    low e d = rw d (testbit-mod_pow 4 mode i h)

-- One of the three conditional settings of gpio_set_mode.
abbrev staged : Bool → Part → ℕ → ℕ → Regs → Regs
staged c k p v m = if c then m else slot_put (pin_slot k p) v m

module _ (c : Bool) (k : Part) (p v : ℕ) (m : Regs) (small : v < 2 ^ (pin_slot k p).width) where
  staged_self : pin_get (staged c k p v m) k p ≡ (if c then pin_get m k p else v)
  staged_self = elim (Bool-cases c) [
    | inl e ↦ rw e
    | inr e ↦ rw e (slot_get-slot_put_self (pin_slot k p) v m small (pin_slot-Fits k p))
  ]

  staged_ne :
      (l : Part) (q : ℕ) → (k ≢ l) ⊎ (p ≢ q) → pin_get (staged c k p v m) l q ≡ pin_get m l q
  staged_ne l q h = elim (Bool-cases c) [
    | inl e ↦ rw e
    | inr e ↦ rw e (pin_get-put k l p q v m small h)
  ]

abbrev skip : ℕ → ℕ → Bool
skip mode i = bit_and (mode_nibble mode 0) (2 ^ i) == 0

abbrev after_cfg : ℕ → ℕ → Regs → Regs
after_cfg p mode m = staged (skip mode 0) cfg p (mode_nibble mode 1) m

abbrev after_pull : ℕ → ℕ → Regs → Regs
after_pull p mode m = staged (skip mode 1) pull p (mode_nibble mode 2) (after_cfg p mode m)

abbrev after_drv : ℕ → ℕ → Regs → Regs
after_drv p mode m = staged (skip mode 2) drv p (mode_nibble mode 3) (after_pull p mode m)

module _ (p mode : ℕ) (m : Regs) (pull_fits : field mode 8 4 < 4)
    (drv_fits : field mode 12 4 < 4) where
  cfg_small : mode_nibble mode 1 < 2 ^ 4
  cfg_small = omega (arith, nibble-field mode 1, field_lt mode 4 4)

  pull_small : mode_nibble mode 2 < 2 ^ 2
  pull_small = omega (arith, nibble-field mode 2)

  drv_small : mode_nibble mode 3 < 2 ^ 2
  drv_small = omega (arith, nibble-field mode 3)

  after_drv_ne : (l : Part) (q : ℕ) → p ≢ q → pin_get (after_drv p mode m) l q ≡ pin_get m l q
  after_drv_ne l q h =
      staged_ne (skip mode 2) drv p (mode_nibble mode 3) (after_pull p mode m) drv_small l q (inr h)
      ∙ staged_ne (skip mode 1) pull p (mode_nibble mode 2) (after_cfg p mode m) pull_small l q
          (inr h)
      ∙ staged_ne (skip mode 0) cfg p (mode_nibble mode 1) m cfg_small l q (inr h)

  keep_drv :
      (l : Part) → drv ≢ l → pin_get (after_drv p mode m) l p ≡ pin_get (after_pull p mode m) l p
  keep_drv l d =
      staged_ne (skip mode 2) drv p (mode_nibble mode 3) (after_pull p mode m) drv_small l p (inl d)

  keep_pull :
      (l : Part) → pull ≢ l → pin_get (after_pull p mode m) l p ≡ pin_get (after_cfg p mode m) l p
  keep_pull l d =
      staged_ne (skip mode 1) pull p (mode_nibble mode 2) (after_cfg p mode m) pull_small l p
        (inl d)

  keep_cfg : (l : Part) → cfg ≢ l → pin_get (after_cfg p mode m) l p ≡ pin_get m l p
  keep_cfg l d = staged_ne (skip mode 0) cfg p (mode_nibble mode 1) m cfg_small l p (inl d)

  pick :
      (i k old : ℕ)
      → i < 4
      → (if skip mode i then old else mode_nibble mode k)
        ≡ (if testbit mode i then field mode (4 * k) 4 else old)
  pick i k old h = rw (enable_bit mode i h, nibble-field mode k) (flip (testbit mode i))
    where
      flip :
          (b : Bool)
          → (if not b then old else field mode (4 * k) 4)
            ≡ (if b then field mode (4 * k) 4 else old)
      flip true = refl
      flip false = refl

  after_drv_self : (l : Part) → pin_get (after_drv p mode m) l p ≡ requested mode l (pin_get m l p)
  after_drv_self cfg =
      keep_drv cfg (λ e. cc)
      ∙ keep_pull cfg (λ e. cc)
      ∙ staged_self (skip mode 0) cfg p (mode_nibble mode 1) m cfg_small
      ∙ pick 0 1 _ (omega arith)
  after_drv_self pull =
      keep_drv pull (λ e. cc)
      ∙ staged_self (skip mode 1) pull p (mode_nibble mode 2) (after_cfg p mode m) pull_small
      ∙ pick 1 2 _ (omega arith)
      ∙ ap (requested mode pull) (keep_cfg pull (λ e. cc))
  after_drv_self drv =
      staged_self (skip mode 2) drv p (mode_nibble mode 3) (after_pull p mode m) drv_small
      ∙ pick 2 3 _ (omega arith)
      ∙ ap (requested mode drv) (keep_pull drv (λ e. cc) ∙ keep_cfg drv (λ e. cc))
  after_drv_self dat = keep_drv dat (λ e. cc) ∙ keep_pull dat (λ e. cc) ∙ keep_cfg dat (λ e. cc)

  -- With no bit of nibble 0 set the word asks for nothing.
  bit_off : (i : ℕ) → i < 4 → mode_nibble mode 0 ≡ 0 → testbit mode i ≡ false
  bit_off i h e = turn (testbit mode i) (sym (enable_bit mode i h) ∙ zero_masked)
    where
      zero_masked : (bit_and (mode_nibble mode 0) (2 ^ i) == 0) ≡ true
      zero_masked = rw (e, zero-bit_and) refl

      turn : (b : Bool) → not b ≡ true → b ≡ false
      turn true d = cc
      turn false d = refl

  requested_none : (l : Part) (old : ℕ) → mode_nibble mode 0 ≡ 0 → requested mode l old ≡ old
  requested_none cfg old e = rw (bit_off 0 (omega arith) e)
  requested_none pull old e = rw (bit_off 1 (omega arith) e)
  requested_none drv old e = rw (bit_off 2 (omega arith) e)
  requested_none dat old e = refl

  set_mode_none : mode_nibble mode 0 ≡ 0 → gpio_set_mode p mode m ≡ (1, m)
  unfolding gpio_set_mode
  set_mode_none e =
      ap (λ (b : Bool). if b then (1, m) else (0, after_drv p mode m)) ((==_iff _ 0).1 e)

  set_mode_some : mode_nibble mode 0 ≢ 0 → gpio_set_mode p mode m ≡ (0, after_drv p mode m)
  unfolding gpio_set_mode
  set_mode_some h =
      ap (λ (b : Bool). if b then (1, m) else (0, after_drv p mode m))
        (ne_test (mode_nibble mode 0) h)
    where
      ne_test : (n : ℕ) → n ≢ 0 → (n == 0) ≡ false
      ne_test n d = ground arith

  after_drv-pin_get :
      (l : Part) (q : ℕ)
      → pin_get (after_drv p mode m) l q
        ≡ (if p == q then requested mode l (pin_get m l q) else pin_get m l q)
  after_drv-pin_get l q = elim (Bool-cases (p == q)) [
    | inl e ↦ rw e (let d : p ≡ q = omega (arith, (==_iff p q).0 e) in rw (← d) (after_drv_self l))
    | inr e ↦ rw e (after_drv_ne l q (λ d. ground arith))
  ]

  -- gpio_set_mode gives the pin exactly the function, pull and drive that its mode word asks for,
  -- leaves its other fields and every other pin as they were, and returns 1 exactly where the
  -- word asks for nothing, if the pull and the drive in the word fit their fields of 2 bits.
  pub gpio_set_mode-pin_get :
      (l : Part) (q : ℕ)
      → (pin_get (gpio_set_mode p mode m).1 l q
          ≡ (if p == q then requested mode l (pin_get m l q) else pin_get m l q))
        × ((gpio_set_mode p mode m).0 ≡ (if field mode 0 4 == 0 then 1 else 0))
  gpio_set_mode-pin_get l q = elim (ℕ_discrete (mode_nibble mode 0) 0) [
    | yes e ↦ rw (set_mode_none e) (asks_nothing e, code_of e)
    | no h ↦ rw (set_mode_some h) (after_drv-pin_get l q, code_some h)
  ]
    where
      asks_nothing :
          mode_nibble mode 0 ≡ 0
          → pin_get m l q ≡ (if p == q then requested mode l (pin_get m l q) else pin_get m l q)
      asks_nothing e = rw (requested_none l (pin_get m l q) e) (same (p == q))
        where
          same : (b : Bool) → pin_get m l q ≡ (if b then pin_get m l q else pin_get m l q)
          same true = refl
          same false = refl

      code_of : mode_nibble mode 0 ≡ 0 → ◌≡◌ {A = ℕ} 1 (if field mode 0 4 == 0 then 1 else 0)
      code_of e = ground (arith, nibble-field mode 0)

      code_some : mode_nibble mode 0 ≢ 0 → ◌≡◌ {A = ℕ} 0 (if field mode 0 4 == 0 then 1 else 0)
      code_some h = ground (arith, nibble-field mode 0)
