-- ===== src/Pwm/Config.antt =====
-- What sun4i_pwm_config of uboot/pwm-sun4i.c writes.
use bsp_v3s.Common.{
  ℕ, ◌+◌, ◌-◌, ◌*◌, ◌/◌, ◌%◌, ◌^◌, ◌≤◌, ◌<◌, ◌==◌, ◌≡◌, ◌≢◌, refl, arith, bit_and, bit_or, ◌⊎◌, inl,
  inr, Option, none, some, Bool-cases, true, false, ◌∷◌, ℤ, pos, ap, ◌∙◌,
}
use native.Mathlib.Nat.{mul-le-mul_right}
use bsp_v3s.Word.{shl32, sub32, u32, not32}
use bsp_v3s.Word.Pack.{bit_or-disjoint}
use bsp_v3s.Word.Field.{bit_and-low_mask, put_field}
use bsp_v3s.Machine.Io.{Io, rd, wr}
use bsp_v3s.Pwm.{
  u64, choose_prescaler, pwm_ctrl, prd_word, pwm_program, einval, ebusy, sun4i_pwm_config,
}
use bsp_v3s.Pwm.Divider.{Holds, Choice, NoChoice, Chosen, choose_prescaler-Chosen}

-- The period register: the cycles of the period less one above, those of the pulse below.
abbrev pub IsPeriod : ℕ → ℕ → ℕ → ℕ → Type 0
IsPeriod prd duty_ns period_ns w =
    (w / 2 ^ 16 ≡ prd - 1) × (w % 2 ^ 16 ≡ prd * duty_ns / period_ns % 2 ^ 16)

prd_word-IsPeriod :
    (prd duty_ns period_ns : ℕ)
    → Holds prd
    → duty_ns < 2 ^ 32
    → IsPeriod prd duty_ns period_ns (prd_word prd duty_ns period_ns)
prd_word-IsPeriod prd duty_ns period_ns (low, high) d = rw sum (omega arith, omega arith)
  where
    product : prd * duty_ns ≤ 65536 * duty_ns
    product = mul-le-mul_right duty_ns high

    pulse : ℕ
    pulse = prd * duty_ns / period_ns % 2 ^ 16

    cycles : ℕ → ℕ
    cycles n = bit_and (u32 (n / period_ns)) 0xffff

    wide : u64 (prd * duty_ns) ≡ prd * duty_ns
    wide = omega (arith, product)

    pulse_bits : cycles (u64 (prd * duty_ns)) ≡ pulse
    pulse_bits = ap cycles wide ∙ bit_and-low_mask 16 _ ∙ omega arith

    above : sub32 (u32 prd) 1 ≡ prd - 1
    above = omega arith

    in_word : shl32 (prd - 1) 16 ≡ (prd - 1) * 2 ^ 16
    in_word = omega arith

    sum : prd_word prd duty_ns period_ns ≡ pulse + (prd - 1) * 65536
    sum =
        ap (λ (n : ℕ). bit_or n (shl32 (sub32 (u32 prd) 1) 16)) pulse_bits
        ∙ ap (λ (n : ℕ). bit_or pulse (shl32 n 16)) above
        ∙ ap (bit_or pulse) in_word
        ∙ bit_or-disjoint 16 pulse (prd - 1) (omega arith)

-- The accesses of a channel that is ready: the clock gate is closed for them where it was open.
abbrev pub Programmed : ℕ → ℕ → ℕ → Io → Io → Type 0
Programmed hwpwm p w s s' =
    let gate : ℕ = bit_and (s.input 0) (shl32 64 (hwpwm * 15)) in
    ((gate ≡ 0)
      × (s'.log
          ≡ wr (4 + 4 * hwpwm) w
            ∷ wr pwm_ctrl (put_field (s.input 1) (hwpwm * 15) 4 p)
            ∷ rd pwm_ctrl (s.input 1)
            ∷ rd pwm_ctrl (s.input 0)
            ∷ s.log))
    ⊎ ((gate ≢ 0)
        × (s'.log
            ≡ wr pwm_ctrl (bit_or (s.input 2) gate)
              ∷ rd pwm_ctrl (s.input 2)
              ∷ wr (4 + 4 * hwpwm) w
              ∷ wr pwm_ctrl (put_field (s.input 1) (hwpwm * 15) 4 p)
              ∷ rd pwm_ctrl (s.input 1)
              ∷ wr pwm_ctrl (bit_and (s.input 0) (not32 (shl32 64 (hwpwm * 15))))
              ∷ rd pwm_ctrl (s.input 0)
              ∷ s.log))

-- What comes of the attempt to program a channel: it is busy, or it gets the word `w`.
abbrev pub Tried : ℕ → ℕ → ℕ → Io → ℤ × Io → Type 0
Tried hwpwm p w s r =
    let ready : ℕ = bit_and (s.input 0) (shl32 1 (28 + hwpwm)) in
    ((ready ≢ 0) × (r.0 ≡ ebusy) × (r.1.log ≡ rd pwm_ctrl (s.input 0) ∷ s.log))
    ⊎ ((ready ≡ 0) × (r.0 ≡ pos 0) × Programmed hwpwm p w s r.1)

is_zero : (n : ℕ) → (n == 0) ≡ true → n ≡ 0
is_zero n e = ground arith

not_zero : (n : ℕ) → (n == 0) ≡ false → n ≢ 0
not_zero n e = ground arith

gate_closed :
    (hwpwm p w : ℕ) (s : Io)
    → (bit_and (s.input 0) (shl32 1 (28 + hwpwm)) == 0) ≡ true
    → (bit_and (s.input 0) (shl32 64 (hwpwm * 15)) == 0) ≡ true
    → ((pwm_program hwpwm p w s).0 ≡ pos 0)
      × ((pwm_program hwpwm p w s).1.log
          ≡ wr (4 + 4 * hwpwm) w
            ∷ wr pwm_ctrl (put_field (s.input 1) (hwpwm * 15) 4 p)
            ∷ rd pwm_ctrl (s.input 1)
            ∷ rd pwm_ctrl (s.input 0)
            ∷ s.log)
unfolding pwm_program
gate_closed hwpwm p w s free closed = (ground (arith, free, closed), ground (arith, free, closed))

gate_open :
    (hwpwm p w : ℕ) (s : Io)
    → (bit_and (s.input 0) (shl32 1 (28 + hwpwm)) == 0) ≡ true
    → (bit_and (s.input 0) (shl32 64 (hwpwm * 15)) == 0) ≡ false
    → ((pwm_program hwpwm p w s).0 ≡ pos 0)
      × ((pwm_program hwpwm p w s).1.log
          ≡ wr pwm_ctrl (bit_or (s.input 2) (bit_and (s.input 0) (shl32 64 (hwpwm * 15))))
            ∷ rd pwm_ctrl (s.input 2)
            ∷ wr (4 + 4 * hwpwm) w
            ∷ wr pwm_ctrl (put_field (s.input 1) (hwpwm * 15) 4 p)
            ∷ rd pwm_ctrl (s.input 1)
            ∷ wr pwm_ctrl (bit_and (s.input 0) (not32 (shl32 64 (hwpwm * 15))))
            ∷ rd pwm_ctrl (s.input 0)
            ∷ s.log)
unfolding pwm_program
gate_open hwpwm p w s free through = (ground (arith, free, through), ground (arith, free, through))

pwm_program-Tried : (hwpwm p w : ℕ) (s : Io) → Tried hwpwm p w s (pwm_program hwpwm p w s)
unfolding pwm_program
pwm_program-Tried hwpwm p w s =
    elim (Bool-cases (bit_and (s.input 0) (shl32 1 (28 + hwpwm)) == 0)) [
      | inr busy ↦ inl (not_zero _ busy, ground (arith, busy), ground (arith, busy))
      | inl free ↦ elim (Bool-cases (bit_and (s.input 0) (shl32 64 (hwpwm * 15)) == 0)) [
        | inl closed ↦
            let done = gate_closed hwpwm p w s free closed in
            inr (is_zero _ free, done.0, inl (is_zero _ closed, done.1))
        | inr through ↦
            let done = gate_open hwpwm p w s free through in
            inr (is_zero _ free, done.0, inr (not_zero _ through, done.1))
      ]
    ]

Choice-Holds : (clk period_ns p prd : ℕ) → Choice clk period_ns p prd → Holds prd
Choice-Holds clk period_ns p prd (inl (e, same, h)) = h
Choice-Holds clk period_ns p prd (inr (lt, out, u, first, same)) = rw same u.1

abbrev pub Configured : ℕ → ℕ → ℕ → ℕ → Io → ℤ × Io → Type 0
Configured clk hwpwm duty_ns period_ns s r =
    (NoChoice clk period_ns × (r ≡ (einval, s)))
    ⊎ ((p : ℕ) × (prd : ℕ) × (w : ℕ) × Choice clk period_ns p prd
        × IsPeriod prd duty_ns period_ns w
        × Tried hwpwm p w s r)

-- For channel 0 or 1, a clock below 2 ^ 32 Hz, and times in nanoseconds that a C int holds and that
-- are not negative, sun4i_pwm_config takes the clock without a prescaler where the period then fits
-- the register's 1 to 65536 cycles, or else the first prescaler of the table with which it fits.
-- Where there is none it returns -EINVAL and makes no access. Otherwise it reads the control register
-- and returns -EBUSY where the channel's bit from 28 on is set; or it returns 0, after it has put
-- the prescaler, and nothing else, into the channel's field of the control register, and written to
-- the channel's period register the cycles of the period less one, above the 16 lower bits of the
-- cycles of the pulse. Where the clock gate was open it is closed before, and opened after.
pub pwm_config-Configured :
    (clk hwpwm duty_ns period_ns : ℕ) (s : Io)
    → clk < 2 ^ 32
    → hwpwm ≤ 1
    → duty_ns < 2 ^ 31
    → period_ns < 2 ^ 31
    → Configured clk hwpwm duty_ns period_ns s (sun4i_pwm_config clk hwpwm duty_ns period_ns s)
unfolding sun4i_pwm_config
pwm_config-Configured clk hwpwm duty_ns period_ns s c channel d t =
    by_choice (choose_prescaler clk period_ns) refl (choose_prescaler-Chosen clk period_ns)
  where
    by_choice :
        (found : Option (ℕ × ℕ))
        → choose_prescaler clk period_ns ≡ found
        → Chosen clk period_ns found
        → Configured clk hwpwm duty_ns period_ns s (sun4i_pwm_config clk hwpwm duty_ns period_ns s)
    by_choice none e h = inl (h, rw (sun4i_pwm_config, e) refl)
    by_choice (some (p, prd)) e h =
        rw (sun4i_pwm_config, e)
          (inr (
            p,
            prd,
            prd_word prd duty_ns period_ns,
            h,
            prd_word-IsPeriod prd duty_ns period_ns (Choice-Holds clk period_ns p prd h)
                (omega arith),
            pwm_program-Tried hwpwm p (prd_word prd duty_ns period_ns) s,
          ))
