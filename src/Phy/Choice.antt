-- ===== src/Phy/Choice.antt =====
-- The best of the modes that both sides of a link announce, and what the tests of
-- genphy_parse_link in uboot/phy.c choose.
use bsp_v3s.Common.{
  ℕ, ◌*◌, ◌^◌, ◌≤◌, ◌<◌, if◌then◌else◌, Bool, true, false, ◌||◌, ◌≡◌, ◌⊎◌, inl, inr, refl, arith,
  Option, none, some,
}
use bsp_v3s.Word.Pack.{bit_and-two}
use bsp_v3s.Phy.{has}
use bsp_v3s.Phy.Link.{Mode, mode_of_gigabit, mode_of_lpa}

-- The modes that both sides announce, by the bits of the gigabit word and of the word of the lower
-- speeds: speed and duplex.
pub data Common (gblpa lpa : ℕ) : ℕ → ℕ → Type 0 where
  gigabit_full : has gblpa 0x800 ≡ true → Common gblpa lpa 1000 1
  gigabit_half : has gblpa 0x400 ≡ true → Common gblpa lpa 1000 0
  fast_full : has lpa 0x100 ≡ true → Common gblpa lpa 100 1
  fast_half : has lpa 0x80 ≡ true → Common gblpa lpa 100 0
  slow_full : has lpa 0x40 ≡ true → Common gblpa lpa 10 1
  slow_half : has lpa 0x20 ≡ true → Common gblpa lpa 10 0

-- No common mode is better, and the mode is common, or the slowest one.
abbrev pub IsBest : ℕ → ℕ → Mode → Type 0
IsBest gblpa lpa mode =
    ((speed duplex : ℕ)
      → Common gblpa lpa speed duplex
      → (speed < mode.0) ⊎ ((speed ≡ mode.0) × (duplex ≤ mode.1)))
    × (Common gblpa lpa mode.0 mode.1 ⊎ (mode ≡ (10, 0)))

has-two : (k x : ℕ) → has x (3 * 2 ^ k) ≡ (has x (2 * 2 ^ k) || has x (1 * 2 ^ k))
has-two k x = ground (arith, bit_and-two k x)

-- The mode by the tests of the single bits.
abbrev pick : Bool → Bool → Bool → Bool → Bool → Mode
pick true gh ff fh sf = (1000, 1)
pick false true ff fh sf = (1000, 0)
pick false false true fh sf = (100, 1)
pick false false false true sf = (100, 0)
pick false false false false true = (10, 1)
pick false false false false false = (10, 0)

pick-gigabit :
    (two gf gh ff fh sf : Bool) (mode : Mode)
    → two ≡ (gf || gh)
    → ◌≡◌ {A = Option Mode} (if two then some (1000, if gf then 1 else 0) else none) (some mode)
    → mode ≡ pick gf gh ff fh sf
pick-gigabit true true gh ff fh sf mode t e = cc
pick-gigabit true false true ff fh sf mode t e = cc
pick-gigabit true false false ff fh sf mode t e = cc
pick-gigabit false gf gh ff fh sf mode t e = cc

pick-lpa :
    (two gf gh both ff fh sf : Bool)
    → two ≡ (gf || gh)
    → both ≡ (ff || fh)
    → ◌≡◌ {A = Option Mode} (if two then some (1000, if gf then 1 else 0) else none) none
    → ◌≡◌ {A = Mode}
        (if both then (100, if ff then 1 else 0) else (10, if sf then 1 else 0))
        (pick gf gh ff fh sf)
pick-lpa true gf gh both ff fh sf t l e = cc
pick-lpa false true gh both ff fh sf t l e = cc
pick-lpa false false true both ff fh sf t l e = cc
pick-lpa false false false true true fh sf t l e = refl
pick-lpa false false false true false true sf t l e = refl
pick-lpa false false false true false false sf t l e = cc
pick-lpa false false false false true fh sf t l e = cc
pick-lpa false false false false false true sf t l e = cc
pick-lpa false false false false false false true t l e = refl
pick-lpa false false false false false false false t l e = refl

module _ (gblpa lpa : ℕ) where
  below :
      (gf gh ff fh sf : Bool) (speed duplex : ℕ)
      → has gblpa 0x800 ≡ gf
      → has gblpa 0x400 ≡ gh
      → has lpa 0x100 ≡ ff
      → has lpa 0x80 ≡ fh
      → has lpa 0x40 ≡ sf
      → Common gblpa lpa speed duplex
      → (speed < (pick gf gh ff fh sf).0)
        ⊎ ((speed ≡ (pick gf gh ff fh sf).0) × (duplex ≤ (pick gf gh ff fh sf).1))
  below true gh ff fh sf _ _ a b c d e (gigabit_full h) = inr (refl, omega arith)
  below false gh ff fh sf _ _ a b c d e (gigabit_full h) = cc
  below true gh ff fh sf _ _ a b c d e (gigabit_half h) = inr (refl, omega arith)
  below false true ff fh sf _ _ a b c d e (gigabit_half h) = inr (refl, omega arith)
  below false false ff fh sf _ _ a b c d e (gigabit_half h) = cc
  below true gh ff fh sf _ _ a b c d e (fast_full h) = inl (omega arith)
  below false true ff fh sf _ _ a b c d e (fast_full h) = inl (omega arith)
  below false false true fh sf _ _ a b c d e (fast_full h) = inr (refl, omega arith)
  below false false false fh sf _ _ a b c d e (fast_full h) = cc
  below true gh ff fh sf _ _ a b c d e (fast_half h) = inl (omega arith)
  below false true ff fh sf _ _ a b c d e (fast_half h) = inl (omega arith)
  below false false true fh sf _ _ a b c d e (fast_half h) = inr (refl, omega arith)
  below false false false true sf _ _ a b c d e (fast_half h) = inr (refl, omega arith)
  below false false false false sf _ _ a b c d e (fast_half h) = cc
  below true gh ff fh sf _ _ a b c d e (slow_full h) = inl (omega arith)
  below false true ff fh sf _ _ a b c d e (slow_full h) = inl (omega arith)
  below false false true fh sf _ _ a b c d e (slow_full h) = inl (omega arith)
  below false false false true sf _ _ a b c d e (slow_full h) = inl (omega arith)
  below false false false false true _ _ a b c d e (slow_full h) = inr (refl, omega arith)
  below false false false false false _ _ a b c d e (slow_full h) = cc
  below true gh ff fh sf _ _ a b c d e (slow_half h) = inl (omega arith)
  below false true ff fh sf _ _ a b c d e (slow_half h) = inl (omega arith)
  below false false true fh sf _ _ a b c d e (slow_half h) = inl (omega arith)
  below false false false true sf _ _ a b c d e (slow_half h) = inl (omega arith)
  below false false false false true _ _ a b c d e (slow_half h) = inr (refl, omega arith)
  below false false false false false _ _ a b c d e (slow_half h) = inr (refl, omega arith)

  found :
      (gf gh ff fh sf : Bool)
      → has gblpa 0x800 ≡ gf
      → has gblpa 0x400 ≡ gh
      → has lpa 0x100 ≡ ff
      → has lpa 0x80 ≡ fh
      → has lpa 0x40 ≡ sf
      → Common gblpa lpa (pick gf gh ff fh sf).0 (pick gf gh ff fh sf).1
        ⊎ (pick gf gh ff fh sf ≡ (10, 0))
  found true gh ff fh sf a b c d e = inl (gigabit_full a)
  found false true ff fh sf a b c d e = inl (gigabit_half b)
  found false false true fh sf a b c d e = inl (fast_full c)
  found false false false true sf a b c d e = inl (fast_half d)
  found false false false false true a b c d e = inl (slow_full e)
  found false false false false false a b c d e = inr refl

  pub chosen : Mode
  chosen = pick (has gblpa 0x800) (has gblpa 0x400) (has lpa 0x100) (has lpa 0x80) (has lpa 0x40)

  pub chosen-IsBest : IsBest gblpa lpa chosen
  unfolding chosen
  chosen-IsBest = (
    λ speed duplex c.
        below (has gblpa 0x800) (has gblpa 0x400) (has lpa 0x100) (has lpa 0x80) (has lpa 0x40)
          speed duplex refl refl refl refl refl c,
    found (has gblpa 0x800) (has gblpa 0x400) (has lpa 0x100) (has lpa 0x80) (has lpa 0x40) refl
        refl refl refl refl,
  )

  -- A gigabit mode is chosen by the gigabit word.
  pub by_gigabit : (mode : Mode) → mode_of_gigabit gblpa ≡ some mode → mode ≡ chosen
  unfolding chosen
  by_gigabit mode e =
      pick-gigabit (has gblpa 0xc00) (has gblpa 0x800) (has gblpa 0x400) (has lpa 0x100)
        (has lpa 0x80) (has lpa 0x40) mode (has-two 10 gblpa) e

  pub by_lpa : mode_of_gigabit gblpa ≡ none → mode_of_lpa lpa ≡ chosen
  unfolding chosen
  by_lpa e =
      pick-lpa (has gblpa 0xc00) (has gblpa 0x800) (has gblpa 0x400) (has lpa 0x180) (has lpa 0x100)
        (has lpa 0x80) (has lpa 0x40) (has-two 10 gblpa) (has-two 7 lpa) e
