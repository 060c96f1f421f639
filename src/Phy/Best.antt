-- ===== src/Phy/Best.antt =====
-- The mode that genphy_parse_link finds: the best of those that both sides of the link announce.
use bsp_v3s.Common.{
  ℕ, bit_and, if◌then◌else◌, Bool, true, false, not, ◌&&◌, ◌≡◌, ◌∙◌, refl, ap, Option, none, some,
}
use bsp_v3s.Word.{shl32}
use bsp_v3s.Machine.Io.{Io, M, pure, readl}
use bsp_v3s.Phy.{
  PhyDevice, has, negative, mii_bmsr, mii_stat1000, mii_ctrl1000, mii_advertise, mii_lpa,
  mii_estatus,
}
use bsp_v3s.Phy.Link.{
  Mode, genphy_parse_link, gigabit_common, negotiated, estatus_of, mode_of_gigabit, mode_of_lpa,
}
use bsp_v3s.Phy.Choice.{IsBest, chosen, chosen-IsBest, by_gigabit, by_lpa}

-- The words of a PHY that negotiates and supports gigabit, as the device delivers them.
abbrev pub gigabit_word_of : Io → ℕ
gigabit_word_of s = bit_and (if negative (s.input 1) then 0 else s.input 1) (shl32 (s.input 2) 2)

abbrev pub lpa_word_of : Io → ℕ
lpa_word_of s = bit_and (s.input 3) (s.input 4)

-- The speed and duplex of a device.
abbrev pub mode_of : PhyDevice → Mode
mode_of phydev = (phydev.speed, phydev.duplex)

gigabit_of :
    (supported : ℕ) (s : Io)
    → has supported 0x30 ≡ true
    → gigabit_common supported s ≡ (
      bit_and (if negative (s.input 0) then 0 else s.input 0) (shl32 (s.input 1) 2),
      (readl mii_ctrl1000 (readl mii_stat1000 s).1).1,
    )
unfolding gigabit_common
gigabit_of supported s e = rw (gigabit_common, e) refl

no_estatus : (mii_reg : ℕ) (s : Io) → has mii_reg 0x1 ≡ true → estatus_of mii_reg s ≡ (0, s)
unfolding estatus_of
no_estatus mii_reg s e = ap (λ (f : M ℕ). f s) (no_read (has mii_reg 0x100) (has mii_reg 0x1) e)
  where
    no_read : (a b : Bool) → b ≡ true → (if a && not b then readl mii_estatus else pure 0) ≡ pure 0
    no_read true true e = refl
    no_read true false e = cc
    no_read false b e = refl

-- The state when both words of abilities are read.
abbrev after_lpa : Io → Io
after_lpa s =
    (readl mii_lpa
      (readl mii_advertise (readl mii_ctrl1000 (readl mii_stat1000 (readl mii_bmsr s).1).1).1).1).1

parse_by :
    (phydev : PhyDevice) (s : Io) (m : Option Mode)
    → phydev.autoneg ≡ true
    → has phydev.supported 0x30 ≡ true
    → has (s.input 0) 0x1 ≡ true
    → mode_of_gigabit (gigabit_word_of s) ≡ m
    → mode_of (genphy_parse_link phydev s).0.1
      ≡ elim m [ some mode ↦ mode | none ↦ mode_of_lpa (lpa_word_of s) ]
unfolding genphy_parse_link negotiated
parse_by phydev s (some mode) auto gig cap e =
    rw (auto, gigabit_of phydev.supported (readl mii_bmsr s).1 gig, e) refl
parse_by phydev s none auto gig cap e =
    rw
      (
        auto,
        gigabit_of phydev.supported (readl mii_bmsr s).1 gig,
        e,
        no_estatus (s.input 0) (after_lpa s) cap,
      )
      refl

parse_mode :
    (phydev : PhyDevice) (s : Io)
    → phydev.autoneg ≡ true
    → has phydev.supported 0x30 ≡ true
    → has (s.input 0) 0x1 ≡ true
    → (m : Option Mode) → mode_of_gigabit (gigabit_word_of s) ≡ m
    → mode_of (genphy_parse_link phydev s).0.1 ≡ chosen (gigabit_word_of s) (lpa_word_of s)
parse_mode phydev s auto gig cap (some mode) e =
    parse_by phydev s (some mode) auto gig cap e
    ∙ by_gigabit (gigabit_word_of s) (lpa_word_of s) mode e
parse_mode phydev s auto gig cap none e =
    parse_by phydev s none auto gig cap e ∙ by_lpa (gigabit_word_of s) (lpa_word_of s) e

parse-chosen :
    (phydev : PhyDevice) (s : Io)
    → phydev.autoneg ≡ true
    → has phydev.supported 0x30 ≡ true
    → has (s.input 0) 0x1 ≡ true
    → mode_of (genphy_parse_link phydev s).0.1 ≡ chosen (gigabit_word_of s) (lpa_word_of s)
parse-chosen phydev s auto gig cap =
    parse_mode phydev s auto gig cap (mode_of_gigabit (gigabit_word_of s)) refl

-- When a PHY that supports gigabit negotiates, and states that it has the extended registers,
-- genphy_parse_link returns 0 and sets speed and duplex to the best of the modes that both sides
-- announce: none that both announce is faster, or as fast with more duplex, and the mode is one that
-- both announce, or 10 Mbit/s half duplex. The register of the gigabit partner counts as empty where
-- it cannot be read.
pub genphy_parse_link-IsBest :
    (phydev : PhyDevice) (s : Io)
    → phydev.autoneg ≡ true
    → has phydev.supported 0x30 ≡ true
    → has (s.input 0) 0x1 ≡ true
    → ((genphy_parse_link phydev s).0.0 ≡ 0)
      × IsBest (gigabit_word_of s) (lpa_word_of s) (mode_of (genphy_parse_link phydev s).0.1)
unfolding genphy_parse_link
genphy_parse_link-IsBest phydev s auto gig cap = (
  refl,
  rw (parse-chosen phydev s auto gig cap) (chosen-IsBest (gigabit_word_of s) (lpa_word_of s)),
)
