-- ===== src/Phy.antt =====
-- uboot/phy.c: the generic PHY. A PHY is reached through the read and write functions of its bus, whose
-- results are arbitrary: a read or a write that fails returns a negative number. A C int is its
-- 32-bit word here, -1 being 2 ^ 32 - 1. `ctrlc` is the console's, and printing is left out.
pub mod Link
pub mod Choice
pub mod Best
use bsp_v3s.Common.{
  ℕ, zero, suc, ◌+◌, ◌-◌, ◌*◌, ◌%◌, ◌^◌, ◌==◌, ltb, leb, bit_and, bit_or, if◌then◌else◌, Bool, true,
  false, not, ◌&&◌, ◌||◌, List, ◌∷◌,
}
use bsp_v3s.Word.{u32, shl32, not32}
use bsp_v3s.Machine.Io.{M, Io, Access, rd, wr, delay, pure, readl, udelay, ◌>>=◌, ◌>>◌}

-- The fields of `struct phy_device` that the generic driver uses. `link` and `autoneg` are tests.
pub record PhyDevice : Type 0 where
  pub speed : ℕ
  pub duplex : ℕ
  pub link : Bool
  pub advertising : ℕ
  pub supported : ℕ
  pub autoneg : Bool
  pub pause : ℕ
  pub asym_pause : ℕ

abbrev pub phy_read : ℕ → M ℕ
phy_read reg = readl reg

-- The value is a u16; the result is the bus's.
abbrev pub phy_write : ℕ → ℕ → M ℕ
phy_write reg val s =
    (s.input 0, record { input = λ n. s.input (suc n); log = wr reg (val % 2 ^ 16) ∷ s.log })

-- `v < 0` of a C int, and -n.
abbrev pub negative : ℕ → Bool
negative v = leb (2 ^ 31) v

abbrev pub minus : ℕ → ℕ
minus n = 2 ^ 32 - n

-- `x & bit`, as a test.
abbrev pub has : ℕ → ℕ → Bool
has x bit = not (bit_and x bit == 0)

-- if (x & bit) v |= set
abbrev pub or_if : ℕ → ℕ → ℕ → ℕ → ℕ
or_if x bit set v = if has x bit then bit_or v set else v

-- MII_BMCR, _BMSR, _ADVERTISE, _LPA, _CTRL1000, _STAT1000, _ESTATUS
abbrev pub mii_bmcr : ℕ
mii_bmcr = 0x00

abbrev pub mii_bmsr : ℕ
mii_bmsr = 0x01

abbrev pub mii_physid1 : ℕ
mii_physid1 = 0x02

abbrev pub mii_physid2 : ℕ
mii_physid2 = 0x03

abbrev pub mii_advertise : ℕ
mii_advertise = 0x04

abbrev pub mii_lpa : ℕ
mii_lpa = 0x05

abbrev pub mii_ctrl1000 : ℕ
mii_ctrl1000 = 0x09

abbrev pub mii_stat1000 : ℕ
mii_stat1000 = 0x0a

abbrev pub mii_estatus : ℕ
mii_estatus = 0x0f

abbrev pub speed_10 : ℕ
speed_10 = 10

abbrev pub speed_100 : ℕ
speed_100 = 100

abbrev pub speed_1000 : ℕ
speed_1000 = 1000

abbrev pub duplex_half : ℕ
duplex_half = 0

abbrev pub duplex_full : ℕ
duplex_full = 1

-- The new contents of MII_ADVERTISE.
abbrev pub advert_word : ℕ → ℕ → ℕ
advert_word advertise adv =
    let a0 = bit_and adv (not32 0xfe0) in
    let a1 = or_if advertise 0x1 0x20 a0 in
    let a2 = or_if advertise 0x2 0x40 a1 in
    let a3 = or_if advertise 0x4 0x80 a2 in
    let a4 = or_if advertise 0x8 0x100 a3 in
    let a5 = or_if advertise 0x2000 0x400 a4 in
    let a6 = or_if advertise 0x4000 0x800 a5 in
    let a7 = or_if advertise 0x200000 0x40 a6 in or_if advertise 0x400000 0x20 a7

-- The new contents of MII_CTRL1000.
abbrev pub gigabit_word : ℕ → ℕ → ℕ → ℕ
gigabit_word supported advertise adv =
    let a0 = bit_and adv (not32 0x300) in
    if has supported 0x30 then or_if advertise 0x20 0x200 (or_if advertise 0x10 0x100 a0) else a0

-- The second half of genphy_config_advert, from the read of MII_BMSR on.
unfoldable pub advert_gigabit : ℕ → ℕ → ℕ → M ℕ
advert_gigabit supported advertise changed = do
  bmsr ← phy_read mii_bmsr
  elim (negative bmsr) [
    | true ↦ pure bmsr
    | false ↦ elim (has bmsr 0x100) [
      | false ↦ pure changed
      | true ↦ do
        adv ← phy_read mii_ctrl1000
        elim (negative adv) [
          | true ↦ pure adv
          | false ↦ do
            let new = gigabit_word supported advertise adv
            err ← phy_write mii_ctrl1000 new
            pure (if negative err then err else if new == adv then changed else 1)
        ]
    ]
  ]

unfoldable pub genphy_config_advert : PhyDevice → M (ℕ × PhyDevice)
unfolding advert_gigabit
genphy_config_advert phydev = do
  let advertise = bit_and phydev.advertising phydev.supported
  let phydev' = record phydev { advertising = advertise }
  adv ← phy_read mii_advertise
  elim (negative adv) [
    | true ↦ pure (adv, phydev')
    | false ↦ do
      let new = advert_word advertise adv
      elim (new == adv) [
        | true ↦ do r ← advert_gigabit phydev.supported advertise 0; pure (r, phydev')
        | false ↦ do
          err ← phy_write mii_advertise new
          elim (negative err) [
            | true ↦ pure (err, phydev')
            | false ↦ do r ← advert_gigabit phydev.supported advertise 1; pure (r, phydev')
          ]
      ]
  ]

unfoldable pub genphy_setup_forced : PhyDevice → M (ℕ × PhyDevice)
genphy_setup_forced phydev = do
  let speed_bit =
      if phydev.speed == speed_1000 then 0x40 else if phydev.speed == speed_100 then 0x2000 else 0
  let ctl = bit_or 0x200 speed_bit
  err ← phy_write mii_bmcr (if phydev.duplex == duplex_full then bit_or ctl 0x100 else ctl)
  pure (err, record phydev { pause = 0; asym_pause = 0 })

unfoldable pub genphy_restart_aneg : M ℕ
genphy_restart_aneg = do
  ctl ← phy_read mii_bmcr
  elim (negative ctl) [
    | true ↦ pure ctl
    | false ↦ phy_write mii_bmcr (bit_and (bit_or ctl 0x1200) (not32 0x400))
  ]

-- What follows genphy_config_advert.
abbrev pub aneg_result : ℕ → M ℕ
aneg_result result =
    if negative result
    then pure result
    else if result == 0
    then (do
      ctl ← phy_read mii_bmcr
      elim (negative ctl) [
        | true ↦ pure ctl
        | false ↦ if not (has ctl 0x1000) || has ctl 0x400 then genphy_restart_aneg else pure 0
      ])
    else genphy_restart_aneg

unfoldable pub genphy_config_aneg : PhyDevice → M (ℕ × PhyDevice)
unfolding genphy_setup_forced genphy_config_advert
genphy_config_aneg phydev = elim phydev.autoneg [
  | false ↦ genphy_setup_forced phydev
  | true ↦ do r ← genphy_config_advert phydev; result ← aneg_result r.0; pure (result, r.1)
]
