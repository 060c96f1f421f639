-- ===== src/Phy/Link.antt =====
-- uboot/phy.c: the state of the link, its speed and duplex, and the set-up and reset of the PHY.
use bsp_v3s.Common.{
  ℕ, zero, suc, ◌==◌, bit_and, bit_or, if◌then◌else◌, Bool, true, false, not, ◌&&◌, Option, none,
  some,
}
use bsp_v3s.Word.{shl32}
use bsp_v3s.Machine.Io.{M, pure, udelay, ◌>>=◌, ◌>>◌}
use bsp_v3s.Phy.{
  PhyDevice, phy_read, phy_write, negative, minus, has, or_if, mii_bmcr, mii_bmsr, mii_physid1,
  mii_physid2, mii_advertise, mii_lpa, mii_ctrl1000, mii_stat1000, mii_estatus, speed_10, speed_100,
  speed_1000, duplex_half, duplex_full, genphy_config_aneg,
}

-- driver/board.c: no key is ever pressed.
abbrev pub ctrlc : ℕ
ctrlc = 0

-- -ETIMEDOUT, -EINTR, -EIO and -ENOTSUPP
abbrev pub etimedout : ℕ
etimedout = minus 110

abbrev pub eintr : ℕ
eintr = minus 4

abbrev pub eio : ℕ
eio = minus 5

abbrev pub enotsupp : ℕ
enotsupp = minus 524

-- The wait for auto-negotiation with `left` polls to go, of PHY_ANEG_TIMEOUT + 1 in all, after one
-- that read `mii_reg`.
unfoldable pub aneg_wait : ℕ → ℕ → PhyDevice → M (ℕ × PhyDevice)
aneg_wait zero mii_reg phydev =
    if has mii_reg 0x20
    then pure (0, record phydev { link = true })
    else pure (etimedout, record phydev { link = false })
aneg_wait (suc left) mii_reg phydev = elim (has mii_reg 0x20) [
  | true ↦ pure (0, record phydev { link = true })
  | false ↦ elim (not (ctrlc == 0)) [
    | true ↦ pure (eintr, record phydev { link = false })
    | false ↦ do udelay 1000; mii_reg' ← phy_read mii_bmsr; aneg_wait left mii_reg' phydev
  ]
]

unfoldable pub genphy_update_link : PhyDevice → M (ℕ × PhyDevice)
unfolding aneg_wait
genphy_update_link phydev = do
  mii_reg ← phy_read mii_bmsr
  elim (phydev.link && has mii_reg 0x4) [
    | true ↦ pure (0, phydev)
    | false ↦ elim (phydev.autoneg && not (has mii_reg 0x20)) [
      | true ↦ aneg_wait 4001 mii_reg phydev
      | false ↦ do again ← phy_read mii_bmsr; pure (0, record phydev { link = has again 0x4 })
    ]
  ]

-- Speed and duplex.
abbrev pub Mode : Type 0
Mode = ℕ × ℕ

-- What both sides can do at 1000 Mbit/s, read only if the PHY supports it.
unfoldable pub gigabit_common : ℕ → M ℕ
gigabit_common supported = elim (has supported 0x30) [
  | false ↦ pure 0
  | true ↦ do
    stat ← phy_read mii_stat1000
    ctrl ← phy_read mii_ctrl1000
    pure (bit_and (if negative stat then 0 else stat) (shl32 ctrl 2))
]

-- The mode by the words of common abilities: a gigabit mode if there is one.
abbrev pub mode_of_gigabit : ℕ → Option Mode
mode_of_gigabit gblpa =
    if has gblpa 0xc00
    then some (speed_1000, if has gblpa 0x800 then duplex_full else duplex_half)
    else none

abbrev pub mode_of_lpa : ℕ → Mode
mode_of_lpa lpa =
    if has lpa 0x180
    then (speed_100, if has lpa 0x100 then duplex_full else duplex_half)
    else (speed_10, if has lpa 0x40 then duplex_full else duplex_half)

abbrev pub mode_of_estatus : ℕ → Mode → Mode
mode_of_estatus estatus mode =
    if has estatus 0xf000
    then (speed_1000, if has estatus 0xa000 then duplex_full else mode.1)
    else mode

abbrev pub mode_of_bmcr : ℕ → Mode
mode_of_bmcr bmcr = (
  if has bmcr 0x40 then speed_1000 else if has bmcr 0x2000 then speed_100 else speed_10,
  if has bmcr 0x100 then duplex_full else duplex_half,
)

-- MII_ESTATUS is read only where the PHY has it and lacks the gigabit registers.
unfoldable pub estatus_of : ℕ → M ℕ
estatus_of mii_reg =
    if has mii_reg 0x100 && not (has mii_reg 0x1) then phy_read mii_estatus else pure 0

-- The rest of the negotiated case, without or with a gigabit mode.
unfoldable pub negotiated : ℕ → Option Mode → M Mode
unfolding estatus_of
negotiated mii_reg (some mode) = pure mode
negotiated mii_reg none = do
  adv ← phy_read mii_advertise
  lpa ← phy_read mii_lpa
  estatus ← estatus_of mii_reg
  pure (mode_of_estatus estatus (mode_of_lpa (bit_and adv lpa)))

unfoldable pub genphy_parse_link : PhyDevice → M (ℕ × PhyDevice)
unfolding gigabit_common negotiated
genphy_parse_link phydev = do
  mii_reg ← phy_read mii_bmsr
  mode ← elim phydev.autoneg [
    | true ↦ do gblpa ← gigabit_common phydev.supported; negotiated mii_reg (mode_of_gigabit gblpa)
    | false ↦ do bmcr ← phy_read mii_bmcr; pure (mode_of_bmcr bmcr)
  ]
  pure (0, record phydev { speed = mode.0; duplex = mode.1 })

-- The features that MII_BMSR and MII_ESTATUS state.
abbrev pub basic_features : ℕ → ℕ
basic_features val =
    or_if val 0x800 0x1 (
      or_if val 0x1000 0x2 (or_if val 0x2000 0x4 (or_if val 0x4000 0x8 (or_if val 0x8 0x40 0xf80))))

abbrev pub gigabit_features : ℕ → ℕ → ℕ
gigabit_features val features =
    or_if val 0x4000 0x200000
      (or_if val 0x8000 0x400000 (or_if val 0x1000 0x10 (or_if val 0x2000 0x20 features)))

-- What follows the reading of the features; the result of genphy_config_aneg is dropped.
abbrev pub config_with : ℕ → PhyDevice → M (ℕ × PhyDevice)
config_with features phydev = do
  r ← genphy_config_aneg (record phydev {
    supported = bit_and phydev.supported features;
    advertising = bit_and phydev.advertising features;
  })
  pure (0, r.1)

unfoldable pub genphy_config : PhyDevice → M (ℕ × PhyDevice)
genphy_config phydev = do
  val ← phy_read mii_bmsr
  elim (negative val) [
    | true ↦ pure (val, phydev)
    | false ↦ elim (has val 0x100) [
      | false ↦ config_with (basic_features val) phydev
      | true ↦ do
        ext ← phy_read mii_estatus
        elim (negative ext) [
          | true ↦ pure (ext, phydev)
          | false ↦ config_with (gigabit_features ext (basic_features val)) phydev
        ]
    ]
  ]

unfoldable pub genphy_startup : PhyDevice → M (ℕ × PhyDevice)
unfolding genphy_update_link genphy_parse_link
genphy_startup phydev = do
  r ← genphy_update_link phydev
  elim (r.0 == 0) [ true ↦ genphy_parse_link r.1 | false ↦ pure r ]

unfoldable pub phy_set_supported : PhyDevice → ℕ → ℕ × PhyDevice
phy_set_supported phydev max_speed =
    let base = bit_and phydev.supported 0x2c0 in
    if max_speed == speed_1000
    then (0, record phydev { supported = bit_or (bit_or (bit_or base 0x30) 0xc) 0x3 })
    else if max_speed == speed_100
    then (0, record phydev { supported = bit_or (bit_or base 0xc) 0x3 })
    else if max_speed == speed_10
    then (0, record phydev { supported = bit_or base 0x3 })
    else (enotsupp, record phydev { supported = base })

-- The result, and what is stored through `phy_id`, which keeps what it held on an early error.
unfoldable pub get_phy_id : ℕ → M (ℕ × ℕ)
get_phy_id phy_id = do
  high ← phy_read mii_physid1
  elim (negative high) [
    | true ↦ pure (eio, phy_id)
    | false ↦ do
      low ← phy_read mii_physid2
      let first = shl32 (bit_and high 0xffff) 16
      pure (if negative low then (eio, first) else (0, bit_or first (bit_and low 0xffff)))
  ]

-- The loop of phy_reset, after a read of `reg`: what it ends with, or none on a read error.
unfoldable pub phy_reset_wait : ℕ → ℕ → M (Option ℕ)
phy_reset_wait zero reg = pure (some reg)
phy_reset_wait (suc timeout) reg = elim (has reg 0x8000) [
  | false ↦ pure (some reg)
  | true ↦ do
    reg' ← phy_read mii_bmcr
    elim (negative reg') [ true ↦ pure none | false ↦ udelay 1000 >> phy_reset_wait timeout reg' ]
]

-- `broken` is PHY_FLAG_BROKEN_RESET of the flags.
unfoldable pub phy_reset : Bool → M ℕ
unfolding phy_reset_wait
phy_reset true = pure 0
phy_reset false = do
  err ← phy_write mii_bmcr 0x8000
  elim (negative err) [
    | true ↦ pure (minus 1)
    | false ↦ do
      reg ← phy_read mii_bmcr
      r ← phy_reset_wait 500 reg
      pure (elim r [ none ↦ minus 1 | some last ↦ if has last 0x8000 then minus 1 else 0 ])
  ]
