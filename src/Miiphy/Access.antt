-- ===== src/Miiphy/Access.antt =====
-- uboot/miiphyutil.c: reads and writes of PHY registers by the name of a bus, and the functions that
-- are made of them. A call through a function pointer that is null has no result, `none`. PHY and
-- register addresses are below 256. CONFIG_PHY_GIGE and CONFIG_PHY_RESET_DELAY are not defined.
use bsp_v3s.Common.{
  ℕ, zero, suc, ◌%◌, ◌^◌, ◌==◌, bit_and, bit_or, if◌then◌else◌, true, false, List, Option, none,
  some, ℤ, pos, negsuc,
}
use bsp_v3s.Word.{shl32, shr}
use bsp_v3s.Machine.Io.{Io, M}
use bsp_v3s.Machine.Io
use bsp_v3s.Phy.{has, mii_bmcr, mii_bmsr, mii_physid1, mii_physid2, mii_advertise, mii_lpa}
use bsp_v3s.Miiphy.{Mii, miiphy_get_active_dev}

-- The registry and the devices.
pub record World : Type 0 where
  pub mii : Mii
  pub io : Io

abbrev pub Op : Type 0 → Type 0
Op A = World → Option (A × World)

abbrev pub pure : {A : Type 0} → A → Op A
pure a w = some (a, w)

infixl 5 ◌>>=◌ ◌>>◌
abbrev pub ◌>>=◌ : {A B : Type 0} → Op A → (A → Op B) → Op B
◌>>=◌ m f w = elim (m w) [ none ↦ none | some r ↦ f r.0 r.1 ]

abbrev pub ◌>>◌ : {B : Type 0} → Op (Unit {0}) → Op B → Op B
m >> k = m >>= λ _. k

abbrev pub udelay : ℕ → Op (Unit {0})
udelay n w = let r = Io.udelay n w.io in some (tt, record w { io = r.1 })

abbrev pub mdio_devad_none : ℤ
mdio_devad_none = negsuc 0

-- What miiphy_read makes of the bus's result: a negative one is a failure, and the value is a u16.
abbrev pub u16_of : ℤ → Option ℕ
u16_of (pos n) = some (n % 2 ^ 16)
u16_of (negsuc n) = none

abbrev pub call_read : Option (ℕ → ℤ → ℕ → M ℤ) → ℕ → ℕ → Op (Option ℕ)
call_read none addr reg w = none
call_read (some read) addr reg w =
    let r = read addr mdio_devad_none reg w.io in some (u16_of r.0, record w { io = r.1 })

abbrev pub read_bus : Option ℕ → ℕ → ℕ → Op (Option ℕ)
read_bus none addr reg w = some (none, w)
read_bus (some p) addr reg w = call_read (w.mii.bus p).read addr reg w

-- The value that is stored with result 0, or none with result 1.
unfoldable pub miiphy_read : List ℕ → ℕ → ℕ → Op (Option ℕ)
miiphy_read devname addr reg w =
    let (bus, m) = miiphy_get_active_dev devname w.mii in
    read_bus bus addr reg (record w { mii = m })

abbrev pub call_write : Option (ℕ → ℤ → ℕ → ℕ → M ℤ) → ℕ → ℕ → ℕ → Op ℤ
call_write none addr reg value w = none
call_write (some write) addr reg value w =
    let r = write addr mdio_devad_none reg value w.io in some (r.0, record w { io = r.1 })

abbrev pub write_bus : Option ℕ → ℕ → ℕ → ℕ → Op ℤ
write_bus none addr reg value w = some (pos 1, w)
write_bus (some p) addr reg value w = call_write (w.mii.bus p).write addr reg value w

unfoldable pub miiphy_write : List ℕ → ℕ → ℕ → ℕ → Op ℤ
miiphy_write devname addr reg value w =
    let (bus, m) = miiphy_get_active_dev devname w.mii in
    write_bus bus addr reg value (record w { mii = m })

-- OUI, model and revision of an identifier.
abbrev pub id_fields : ℕ → ℕ × ℕ × ℕ
id_fields reg = (shr reg 10, bit_and (shr reg 4) 0x3f, bit_and reg 0xf)

-- None for result -1.
unfoldable pub miiphy_info : List ℕ → ℕ → Op (Option (ℕ × ℕ × ℕ))
miiphy_info devname addr = do
  id2 ← miiphy_read devname addr mii_physid2
  elim id2 [
    | none ↦ pure none
    | some low ↦ elim (low == 0xffff) [
      | true ↦ pure none
      | false ↦ do
        id1 ← miiphy_read devname addr mii_physid1
        elim id1 [
          | none ↦ pure none
          | some high ↦ pure (some (id_fields (bit_or low (shl32 high 16))))
        ]
    ]
  ]

-- The loop of miiphy_reset, with `timeout` rounds left: what BMCR held last, or none after a read
-- that failed.
unfoldable pub reset_polls : List ℕ → ℕ → ℕ → ℕ → Op (Option ℕ)
reset_polls devname addr zero reg = pure (some reg)
reset_polls devname addr (suc timeout) reg = elim (has reg 0x8000) [
  | false ↦ pure (some reg)
  | true ↦ do
    r ← miiphy_read devname addr mii_bmcr
    elim r [ none ↦ pure none | some v ↦ do udelay 1000; reset_polls devname addr timeout v ]
]

-- From the write of the reset bit on.
abbrev pub reset_started : List ℕ → ℕ → ℤ → Op ℤ
reset_started devname addr (pos zero) = do
  r ← reset_polls devname addr 500 0x8000
  elim r [ none ↦ pure (negsuc 0) | some reg ↦ pure (if has reg 0x8000 then negsuc 0 else pos 0) ]
reset_started devname addr ret = pure (negsuc 0)

unfoldable pub miiphy_reset : List ℕ → ℕ → Op ℤ
miiphy_reset devname addr = do
  r ← miiphy_read devname addr mii_bmcr
  elim r [
    | none ↦ pure (negsuc 0)
    | some reg ↦ do
      ret ← miiphy_write devname addr mii_bmcr (bit_or reg 0x8000)
      reset_started devname addr ret
  ]

-- miiphy_speed and miiphy_duplex take the same steps: `assumed` when a read fails, `negotiated` bits of
-- what both ends offer, or `forced` bits of BMCR, choose between two results.
module _ (devname : List ℕ) (addr assumed chosen negotiated forced : ℕ) where
  abbrev pub by_offers : ℕ → Op ℕ
  by_offers anlpar = do
    r ← miiphy_read devname addr mii_advertise
    elim r [
      | none ↦ pure assumed
      | some adv ↦ pure (if has (bit_and anlpar adv) negotiated then chosen else assumed)
    ]

  unfoldable pub by_bmcr : Op ℕ
  by_bmcr = do
    r ← miiphy_read devname addr mii_bmcr
    elim r [
      | none ↦ pure assumed
      | some bmcr ↦ elim (has bmcr 0x1000) [
        | false ↦ pure (if has bmcr forced then chosen else assumed)
        | true ↦ do
          l ← miiphy_read devname addr mii_lpa
          elim l [ none ↦ pure assumed | some anlpar ↦ by_offers anlpar ]
      ]
    ]

-- _10BASET, _100BASET, HALF and FULL are 10, 100, 22 and 44.
abbrev pub miiphy_speed : List ℕ → ℕ → Op ℕ
miiphy_speed devname addr = by_bmcr devname addr 10 100 0x380 0x2000

abbrev pub miiphy_duplex : List ℕ → ℕ → Op ℕ
miiphy_duplex devname addr = by_bmcr devname addr 22 44 0x140 0x100

abbrev pub miiphy_is_1000base_x : List ℕ → ℕ → ℕ
miiphy_is_1000base_x devname addr = 0

unfoldable pub miiphy_link : List ℕ → ℕ → Op ℕ
miiphy_link devname addr = do
  latch ← miiphy_read devname addr mii_bmsr
  r ← miiphy_read devname addr mii_bmsr
  elim r [ none ↦ pure 0 | some reg ↦ pure (if has reg 0x4 then 1 else 0) ]
