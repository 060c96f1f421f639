-- ===== src/Emac/Mac.antt =====
-- uboot/sun8i_emac.c: the MDIO bus, the MAC address, the link and the set-up of the controller. The
-- registers of the MAC are given by their offsets, those of the clock unit and the system control
-- register by their addresses; rt_tick_get() is a read of `tick`.
use bsp_v3s.Common.{
  ℕ, zero, suc, ◌+◌, ◌-◌, ◌*◌, ◌==◌, ltb, bit_and, bit_or, if◌then◌else◌, Bool, true, false, Option,
  none, some, ℤ, pos, negsuc,
}
use bsp_v3s.Word.{u32, shl32, not32, sub32}
use bsp_v3s.Machine.Io.{M, pure, readl, writel, udelay, ◌>>=◌, ◌>>◌}
use bsp_v3s.Emac.{Emac, emac_tx_ctl1, rx_descs_init, tx_descs_init}

abbrev pub emac_ctl0 : ℕ
emac_ctl0 = 0x00

abbrev pub emac_ctl1 : ℕ
emac_ctl1 = 0x04

abbrev pub emac_int_en : ℕ
emac_int_en = 0x0c

abbrev pub emac_tx_ctl0 : ℕ
emac_tx_ctl0 = 0x10

abbrev pub emac_rx_ctl0 : ℕ
emac_rx_ctl0 = 0x24

abbrev pub emac_rx_ctl1 : ℕ
emac_rx_ctl1 = 0x28

abbrev pub emac_mii_cmd : ℕ
emac_mii_cmd = 0x48

abbrev pub emac_mii_data : ℕ
emac_mii_data = 0x4c

abbrev pub emac_addr0_high : ℕ
emac_addr0_high = 0x50

abbrev pub emac_addr0_low : ℕ
emac_addr0_low = 0x54

-- CONFIG_MDIO_TIMEOUT
abbrev pub mdio_timeout : ℕ
mdio_timeout = 3000

abbrev pub setbits_le32 : ℕ → ℕ → M (Unit {0})
setbits_le32 a set = do v ← readl a; writel (bit_or v set) a

abbrev pub clrbits_le32 : ℕ → ℕ → M (Unit {0})
clrbits_le32 a clear = do v ← readl a; writel (bit_and v (not32 clear)) a

-- The address of a register of a PHY in a command word.
abbrev pub miiaddr : ℕ → ℕ → ℕ
miiaddr addr reg = bit_or (bit_and (shl32 reg 4) 0x1f0) (bit_and (shl32 addr 12) 0x1f000)

-- A 32-bit word as a C int.
abbrev pub int_of : ℕ → ℤ
int_of v = if ltb v 2147483648 then pos v else negsuc (4294967295 - v)

-- What a read returns after its wait.
abbrev pub read_data : Option Bool → M (Option ℤ)
read_data none = pure none
read_data (some false) = pure (some (negsuc 0))
read_data (some true) = do v ← readl emac_mii_data; pure (some (int_of v))

module _ (tick : ℕ) where
  -- The wait of both MDIO operations: true is a command that ended, false a time that is over, none
  -- a loop that goes on.
  unfoldable pub mii_wait : ℕ → ℕ → M (Option Bool)
  mii_wait zero start = pure none
  mii_wait (suc fuel) start = do
    now ← readl tick
    elim (ltb (sub32 now start) mdio_timeout) [
      | false ↦ pure (some false)
      | true ↦ do
        cmd ← readl emac_mii_cmd
        elim (bit_and cmd 1 == 0) [
          | true ↦ pure (some true)
          | false ↦ do udelay 10; mii_wait fuel start
        ]
    ]

  unfoldable pub sun8i_mdio_read : ℕ → ℕ → ℕ → M (Option ℤ)
  unfolding mii_wait
  sun8i_mdio_read fuel addr reg = do
    writel (bit_or (miiaddr addr reg) 1) emac_mii_cmd
    start ← readl tick
    r ← mii_wait fuel start
    read_data r

  unfoldable pub sun8i_mdio_write : ℕ → ℕ → ℕ → ℕ → M (Option ℤ)
  unfolding mii_wait
  sun8i_mdio_write fuel addr reg val = do
    writel val emac_mii_data
    writel (bit_or (bit_or (miiaddr addr reg) 2) 1) emac_mii_cmd
    start ← readl tick
    r ← mii_wait fuel start
    pure (elim r [ none ↦ none | some false ↦ some (negsuc 0) | some true ↦ some (pos 0) ])

-- The six bytes of the address.
unfoldable pub sun8i_write_hwaddr : (ℕ → ℕ) → M (Unit {0})
sun8i_write_hwaddr mac_id = do
  writel (u32 (mac_id 4 + mac_id 5 * 256)) emac_addr0_high
  writel (u32 (mac_id 0 + mac_id 1 * 256 + mac_id 2 * 65536 + mac_id 3 * 16777216)) emac_addr0_low

-- `duplex` and `speed` of the PHY.
abbrev pub link_word : Bool → ℕ → ℕ → ℕ
link_word duplex speed v =
    let v1 = if duplex then bit_or v 1 else bit_and v (not32 1) in
    let v2 = bit_and v1 (not32 0x0c) in
    if speed == 100 then bit_or (bit_or v2 4) 8 else if speed == 10 then bit_or v2 8 else v2

unfoldable pub sun8i_adjust_link : Bool → ℕ → M (Unit {0})
sun8i_adjust_link duplex speed = do v ← readl emac_ctl0; writel (link_word duplex speed v) emac_ctl0

pub data Variant : Type 0 where
  a83t : Variant
  h3 : Variant
  a64 : Variant

pub data Interface : Type 0 where
  mii : Interface
  rgmii : Interface
  rmii : Interface
  another : Interface

-- H3_EPHY_DEFAULT_MASK and _VALUE, H3_EPHY_SHUTDOWN, H3_EPHY_SELECT
abbrev pub ephy_word : Bool → ℕ → ℕ → ℕ
ephy_word use_internal_phy phyaddr reg =
    if use_internal_phy
    then (let r1 = bit_or (bit_and reg (not32 0xffff8000)) 0x58000 in
        let r2 = bit_or r1 (shl32 phyaddr 20) in bit_or (bit_and r2 (not32 0x10000)) 0x8000)
    else bit_and reg (not32 0x8000)

-- SC_RMII_EN is there on the H3 and the A64.
abbrev pub has_rmii : Variant → Bool
has_rmii a83t = false
has_rmii h3 = true
has_rmii a64 = true

abbrev pub is_h3 : Variant → Bool
is_h3 a83t = false
is_h3 h3 = true
is_h3 a64 = false

-- What the interface adds to the register; none is an interface that is not supported.
abbrev pub interface_word : Interface → Variant → ℕ → Option ℕ
interface_word mii v reg = some reg
interface_word rgmii v reg = some (bit_or reg 6)
interface_word rmii v reg = if has_rmii v then some (bit_or reg 0x2001) else none
interface_word another v reg = none

abbrev pub syscon_word : Variant → Bool → ℕ → Interface → ℕ → Option ℕ
syscon_word v internal phyaddr interface reg =
    let r1 = if is_h3 v then ephy_word internal phyaddr reg else reg in
    let r2 = bit_and r1 (not32 7) in
    let r3 = if has_rmii v then bit_and r2 (not32 0x2000) else r2 in interface_word interface v r3

unfoldable pub sun8i_emac_set_syscon : ℕ → Variant → Bool → ℕ → Interface → M ℤ
sun8i_emac_set_syscon sysctl v internal phyaddr interface = do
  reg ← readl sysctl
  elim (syscon_word v internal phyaddr interface reg) [
    | none ↦ pure (negsuc 21)
    | some r ↦ do writel r sysctl; pure (pos 0)
  ]

-- The reset's loop: `timeout` reads at most; false is a reset that did not end.
unfoldable pub reset_wait : ℕ → M Bool
reset_wait zero = pure false
reset_wait (suc timeout) = do
  reg ← readl emac_ctl1
  elim (bit_and reg 1 == 0) [ true ↦ pure true | false ↦ reset_wait timeout ]

-- What follows the reset. `parse_link` is genphy_parse_link of the PHY: its duplex and speed.
unfoldable pub emac_start : M (Bool × ℕ) → (ℕ → ℕ) → Emac → M Emac
unfolding sun8i_write_hwaddr sun8i_adjust_link
emac_start parse_link enetaddr e = do
  sun8i_write_hwaddr enetaddr
  setbits_le32 emac_tx_ctl1 2
  setbits_le32 emac_rx_ctl1 2
  writel 0x8000000 emac_ctl1
  e1 ← rx_descs_init e
  e2 ← tx_descs_init e1
  phy ← parse_link
  sun8i_adjust_link phy.0 phy.1
  setbits_le32 emac_rx_ctl1 0x40000000
  setbits_le32 emac_tx_ctl1 0x40000000
  setbits_le32 emac_rx_ctl0 0x80000000
  setbits_le32 emac_tx_ctl0 0x80000000
  setbits_le32 emac_int_en 0x100
  pure e2

-- The rest of the set-up, for a reset that ended or did not.
abbrev pub after_reset : M (Bool × ℕ) → (ℕ → ℕ) → Emac → Bool → M (ℤ × Emac)
after_reset parse_link enetaddr e false = pure (negsuc 0, e)
after_reset parse_link enetaddr e true = do e' ← emac_start parse_link enetaddr e; pure (pos 0, e')

unfoldable pub sun8i_emac_eth_init : M (Bool × ℕ) → (ℕ → ℕ) → Emac → M (ℤ × Emac)
unfolding reset_wait emac_start
sun8i_emac_eth_init parse_link enetaddr e = do
  reg ← readl emac_ctl1
  ok ← elim (bit_and reg 1 == 0) [
    | true ↦ setbits_le32 emac_ctl1 1 >> reset_wait 100
    | false ↦ pure true
  ]
  after_reset parse_link enetaddr e ok

-- phy_shutdown calls the driver's shutdown, which does nothing for the generic PHY.
unfoldable pub sun8i_emac_eth_stop : M (Unit {0})
sun8i_emac_eth_stop = do
  clrbits_le32 emac_rx_ctl0 0x80000000
  clrbits_le32 emac_tx_ctl0 0x80000000
  clrbits_le32 emac_tx_ctl1 0x40000000

-- Offsets in `struct sunxi_ccm_reg`.
unfoldable pub sun8i_emac_board_setup : Bool → M (Unit {0})
sun8i_emac_board_setup use_internal_phy = do
  elim use_internal_phy [ true ↦ setbits_le32 0x70 1 >> setbits_le32 0x2c8 4 | false ↦ pure tt ]
  setbits_le32 0x60 0x20000
  setbits_le32 0x2c0 0x20000
