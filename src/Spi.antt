-- ===== src/Spi.antt =====
-- uboot/sunxi_spi.c: the SPI controller. Addresses are those of the first controller, and of the
-- clock unit where the driver opens its gates.
pub mod Speed
pub mod Log
pub mod Rounds
pub mod Transfer
pub mod Returns
pub mod Device
use bsp_v3s.Common.{
  ℕ, zero, suc, ◌+◌, ◌-◌, ◌*◌, ◌/◌, ◌%◌, ◌==◌, ltb, leb, bit_and, bit_or, if◌then◌else◌, Bool, true,
  false, not, ◌&&◌, Option, none, some, List, [], ◌∷◌, ℤ, pos, negsuc, min, max,
}
use bsp_v3s.Word.{u8, u32, shl32, shr, not32, sub32}
use bsp_v3s.Machine.Io.{M, pure, readl, writel, udelay, ◌>>=◌, ◌>>◌}

abbrev pub ahb_gate0 : ℕ
ahb_gate0 = 0x01c20060

abbrev pub spi0_clk_cfg : ℕ
spi0_clk_cfg = 0x01c200a0

abbrev pub ahb_reset0_cfg : ℕ
ahb_reset0_cfg = 0x01c202c0

abbrev pub glb_ctl : ℕ
glb_ctl = 0x01c68004

abbrev pub xfer_ctl : ℕ
xfer_ctl = 0x01c68008

abbrev pub fifo_ctl : ℕ
fifo_ctl = 0x01c68018

abbrev pub fifo_sta : ℕ
fifo_sta = 0x01c6801c

abbrev pub clk_ctl : ℕ
clk_ctl = 0x01c68024

abbrev pub burst_cnt : ℕ
burst_cnt = 0x01c68030

abbrev pub xmit_cnt : ℕ
xmit_cnt = 0x01c68034

abbrev pub burst_ctl : ℕ
burst_ctl = 0x01c68038

abbrev pub tx_data : ℕ
tx_data = 0x01c68200

abbrev pub rx_data : ℕ
rx_data = 0x01c68300

abbrev pub ctl_srst : ℕ
ctl_srst = 2147483648

abbrev pub setbits : ℕ → ℕ → M (Unit {0})
setbits a s = do v ← readl a; writel (bit_or v s) a

abbrev pub clrbits : ℕ → ℕ → M (Unit {0})
clrbits a c = do v ← readl a; writel (bit_and v (not32 c)) a

unfoldable pub spi_enable_clock : M (Unit {0})
spi_enable_clock = do
  setbits ahb_reset0_cfg 1048576
  setbits ahb_gate0 1048576
  writel 2147483648 spi0_clk_cfg

unfoldable pub spi_disable_clock : M (Unit {0})
spi_disable_clock = do
  writel 0 spi0_clk_cfg
  clrbits ahb_gate0 1048576
  clrbits ahb_reset0_cfg 1048576

-- The delays of `struct sunxi_spi_priv` and the time of the last transaction.
pub record Priv : Type 0 where
  pub activate_delay_us : ℕ
  pub deactivate_delay_us : ℕ
  pub last_transaction_us : ℕ

-- timer_get_us() is a read of `tick`, rt_tick_get(), times 1000.
module _ (tick : ℕ) where
  unfoldable pub spi_cs_activate : Priv → ℕ → M (Unit {0})
  spi_cs_activate p cs = do
    elim (not (p.deactivate_delay_us == 0) && not (p.last_transaction_us == 0)) [
      | false ↦ pure tt
      | true ↦ do
        now ← readl tick
        let delay_us = sub32 (u32 (now * 1000)) p.last_transaction_us
        elim (ltb delay_us p.deactivate_delay_us) [
          | true ↦ udelay (p.deactivate_delay_us - delay_us)
          | false ↦ pure tt
        ]
    ]
    reg ← readl xfer_ctl
    writel (bit_or (bit_and reg (not32 176)) (bit_and (shl32 cs 4) 0x30)) xfer_ctl
    elim (p.activate_delay_us == 0) [ true ↦ pure tt | false ↦ udelay p.activate_delay_us ]

  -- The new state of the device.
  unfoldable pub spi_cs_deactivate : Priv → M Priv
  spi_cs_deactivate p = do
    reg ← readl xfer_ctl
    writel (bit_or (bit_and reg (not32 0x30)) 128) xfer_ctl
    elim (p.deactivate_delay_us == 0) [
      | true ↦ pure p
      | false ↦ do now ← readl tick; pure (record p { last_transaction_us = u32 (now * 1000) })
    ]

-- The wait for the end of the soft reset; false is a loop that goes on.
unfoldable pub srst_wait : ℕ → M Bool
srst_wait zero = pure false
srst_wait (suc fuel) = do
  v ← readl glb_ctl
  elim (bit_and v ctl_srst == 0) [ true ↦ pure true | false ↦ srst_wait fuel ]

-- `none` is a wait that goes on.
unfoldable pub sunxi_spi_claim_bus : ℕ → M (Option ℤ)
unfolding spi_enable_clock srst_wait
sunxi_spi_claim_bus fuel = do
  spi_enable_clock
  setbits glb_ctl 2147483779
  ok ← srst_wait fuel
  elim ok [
    | false ↦ pure none
    | true ↦ do setbits xfer_ctl 192; setbits fifo_ctl 2147516416; pure (some (pos 0))
  ]

unfoldable pub sunxi_spi_release_bus : M ℤ
unfolding spi_disable_clock
sunxi_spi_release_bus = do clrbits glb_ctl 3; spi_disable_clock; pure (pos 0)

-- The bytes `i` to `i + n - 1` of the buffer.
unfoldable pub write_bytes : (ℕ → ℕ) → ℕ → ℕ → M (Unit {0})
write_bytes buf zero i = pure tt
write_bytes buf (suc n) i = do writel (u8 (buf i)) tx_data; write_bytes buf n (i + 1)

-- sunxi_spi_write from index `i` of the buffer, if there is one.
unfoldable pub sunxi_spi_write : Option (ℕ → ℕ) → ℕ → ℕ → M (Unit {0})
unfolding write_bytes
sunxi_spi_write none i nbytes = do writel 0 xmit_cnt; writel 0 burst_ctl
sunxi_spi_write (some buf) i nbytes = do
  writel (bit_and nbytes 0xffffff) xmit_cnt
  writel (bit_and nbytes 0xffffff) burst_ctl
  write_bytes buf nbytes i

-- The wait for `nbytes` bytes in the receive FIFO; false is a loop that goes on.
unfoldable pub rx_wait : ℕ → ℕ → M Bool
rx_wait zero nbytes = pure false
rx_wait (suc fuel) nbytes = do
  v ← readl fifo_sta
  elim (ltb (shr (bit_and v 0x7f) 0) nbytes) [ true ↦ rx_wait fuel nbytes | false ↦ pure true ]

-- The bytes received, newest first.
unfoldable pub read_bytes : ℕ → List ℕ → M (List ℕ)
read_bytes zero got = pure got
read_bytes (suc n) got = do b ← readl rx_data; read_bytes n (u8 b ∷ got)

-- The rounds of sunxi_spi_xfer with `len` bytes left, from index `i` of the buffer; a round moves
-- at least a byte, so `rounds` = `len` is enough. `none` is a wait that goes on.
unfoldable pub xfer_loop : ℕ → Option (ℕ → ℕ) → ℕ → ℕ → ℕ → List ℕ → M (Option (List ℕ))
unfolding sunxi_spi_write rx_wait read_bytes
xfer_loop fuel tx zero len i got = pure (some got)
xfer_loop fuel tx (suc rounds) len i got = elim (len == 0) [
  | true ↦ pure (some got)
  | false ↦ do
    let nbytes = min len 63
    writel (bit_and nbytes 0xffffff) burst_cnt
    sunxi_spi_write tx i nbytes
    setbits xfer_ctl 2147483648
    ok ← rx_wait fuel nbytes
    elim ok [
      | false ↦ pure none
      | true ↦ do
        got' ← read_bytes nbytes got
        xfer_loop fuel tx rounds (len - nbytes) (i + nbytes) got'
    ]
]

-- The error, the new state of the device and the bytes received, newest first, which are stored
-- where the caller gave a buffer for them. `none` is a wait that goes on.
unfoldable pub sunxi_spi_xfer :
    ℕ → ℕ → Priv → ℕ → ℕ → Option (ℕ → ℕ) → ℕ → M (Option (ℤ × Priv × List ℕ))
unfolding spi_cs_activate spi_cs_deactivate xfer_loop
sunxi_spi_xfer fuel tick p bitlen cs dout flags = elim (bitlen % 8 == 0) [
  | false ↦ pure (some (negsuc 0, p, []))
  | true ↦ do
    elim (bit_and flags 1 == 0) [ true ↦ pure tt | false ↦ spi_cs_activate tick p cs ]
    r ← xfer_loop fuel dout (bitlen / 8) (bitlen / 8) 0 []
    elim r [
      | none ↦ pure none
      | some got ↦ do
        p' ← elim (bit_and flags 2 == 0) [ true ↦ pure p | false ↦ spi_cs_deactivate tick p ]
        pure (some (pos 0, p', got))
    ]
]

-- __ilog2 of a word, which is never 0 here; 32 rounds are enough.
unfoldable pub ilog2 : ℕ → ℕ → ℕ
ilog2 zero x = 0
ilog2 (suc fuel) x = let rest = ilog2 fuel (x / 2) in if ltb x 2 then 0 else rest + 1

-- The value for the clock register.
unfoldable pub speed_word : ℕ → ℕ
unfolding ilog2
speed_word hz =
    let speed = max 3000 (min hz 24000000) in
    let div = 24000000 / (2 * speed) in
    if leb div 256
    then bit_or (bit_and (div - 1) 0xff) 4096
    else shl32 (bit_and (ilog2 32 24000000 - ilog2 32 speed) 0xf) 8

unfoldable pub sunxi_spi_set_speed : ℕ → M ℤ
unfolding speed_word
sunxi_spi_set_speed speed = do writel (speed_word speed) clk_ctl; pure (pos 0)

-- The bits of a word under `mask`, as `set` where they are not 0.
abbrev pub when : Bool → ℕ → ℕ → ℕ
when b reg set = if b then bit_or reg set else reg

unfoldable pub sunxi_spi_set_mode : ℕ → M ℤ
sunxi_spi_set_mode mode = do
  v ← readl xfer_ctl
  let a = bit_and v (not32 7)
  let b = when (not (bit_and mode 2 == 0)) a 2
  let c = when (not (bit_and mode 1 == 0)) b 1
  let d = when (bit_and mode 4 == 0) c 4
  writel d xfer_ctl
  pure (pos 0)
