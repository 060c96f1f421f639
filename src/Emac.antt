-- ===== src/Emac.antt =====
-- uboot/sun8i_emac.c and the packet functions of driver/drv_emac.c: the Ethernet controller. The two
-- descriptor rings and the packet buffers are memory that driver and controller share; cache
-- maintenance makes that memory one. Registers are read and written by their offsets. The index of a
-- ring is a function's argument, and stays below 32.
pub mod Mac
pub mod MiiWait
pub mod Mdio
pub mod Ring
pub mod Deliver
pub mod Receive
pub mod Order
pub mod Setup
pub mod Transmit
use bsp_v3s.Common.{
  ℕ, zero, suc, ◌+◌, ◌-◌, ◌*◌, ◌/◌, ◌%◌, ◌^◌, ◌==◌, ltb, leb, bit_and, bit_or, if◌then◌else◌, Bool,
  true, false, Option, none, some, List, [], ◌∷◌, length, ℤ, pos, negsuc,
}
use bsp_v3s.Word.{u32, shr}
use bsp_v3s.Machine.Memory.{Mem, read_mem, write_mem}
use bsp_v3s.Machine.Io.{M, pure, readl, writel, ◌>>=◌, ◌>>◌}

pub record Desc : Type 0 where
  pub status : ℕ
  pub st : ℕ
  pub buf_addr : ℕ
  pub next : ℕ

-- The fields of `struct emac_eth_dev` that packets go through. `rxbuffer` and `txbuffer` are the
-- addresses of the two buffers, `rx_at` and `tx_at` those of the two rings, of 64 bytes a
-- descriptor.
pub record Emac : Type 0 where
  pub rx_chain : ℕ → Desc
  pub tx_chain : ℕ → Desc
  pub mem : Mem
  pub rxbuffer : ℕ
  pub txbuffer : ℕ
  pub rx_at : ℕ
  pub tx_at : ℕ
  pub rx_currdescnum : ℕ
  pub tx_currdescnum : ℕ

-- CONFIG_RX_DESCR_NUM and CONFIG_TX_DESCR_NUM, CONFIG_ETH_BUFSIZE, CONFIG_ETH_RXSIZE
abbrev pub descr_num : ℕ
descr_num = 32

abbrev pub eth_bufsize : ℕ
eth_bufsize = 2048

abbrev pub eth_rxsize : ℕ
eth_rxsize = 2044

-- Bit 31 of a descriptor's status: the descriptor is the controller's.
abbrev pub own : ℕ
own = 2147483648

abbrev pub emac_tx_ctl1 : ℕ
emac_tx_ctl1 = 0x14

abbrev pub emac_tx_dma_desc : ℕ
emac_tx_dma_desc = 0x20

abbrev pub emac_rx_dma_desc : ℕ
emac_rx_dma_desc = 0x34

-- A ring after descriptor `i` is written.
abbrev pub put_desc : ℕ → Desc → (ℕ → Desc) → ℕ → Desc
put_desc i d ring k = if k == i then d else ring k

-- "Move to next desc and wrap-around"
abbrev pub next_desc : ℕ → ℕ
next_desc i = if ltb (i + 1) descr_num then i + 1 else 0

-- The loop of rx_descs_init at `idx` with `n` rounds to go; the last descriptor then points to the
-- first, as the assignment after the loop makes it.
unfoldable pub rx_descs_from : ℕ → ℕ → Emac → Emac
rx_descs_from zero idx e = e
rx_descs_from (suc n) idx e =
    let d = e.rx_chain idx in
    let d' = record d {
      buf_addr = e.rxbuffer + idx * eth_bufsize;
      next = if idx + 1 == descr_num then e.rx_at else e.rx_at + (idx + 1) * 64;
      st = bit_or d.st eth_rxsize;
      status = own;
    } in
    rx_descs_from n (idx + 1) (record e { rx_chain = put_desc idx d' e.rx_chain })

unfoldable pub rx_descs_init : Emac → M Emac
unfolding rx_descs_from
rx_descs_init e = do
  let e' = rx_descs_from descr_num 0 e
  writel e.rx_at emac_rx_dma_desc
  pure (record e' { rx_currdescnum = 0 })

unfoldable pub tx_descs_from : ℕ → ℕ → Emac → Emac
tx_descs_from zero idx e = e
tx_descs_from (suc n) idx e =
    let d : Desc = record {
      status = own;
      st = 0;
      buf_addr = e.txbuffer + idx * eth_bufsize;
      next = if idx + 1 == descr_num then e.tx_at else e.tx_at + (idx + 1) * 64;
    } in
    tx_descs_from n (idx + 1) (record e { tx_chain = put_desc idx d e.tx_chain })

unfoldable pub tx_descs_init : Emac → M Emac
unfolding tx_descs_from
tx_descs_init e = do
  let e' = tx_descs_from descr_num 0 e
  writel e.tx_at emac_tx_dma_desc
  pure (record e' { tx_currdescnum = 0 })

-- -EAGAIN and -EMSGSIZE
abbrev pub eagain : ℤ
eagain = negsuc 10

abbrev pub emsgsize : ℤ
emsgsize = negsuc 89

abbrev pub frame_length : ℕ → ℕ
frame_length status = bit_and (shr status 16) 0x3FFF

-- The length or error that is returned, and what is stored through `packetp`, if anything.
unfoldable pub sun8i_eth_recv : Emac → ℤ × Option ℕ
sun8i_eth_recv e =
    let d = e.rx_chain e.rx_currdescnum in
    let len = frame_length d.status in
    if bit_and d.status own == 0
    then (if ltb len 0x40
        then (pos len, none)
        else if ltb eth_rxsize len
        then (emsgsize, none)
        else (pos len, some d.buf_addr))
    else (eagain, none)

unfoldable pub sun8i_free_pkt : Emac → Emac
sun8i_free_pkt e =
    let i = e.rx_currdescnum in
    let d = e.rx_chain i in
    record e {
      rx_chain = put_desc i (record d { status = bit_or d.status own }) e.rx_chain;
      rx_currdescnum = next_desc i;
    }

-- `st` of a descriptor for a frame of `len` bytes: its length and bits 24, 30, 31 and 29.
abbrev pub tx_st : ℕ → ℕ
tx_st len = bit_or (bit_or (bit_or (bit_or len 16777216) 1073741824) 2147483648) 536870912

-- The memory of the buffers is apart from the other fields: this is what the code does for packets
-- that end within the buffer's 2048 bytes, behind the last of which those fields follow. The bytes of
-- the packet go to `offs` in the buffer of the current descriptor; a piece that is flagged by 0x10000
-- is only stored, any other ends the frame.
unfoldable pub sun8i_emac_eth_send : List ℕ → ℕ → Emac → M Emac
sun8i_emac_eth_send packet offs e =
    let i = e.tx_currdescnum in
    let d = e.tx_chain i in
    elim (leb 0x10000 offs) [
      | true ↦ pure (record e { mem = write_mem e.mem (d.buf_addr + bit_and offs 0xffff) packet })
      | false ↦ do
        v ← readl emac_tx_ctl1
        writel (bit_or (bit_or v 2147483648) 1073741824) emac_tx_ctl1
        pure (record e {
          mem = write_mem e.mem (d.buf_addr + offs) packet;
          tx_chain =
              put_desc i (record d { st = tx_st (offs + length packet); status = own }) e.tx_chain;
          tx_currdescnum = next_desc i;
        })
    ]

-- _emac_tx: the pieces of a chain of pbufs, from `offset` on.
unfoldable pub emac_tx : List (List ℕ) → ℕ → Emac → M Emac
unfolding sun8i_emac_eth_send
emac_tx [] offset e = pure e
emac_tx (q ∷ []) offset e = sun8i_emac_eth_send q (bit_or offset 0x0) e
emac_tx (q ∷ r ∷ rest) offset e = do
  e' ← sun8i_emac_eth_send q (bit_or offset 0x10000) e
  emac_tx (r ∷ rest) (offset + length q) e'

-- The payloads of the pbufs of the lengths given, copied from address `a` on.
unfoldable pub copy_pieces : Mem → ℕ → List ℕ → List (List ℕ)
unfolding read_mem
copy_pieces m a [] = []
copy_pieces m a (n ∷ ns) = read_mem m a n ∷ copy_pieces m (a + n) ns

-- What _emac_rx comes to: nothing (RT_NULL), a chain of pbufs, or a copy of that many bytes from
-- the null pointer.
pub data RxResult : Type 0 where
  no_frame : RxResult
  frame : List (List ℕ) → RxResult
  null_copy : ℕ → RxResult

-- `alloc` is pbuf_alloc(PBUF_LINK, n, PBUF_RAM): the lengths of the pbufs of the chain.
unfoldable pub emac_rx : (ℕ → Option (List ℕ)) → Emac → RxResult × Emac
unfolding sun8i_eth_recv sun8i_free_pkt copy_pieces
emac_rx alloc e = elim (sun8i_eth_recv e).0 [
  | negsuc n ↦ (no_frame, e)
  | pos zero ↦ (no_frame, e)
  | pos (suc n) ↦ elim (alloc (suc n)) [
    | none ↦ (no_frame, e)
    | some ns ↦ (
      elim (sun8i_eth_recv e).1 [
        | none ↦ null_copy (suc n)
        | some a ↦ frame (copy_pieces e.mem a ns)
      ],
      sun8i_free_pkt e,
    )
  ]
]
