-- ===== src/Mmc.antt =====
-- uboot/sunxi_mmc.c: the SD/MMC host controller.
pub mod Regs
pub mod Clock
pub mod Wait
pub mod Cmd
pub mod Ios
pub mod Fifo
pub mod Tf
use bsp_v3s.Common.{
  ℕ, zero, suc, ◌+◌, ◌*◌, ◌/◌, ◌%◌, ◌==◌, ltb, bit_and, bit_or, if◌then◌else◌, Bool, true, false,
  not, Option, none, some, List, [], ◌∷◌, ℤ, pos, negsuc, is_neg, max,
}
use bsp_v3s.Word.{u32, shr, not32}
use bsp_v3s.Mmc.Regs.{
  width, etimedout, failed, gctrl, clkcr, width, blksz, bytecnt, cmd_reg, arg, resp0, resp1, resp2,
  resp3, rint, status, fifo, cmd_start, error_bit, command_done, data_over, auto_command_done,
  fifo_empty, fifo_full, card_data_busy, gctrl_reset, fifo_reset, any,
}
use bsp_v3s.Machine.Io.{Io, M, pure, readl, writel, udelay, ◌>>=◌, ◌>>◌}

-- The wait of mmc_update_clk, `t` milliseconds left: whether it ended in time.
unfoldable pub update_wait : ℕ → M Bool
update_wait zero = do v ← readl cmd_reg; pure (not (any v cmd_start))
update_wait (suc t) = do
  v ← readl cmd_reg
  elim (any v cmd_start) [ false ↦ pure true | true ↦ (udelay 1000 >> update_wait t) ]

unfoldable pub mmc_update_clk : M ℤ
unfolding update_wait
mmc_update_clk = do
  writel (bit_or (bit_or cmd_start 2097152) 8192) cmd_reg
  ok ← update_wait 2000
  elim ok [ true ↦ do v ← readl rint; writel v rint; pure (pos 0) | false ↦ pure failed ]

-- mmc_rint_wait, `t` milliseconds left.
unfoldable pub mmc_rint_wait : ℕ → ℕ → M ℤ
mmc_rint_wait zero done_bit = do v ← readl rint; pure etimedout
mmc_rint_wait (suc t) done_bit = do
  v ← readl rint
  elim (any v error_bit) [
    | true ↦ pure etimedout
    | false ↦ do
      udelay 1000
      elim (any v done_bit) [ true ↦ pure (pos 0) | false ↦ mmc_rint_wait t done_bit ]
  ]

-- The wait for the FIFO in mmc_trans_data_by_cpu: the microseconds left, `none` at a timeout.
unfoldable pub fifo_wait : ℕ → ℕ → M (Option ℕ)
fifo_wait zero status_bit = do v ← readl status; pure (if any v status_bit then none else some 0)
fifo_wait (suc t) status_bit = do
  v ← readl status
  elim (any v status_bit) [
    | false ↦ pure (some (suc t))
    | true ↦ (udelay 1 >> fifo_wait t status_bit)
  ]

-- The words read so far, newest first, and whether all were transferred in time.
unfoldable pub read_words : ℕ → ℕ → List ℕ → M (Bool × List ℕ)
unfolding fifo_wait
read_words zero t got = pure (true, got)
read_words (suc n) t got = do
  left ← fifo_wait t fifo_empty
  elim left [ none ↦ pure (false, got) | some t' ↦ do v ← readl fifo; read_words n t' (v ∷ got) ]

-- Writing `n` words of the buffer from index `i`: whether all were transferred in time.
unfoldable pub write_words : (ℕ → ℕ) → ℕ → ℕ → ℕ → M Bool
unfolding fifo_wait
write_words buff zero i t = pure true
write_words buff (suc n) i t = do
  left ← fifo_wait t fifo_full
  elim left [
    | none ↦ pure false
    | some t' ↦ (writel (buff i) fifo >> write_words buff n (i + 1) t')
  ]

-- `struct mmc_data`; `src` is the memory at the buffer, by words, when the card is written.
pub record MmcData : Type 0 where
  pub dest : ℕ
  pub src : ℕ → ℕ
  pub flags : ℕ
  pub blocks : ℕ
  pub blocksize : ℕ

pub record MmcCmd : Type 0 where
  pub cmdidx : ℕ
  pub resp_type : ℕ
  pub cmdarg : ℕ

abbrev pub byte_cnt : MmcData → ℕ
byte_cnt d = u32 (d.blocksize * d.blocks)

abbrev pub trans_timeout : MmcData → ℕ
trans_timeout d = max 2000000 (u32 (shr (byte_cnt d) 8 * 1000))

-- Whether the transfer ended in time, and the words read, newest first.
unfoldable pub mmc_trans_data_by_cpu : MmcData → M (Bool × List ℕ)
unfolding read_words write_words
mmc_trans_data_by_cpu d = do
  g ← readl gctrl
  writel (bit_or g 2147483648) gctrl
  elim (any d.flags 1) [
    | true ↦ read_words (shr (byte_cnt d) 2) (trans_timeout d) []
    | false ↦ do ok ← write_words d.src (shr (byte_cnt d) 2) 0 (trans_timeout d); pure (ok, [])
  ]

-- What sunxi_mmc_send_cmd gives its caller: the error, the response if one was read, and the words
-- read, newest first.
pub record Sent : Type 0 where
  pub error : ℤ
  pub response : Option (List ℕ)
  pub buffer : List ℕ

abbrev pub flag : Bool → ℕ → ℕ
flag b v = if b then v else 0

-- `cmdval` before and with the bits of a data transfer.
abbrev pub cmdval : MmcCmd → ℕ
cmdval c =
    bit_or
      (bit_or (bit_or (bit_or cmd_start (flag (c.cmdidx == 0) 32768)) (flag (any c.resp_type 1) 64))
        (flag (any c.resp_type 2) 128))
      (flag (any c.resp_type 4) 256)

abbrev pub data_cmdval : MmcCmd → MmcData → ℕ
data_cmdval c d =
    bit_or (bit_or (bit_or (cmdval c) (bit_or 512 8192)) (flag (any d.flags 2) 1024))
      (flag (ltb 1 d.blocks) 4096)

-- The wait while the card is busy, `t` milliseconds left: whether it ended in time.
unfoldable pub busy_wait : ℕ → M Bool
busy_wait zero = do v ← readl status; pure false
busy_wait (suc t) = do
  v ← readl status
  udelay 1000
  elim (any v card_data_busy) [ true ↦ busy_wait t | false ↦ pure true ]

unfoldable pub read_response : MmcCmd → M (List ℕ)
read_response c = elim (any c.resp_type 2) [
  | true ↦ do
    a ← readl resp3
    b ← readl resp2
    d ← readl resp1
    e ← readl resp0
    pure (a ∷ b ∷ d ∷ e ∷ [])
  | false ↦ do a ← readl resp0; pure (a ∷ [])
]

abbrev pub stop : ℤ → List ℕ → Sent
stop e got = record { error = e; response = none; buffer = got }

-- From the end of the data phase of a transfer on; the end is `out:`.
unfoldable pub finish_response : MmcCmd → List ℕ → M Sent
unfolding busy_wait read_response
finish_response c got = do
  ok ← elim (any c.resp_type 8) [ true ↦ busy_wait 2000 | false ↦ pure true ]
  elim ok [
    | false ↦ pure (stop etimedout got)
    | true ↦ do
      r ← read_response c
      pure (record { error = pos 0; response = some r; buffer = got })
  ]

-- From the wait for the command on.
unfoldable pub finish_cmd : MmcCmd → Option MmcData → List ℕ → M Sent
unfolding mmc_rint_wait finish_response
finish_cmd c o got = do
  e ← mmc_rint_wait 1000 command_done
  elim (is_neg e) [
    | true ↦ pure (stop e got)
    | false ↦ elim o [
      | none ↦ finish_response c got
      | some d ↦ do
        e' ← mmc_rint_wait 120 (if ltb 1 d.blocks then auto_command_done else data_over)
        elim (is_neg e') [ true ↦ pure (stop e' got) | false ↦ finish_response c got ]
    ]
  ]

-- Up to `out:`. Without data the command is issued at once.
unfoldable pub send_body : MmcCmd → Option MmcData → M Sent
unfolding mmc_trans_data_by_cpu finish_cmd
send_body c none = do
  writel c.cmdarg arg
  writel (bit_or (cmdval c) c.cmdidx) cmd_reg
  finish_cmd c none []
send_body c (some d) = elim (any d.dest 3) [
  | true ↦ pure (stop failed [])
  | false ↦ do
    writel d.blocksize blksz
    writel (byte_cnt d) bytecnt
    writel c.cmdarg arg
    writel (bit_or (data_cmdval c d) c.cmdidx) cmd_reg
    r ← mmc_trans_data_by_cpu d
    elim r.0 [
      | false ↦ do v ← readl rint; pure (stop etimedout r.1)
      | true ↦ finish_cmd c (some d) r.1
    ]
]

-- `out:`
unfoldable pub send_out : Sent → M Sent
unfolding mmc_update_clk
send_out r = do
  elim (is_neg r.error) [
    | true ↦ do writel gctrl_reset gctrl; e ← mmc_update_clk; pure tt
    | false ↦ pure tt
  ]
  writel 0xffffffff rint
  v ← readl gctrl
  writel (bit_or v fifo_reset) gctrl
  pure r

-- `fatal_err` is the host's field.
unfoldable pub sunxi_mmc_send_cmd : ℕ → MmcCmd → Option MmcData → M Sent
unfolding send_body send_out
sunxi_mmc_send_cmd fatal_err c o =
    if not (fatal_err == 0)
    then pure (stop failed [])
    else if c.cmdidx == 12
    then pure (stop (pos 0) [])
    else do r ← send_body c o; send_out r
