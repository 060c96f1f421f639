-- ===== src/Mmc/Regs.antt =====
-- uboot/sunxi_mmc.c: the registers of the controller and their bits. Addresses are offsets in
-- `struct sunxi_mmc`.
use bsp_v3s.Common.{ℕ, ◌==◌, bit_and, Bool, not, ℤ, negsuc}

-- -ETIMEDOUT and -1
abbrev pub etimedout : ℤ
etimedout = negsuc 109

abbrev pub failed : ℤ
failed = negsuc 0

abbrev pub gctrl : ℕ
gctrl = 0x00

abbrev pub clkcr : ℕ
clkcr = 0x04

abbrev pub width : ℕ
width = 0x0c

abbrev pub blksz : ℕ
blksz = 0x10

abbrev pub bytecnt : ℕ
bytecnt = 0x14

abbrev pub cmd_reg : ℕ
cmd_reg = 0x18

abbrev pub arg : ℕ
arg = 0x1c

abbrev pub resp0 : ℕ
resp0 = 0x20

abbrev pub resp1 : ℕ
resp1 = 0x24

abbrev pub resp2 : ℕ
resp2 = 0x28

abbrev pub resp3 : ℕ
resp3 = 0x2c

abbrev pub rint : ℕ
rint = 0x38

abbrev pub status : ℕ
status = 0x3c

abbrev pub fifo : ℕ
fifo = 0x200

abbrev pub cmd_start : ℕ
cmd_start = 2147483648

-- SUNXI_MMC_RINT_INTERRUPT_ERROR_BIT
abbrev pub error_bit : ℕ
error_bit = 0xbfc2

abbrev pub command_done : ℕ
command_done = 4

abbrev pub data_over : ℕ
data_over = 8

abbrev pub auto_command_done : ℕ
auto_command_done = 16384

abbrev pub fifo_empty : ℕ
fifo_empty = 4

abbrev pub fifo_full : ℕ
fifo_full = 8

abbrev pub card_data_busy : ℕ
card_data_busy = 512

abbrev pub gctrl_reset : ℕ
gctrl_reset = 7

abbrev pub fifo_reset : ℕ
fifo_reset = 2

-- C's truth value of a masked word.
abbrev pub any : ℕ → ℕ → Bool
any x mask = not (bit_and x mask == 0)
