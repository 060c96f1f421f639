-- ===== src/Uart.antt =====
-- uboot/ns16550.c: the UART. A register is given by its number in `struct NS16550`; thr and dll are rbr,
-- dlm is ier. A wait for the device takes fuel, and none is a wait that goes on; WATCHDOG_RESET does
-- nothing here.
use bsp_v3s.Common.{
  ℕ, zero, suc, ◌+◌, ◌*◌, ◌/◌, ◌==◌, bit_and, Bool, true, false, not, Option, none, some,
}
use bsp_v3s.Word.{shr}
use bsp_v3s.Machine.Io.{M, pure, readl, writel, ◌>>=◌, ◌>>◌}

abbrev pub uart_rbr : ℕ
uart_rbr = 0

abbrev pub uart_ier : ℕ
uart_ier = 1

abbrev pub uart_fcr : ℕ
uart_fcr = 2

abbrev pub uart_lcr : ℕ
uart_lcr = 3

abbrev pub uart_mcr : ℕ
uart_mcr = 4

abbrev pub uart_lsr : ℕ
uart_lsr = 5

-- DIV_ROUND_CLOSEST of unsigned numbers, for a baud rate that is not 0 and sums below 2 ^ 32.
abbrev pub ns16550_calc_divisor : ℕ → ℕ → ℕ
ns16550_calc_divisor clock baudrate = (clock + 16 * baudrate / 2) / (16 * baudrate)

unfoldable pub ns16550_setbrg : ℕ → M (Unit {0})
ns16550_setbrg baud_divisor = do
  writel 0x83 uart_lcr
  writel (bit_and baud_divisor 0xff) uart_rbr
  writel (bit_and (shr baud_divisor 8) 0xff) uart_ier
  writel 0x03 uart_lcr

-- The loop that reads the line status until it shows `bit`.
unfoldable pub lsr_wait : ℕ → ℕ → M (Option (Unit {0}))
lsr_wait zero bit = pure none
lsr_wait (suc fuel) bit = do
  lsr ← readl uart_lsr
  elim (bit_and lsr bit == 0) [ true ↦ lsr_wait fuel bit | false ↦ pure (some tt) ]

-- What follows a wait that ended.
abbrev pub after_wait : {A : Type 0} → Option (Unit {0}) → M A → M (Option A)
after_wait none k = pure none
after_wait (some t) k = do a ← k; pure (some a)

-- For a divisor that is not -1.
unfoldable pub ns16550_init : ℕ → ℕ → M (Option (Unit {0}))
unfolding lsr_wait ns16550_setbrg
ns16550_init fuel baud_divisor = do
  r ← lsr_wait fuel 0x40
  after_wait r (do
    writel 0x00 uart_ier
    writel 0x03 uart_mcr
    writel 0x87 uart_fcr
    ns16550_setbrg baud_divisor)

unfoldable pub ns16550_putc : ℕ → ℕ → M (Option (Unit {0}))
unfolding lsr_wait
ns16550_putc fuel c = do r ← lsr_wait fuel 0x20; after_wait r (writel c uart_rbr)

unfoldable pub ns16550_getc : ℕ → M (Option ℕ)
unfolding lsr_wait
ns16550_getc fuel = do r ← lsr_wait fuel 0x01; after_wait r (readl uart_rbr)

unfoldable pub ns16550_tstc : M Bool
ns16550_tstc = do lsr ← readl uart_lsr; pure (not (bit_and lsr 0x01 == 0))
