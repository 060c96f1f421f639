-- ===== src/Machine.antt =====
-- include/asm/io.h: memory-mapped registers, and the read-modify-write macros on them. The device
-- registers are a store of 32-bit words by address: a register holds what was last written to it.
-- A register whose value the device changes by itself is not read through this store, but given
-- to the operation as the sequence of the values that successive reads deliver.
pub mod Slot
pub mod Io
pub mod Memory
use bsp_v3s.Common.{ℕ, ◌^◌, ◌<◌, ◌==◌, if◌then◌else◌}
use bsp_v3s.Word.{clrset}

abbrev pub Regs : Type 0
Regs = ℕ → ℕ

abbrev pub readl : Regs → ℕ → ℕ
readl m a = m a

abbrev pub writel : ℕ → ℕ → Regs → Regs
writel v a m b = if a == b then v else m b

abbrev pub clrsetbits_le32 : ℕ → ℕ → ℕ → Regs → Regs
clrsetbits_le32 a clear set m = writel (clrset (readl m a) clear set) a m

-- Every register holds a 32-bit word.
abbrev pub IsRegs : Regs → Type 0
IsRegs m = (a : ℕ) → m a < 2 ^ 32
