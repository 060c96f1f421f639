-- ===== src/Mmu.antt =====
-- cpu/mmu.c: the first-level page table, one entry for each megabyte.
pub mod Table
use bsp_v3s.Common.{ℕ, zero, suc, ◌+◌, ◌-◌, ◌*◌, ◌/◌, ◌%◌, ◌^◌, bit_or, List, set}
use bsp_v3s.Word.{u32, shl32, shr}

-- RW_CB and RW_NCNB: sections that are readable and writable, in domain 0, never executed; cached
-- and written back, or neither cached nor buffered.
abbrev pub rw_cb : ℕ
rw_cb = 0xc1e

abbrev pub rw_ncnb : ℕ
rw_ncnb = 0xc12

abbrev pub tex_mem : ℕ
tex_mem = 0x1000

-- RT_HW_HEAP_END
abbrev pub heap_end : ℕ
heap_end = 0x43800000

abbrev pub entry : ℕ → ℕ → ℕ
entry attr section = bit_or attr (shl32 section 20)

-- The loop of rt_hw_mmu_setmtt with `n` rounds to go, at entry `first + i`.
unfoldable pub mtt_loop : ℕ → ℕ → ℕ → ℕ → ℕ → List ℕ → List ℕ
mtt_loop zero i first paddr_start attr table = table
mtt_loop (suc n) i first paddr_start attr table =
    mtt_loop n (i + 1) first paddr_start attr
      (set table (first + i) (entry attr (u32 (shr paddr_start 20 + i))))

-- The loop runs nSec + 1 times, and never where nSec is negative. A write past the table is lost
-- here; the table has 4096 entries.
unfoldable pub rt_hw_mmu_setmtt : ℕ → ℕ → ℕ → ℕ → List ℕ → List ℕ
unfolding mtt_loop
rt_hw_mmu_setmtt vaddr_start vaddr_end paddr_start attr table =
    mtt_loop (shr vaddr_end 20 + 1 - shr vaddr_start 20) 0 (shr vaddr_start 20) paddr_start attr
      table

-- What rt_hw_mmu_init makes of the table.
unfoldable pub rt_hw_mmu_init : List ℕ → List ℕ
unfolding rt_hw_mmu_setmtt
rt_hw_mmu_init table =
    let a = rt_hw_mmu_setmtt 0x00000000 0xFFFFFFFF 0x00000000 rw_ncnb table in
    let b = rt_hw_mmu_setmtt 0x40000000 (heap_end - 1) 0x40000000 rw_cb a in
    let c = rt_hw_mmu_setmtt 0x00000000 0x000FFFFF 0x00000000 (bit_or rw_ncnb tex_mem) b in
    rt_hw_mmu_setmtt heap_end 0x43FFFFFF heap_end (bit_or rw_ncnb tex_mem) c
