-- ===== src/Examples/Board.antt =====
-- Pins, interrupts and the page table at concrete values.
use bsp_v3s.Common.{
  ℕ, ◌+◌, ◌*◌, ◌<◌, ◌==◌, ◌≡◌, ◌&&◌, refl, arith, List, [], ◌∷◌, some, true, false, if◌then◌else◌,
  length, get_elem?, set, replicate, length-replicate,
}
use bsp_v3s.Word.{testbit}
use bsp_v3s.Machine.{Regs}
use bsp_v3s.Gpio.{gpio_set_mode}
use bsp_v3s.Gpio.Pin.{pull, pin_get}
use bsp_v3s.Gpio.SetMode.{gpio_set_mode-pin_get}
use bsp_v3s.Gic.{Gic, set_enable}
use bsp_v3s.Interrupt.{
  State, IrqDesc, ack, isr, eoi, empty_desc, enable_interrupt, rt_hw_interrupt_install,
  rt_hw_trap_irq,
}
use bsp_v3s.Interrupt.Laws.{enable_interrupt_lem}
use bsp_v3s.Interrupt.Dispatch.{fresh_desc, Ends, trap_irq-interrupt_install, trap_irq_shape}
use bsp_v3s.Mmu.{rt_hw_mmu_init}
use bsp_v3s.Mmu.Table.{rt_hw_mmu_init_lem}

abbrev reset_regs : Regs
reset_regs a = 0

-- An output with pull-up on pin PA5: the pull field.
gpio_set_mode-pin_get_example :
    (pin_get (gpio_set_mode 5 0x113 reset_regs).1 pull 5 ≡ 1)
    × ((gpio_set_mode 5 0x113 reset_regs).0 ≡ 0)
unfolding testbit
gpio_set_mode-pin_get_example =
    gpio_set_mode-pin_get 5 0x113 reset_regs (omega arith) (omega arith) pull 5

abbrev reset_gic : Gic
reset_gic = record {
  ctlr = 0;
  igroupr = λ i. 0;
  ipriorityr = λ i. 0;
  itargetsr = λ i. 0;
  cpu_ctlr = 0;
  pmr = 0;
  bpr = 0;
  log = [];
}

enable_interrupt_lem_example :
    let g' = enable_interrupt 40 0 16 reset_gic in
    ((j : ℕ) → g'.ipriorityr j ≡ (if 40 == j then 16 else 0))
    × ((j k : ℕ)
        → k < 32
        → testbit (g'.igroupr j) k ≡ (if j * 32 + k == 40 then false else testbit 0 k))
    × ((j k : ℕ)
        → k < 8
        → testbit (g'.itargetsr j) k ≡ (if 40 == j && k == 0 then true else testbit 0 k))
    × (testbit (g'.itargetsr 40) 0 ≡ true)
    × (g'.log ≡ set_enable 1 256 ∷ [])
enable_interrupt_lem_example = enable_interrupt_lem 40 0 16 reset_gic (omega arith) (omega arith)

abbrev empty_table : List IrqDesc
empty_table = replicate 160 empty_desc

trap_irq-interrupt_install_example :
    let t = (rt_hw_interrupt_install 32 (some 4096) 7 (85 ∷ []) empty_table).1 in
    rt_hw_trap_irq 0x20 t
    ≡ some (
      ack 0x20 ∷ isr 4096 32 7 ∷ eoi 0x20 ∷ [],
      set t 32 (record (fresh_desc 4096 7 (85 ∷ [])) { counter = 1 }),
    )
trap_irq-interrupt_install_example =
    trap_irq-interrupt_install empty_table 32 4096 7 (85 ∷ []) 0x20 refl (omega arith) refl refl

-- Interrupt 200 is past the table.
-- A spurious acknowledgement.
trap_irq_spurious :
    rt_hw_trap_irq 0x3ff empty_table ≡ some (ack 0x3ff ∷ eoi 0x3ff ∷ [], empty_table)
unfolding rt_hw_trap_irq
trap_irq_spurious = refl

trap_irq_shape_example : Ends 0x3ff (ack 0x3ff ∷ eoi 0x3ff ∷ [])
trap_irq_shape_example =
    trap_irq_shape 0x3ff empty_table empty_table (ack 0x3ff ∷ eoi 0x3ff ∷ []) trap_irq_spurious

abbrev start_state : State
start_state = record {
  isr_table = [];
  gic = reset_gic;
  interrupt_nest = 0;
  from_thread = 0;
  to_thread = 0;
  switch_flag = 0;
}

abbrev blank_table : List ℕ
blank_table = replicate 4096 0

blank_table-length : length blank_table ≡ 4096
blank_table-length = length-replicate {A = ℕ} 4096 0

abbrev small_table : List ℕ
small_table = 1 ∷ 2 ∷ 3 ∷ []

-- The first megabyte of the memory.
rt_hw_mmu_init_lem_example : get_elem? (rt_hw_mmu_init blank_table) 0x400 ≡ some 0x40000c1e
rt_hw_mmu_init_lem_example = rt_hw_mmu_init_lem blank_table blank_table-length 0x400 (omega arith)
