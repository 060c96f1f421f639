-- ===== src/Interrupt/Init.antt =====
-- The dispatch after rt_hw_interrupt_init.
use bsp_v3s.Common.{
  ℕ, ◌<◌, ◌%◌, bit_and, ◌≡◌, refl, arith, List, [], ◌∷◌, some, get_elem?, set, replicate,
  get_elem?-replicate,
}
use bsp_v3s.Word.Field.{bit_and-low_mask}
use bsp_v3s.Interrupt.{
  IrqDesc, ack, eoi, max_handlers, empty_desc, State, rt_hw_interrupt_init, rt_hw_trap_irq,
}

init_table : (s : State) → (rt_hw_interrupt_init s).isr_table ≡ replicate max_handlers empty_desc
unfolding rt_hw_interrupt_init
init_table s = refl

trap_irq_empty :
    (vect : ℕ) (table : List IrqDesc)
    → bit_and vect 0x200 ≡ 0
    → get_elem? table (bit_and vect 0x1ff) ≡ some empty_desc
    → rt_hw_trap_irq vect table
      ≡ some (
        ack vect ∷ eoi vect ∷ [],
        set table (bit_and vect 0x1ff) (record empty_desc { counter = 1 }),
      )
unfolding rt_hw_trap_irq
trap_irq_empty vect table e found = ground arith

-- After rt_hw_interrupt_init, whatever the state before it, an interrupt of the table that is not
-- spurious is acknowledged, counted and ended, and no routine is called.
pub trap_irq-interrupt_init :
    (s : State) (vect : ℕ)
    → bit_and vect 0x200 ≡ 0
    → vect % 512 < max_handlers
    → let table = (rt_hw_interrupt_init s).isr_table in
      rt_hw_trap_irq vect table
      ≡ some (
        ack vect ∷ eoi vect ∷ [],
        set table (bit_and vect 0x1ff) (record empty_desc { counter = 1 }),
      )
trap_irq-interrupt_init s vect e below = trap_irq_empty vect _ e (
    rw (init_table s, bit_and-low_mask 9 vect)
      (get_elem?-replicate max_handlers (vect % 512) empty_desc below))
