-- ===== src/Interrupt.antt =====
-- cpu/interrupt.c and rt_hw_trap_irq of cpu/trap.c: the table of service routines, its
-- installation, and the dispatch of an interrupt. A service routine is known by its address (`none`
-- is RT_NULL); what it does is its own, so a call of it is an event of the dispatch.
pub mod Laws
pub mod Dispatch
pub mod Init
use bsp_v3s.Common.{
  ℕ, zero, suc, ◌+◌, ◌==◌, ltb, bit_and, Bool, true, false, if◌then◌else◌, List, [], ◌∷◌, Option,
  none, some, get_elem?, set, take, replicate,
}
use bsp_v3s.Word.{u32, shr}
use bsp_v3s.Gic.{
  Gic, gic_set_irq_priority, gic_set_irq_security, gic_set_cpu_target, gic_enable_irq, gic_init,
}

abbrev pub max_handlers : ℕ
max_handlers = 160

abbrev pub rt_name_max : ℕ
rt_name_max = 16

-- `struct rt_irq_desc` of the kernel, with RT_USING_INTERRUPT_INFO.
pub record IrqDesc : Type 0 where
  pub handler : Option ℕ
  pub param : ℕ
  pub name : List ℕ
  pub counter : ℕ

pub record State : Type 0 where
  pub isr_table : List IrqDesc
  pub gic : Gic
  pub interrupt_nest : ℕ
  pub from_thread : ℕ
  pub to_thread : ℕ
  pub switch_flag : ℕ

unfoldable pub enable_interrupt : ℕ → ℕ → ℕ → Gic → Gic
unfolding gic_set_irq_priority gic_set_irq_security gic_set_cpu_target gic_enable_irq
enable_interrupt irq cpu priority g = gic_enable_irq irq true (
    gic_set_cpu_target irq cpu true
      (gic_set_irq_security irq false (gic_set_irq_priority irq priority g)))

unfoldable pub disable_interrupt : ℕ → ℕ → Gic → Gic
unfolding gic_set_cpu_target gic_enable_irq
disable_interrupt irq cpu g = gic_set_cpu_target irq cpu false (gic_enable_irq irq false g)

abbrev pub empty_desc : IrqDesc
empty_desc = record { handler = none; param = 0; name = []; counter = 0 }

unfoldable pub rt_hw_interrupt_init : State → State
unfolding gic_init
rt_hw_interrupt_init s = record {
  isr_table = replicate max_handlers empty_desc;
  gic = gic_init s.gic;
  interrupt_nest = 0;
  from_thread = 0;
  to_thread = 0;
  switch_flag = 0;
}

unfoldable pub rt_hw_interrupt_mask : ℕ → State → State
unfolding disable_interrupt
rt_hw_interrupt_mask vector s = record s { gic = disable_interrupt vector 0 s.gic }

unfoldable pub rt_hw_interrupt_umask : ℕ → State → State
unfolding enable_interrupt
rt_hw_interrupt_umask vector s = record s { gic = enable_interrupt vector 0 0 s.gic }

-- The descriptor after an installation: a null handler leaves it alone.
unfoldable pub install_desc : IrqDesc → Option ℕ → ℕ → List ℕ → IrqDesc
install_desc d none param name = d
install_desc d (some h) param name = record {
  handler = some h;
  param = param;
  name = take rt_name_max name;
  counter = 0;
}

abbrev install_at :
    Option IrqDesc → ℕ → Option ℕ → ℕ → List ℕ → List IrqDesc → Option ℕ × List IrqDesc
install_at none vector handler param name table = (none, table)
install_at (some d) vector handler param name table =
    (d.handler, set table vector (install_desc d handler param name))

-- The old handler and the table after it. The table has max_handlers entries.
unfoldable pub rt_hw_interrupt_install :
    ℕ → Option ℕ → ℕ → List ℕ → List IrqDesc → Option ℕ × List IrqDesc
unfolding install_desc
rt_hw_interrupt_install vector handler param name table =
    if ltb vector max_handlers
    then install_at (get_elem? table vector) vector handler param name table
    else (none, table)

-- What a dispatch does outside the table.
pub data IrqEvent : Type 0 where
  ack : ℕ → IrqEvent
  isr : ℕ → ℕ → ℕ → IrqEvent
  eoi : ℕ → IrqEvent

abbrev call_isr : Option ℕ → ℕ → ℕ → ℕ → List IrqEvent
call_isr none irq param vect = eoi vect ∷ []
call_isr (some h) irq param vect = isr h irq param ∷ eoi vect ∷ []

abbrev dispatch : Option IrqDesc → ℕ → ℕ → List IrqDesc → Option (List IrqEvent × List IrqDesc)
dispatch none irq vect table = none
dispatch (some d) irq vect table = some (
  ack vect ∷ call_isr d.handler irq d.param vect,
  set table irq (record d { counter = u32 (d.counter + 1) }),
)

-- `vect` is the value read from the acknowledge register; `none` is an access past the table.
unfoldable pub rt_hw_trap_irq : ℕ → List IrqDesc → Option (List IrqEvent × List IrqDesc)
rt_hw_trap_irq vect table =
    let irq = bit_and vect 0x1ff in
    if bit_and vect 0x200 == 0
    then dispatch (get_elem? table irq) irq vect table
    else some (ack vect ∷ eoi vect ∷ [], table)
