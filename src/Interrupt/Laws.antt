-- ===== src/Interrupt/Laws.antt =====
-- Enabling and disabling an interrupt, over the whole controller.
use bsp_v3s.Common.{
  ℕ, ◌+◌, ◌*◌, ◌/◌, ◌%◌, ◌<◌, ◌≤◌, ◌==◌, ◌≡◌, ◌∙◌, arith, true, false, ◌&&◌, ap, if◌then◌else◌, ◌∷◌,
}
use bsp_v3s.Word.{shl32, testbit}
use bsp_v3s.Gic.{
  Gic, set_enable, clear_enable, gic_set_irq_priority, gic_set_cpu_target, gic_enable_irq,
}
use bsp_v3s.Gic.Laws.{
  igroupr-set_irq_security, itargetsr-set_cpu_target, ipriorityr-set_irq_priority, log-enable_irq,
}
use bsp_v3s.Interrupt.{enable_interrupt, disable_interrupt}

-- Unmasking interrupt `irq`, one of the 256 that the group registers have a bit for, for processor
-- `cpu`, one of the 8 that the controller knows, sets the
-- priority byte of that interrupt, clears its group bit, makes the processor one of its targets, with
-- the targets it had, and writes its bit, and no other, to the set-enable register. Every other
-- interrupt keeps its priority, group bit and targets.
pub enable_interrupt_lem :
    (irq cpu priority : ℕ) (g : Gic)
    → irq < 256
    → cpu ≤ 7
    → let g' = enable_interrupt irq cpu priority g in
      ((j : ℕ) → g'.ipriorityr j ≡ (if irq == j then priority % 256 else g.ipriorityr j))
      × ((j k : ℕ)
          → k < 32
          → testbit (g'.igroupr j) k
            ≡ (if j * 32 + k == irq then false else testbit (g.igroupr j) k))
      × ((j k : ℕ)
          → k < 8
          → testbit (g'.itargetsr j) k
            ≡ (if irq == j && k == cpu then true else testbit (g.itargetsr j) k))
      × (testbit (g'.itargetsr irq) cpu ≡ true)
      × (g'.log ≡ set_enable (irq / 32) (shl32 1 (irq % 32)) ∷ g.log)
unfolding enable_interrupt
enable_interrupt_lem irq cpu priority g held known = (
  λ j. ipriorityr-set_irq_priority irq priority g j,
  λ j k h. igroupr-set_irq_security irq false (gic_set_irq_priority irq priority g) j k h,
  λ j k h. itargetsr-set_cpu_target irq cpu true g j k h,
  itargetsr-set_cpu_target irq cpu true g irq cpu (omega arith) ∙ is_target,
  log-enable_irq irq true g,
)
  where
    is_target : (if irq == irq && cpu == cpu then true else testbit (g.itargetsr irq) cpu) ≡ true
    is_target = ground arith

-- Masking interrupt `irq` for a processor that the controller knows takes the processor from its targets and writes its bit, and no other, to
-- the clear-enable register. Nothing else of the controller changes.
pub disable_interrupt_lem :
    (irq cpu : ℕ) (g : Gic)
    → cpu ≤ 7
    → let g' = disable_interrupt irq cpu g in
      ((j k : ℕ)
        → k < 8
        → testbit (g'.itargetsr j) k
          ≡ (if irq == j && k == cpu then false else testbit (g.itargetsr j) k))
      × (g' ≡ record g {
        itargetsr = g'.itargetsr;
        log = clear_enable (irq / 32) (shl32 1 (irq % 32)) ∷ g.log;
      })
unfolding disable_interrupt gic_set_cpu_target gic_enable_irq
disable_interrupt_lem irq cpu g known = (
  λ j k h. itargetsr-set_cpu_target irq cpu false (gic_enable_irq irq false g) j k h,
  ap (λ l. record (disable_interrupt irq cpu g) { log = l }) (log-enable_irq irq false g),
)
