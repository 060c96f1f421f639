-- ===== src/Gic.antt =====
-- cpu/gic.c: the ARM generic interrupt controller. The registers that keep what is written to them
-- are fields; a write to a command register (write-one-to-set, end of interrupt, ...) is logged,
-- newest first, since what it does is the controller's.
pub mod Laws
use bsp_v3s.Common.{
  ℕ, zero, suc, ◌+◌, ◌/◌, ◌%◌, ◌==◌, ltb, bit_and, bit_or, Bool, true, false, if◌then◌else◌, List,
  ◌∷◌,
}
use bsp_v3s.Word.{u8, u32, shl32, not32}

pub data GicWrite : Type 0 where
  set_enable : ℕ → ℕ → GicWrite
  clear_enable : ℕ → ℕ → GicWrite
  clear_pending : ℕ → ℕ → GicWrite
  send_sgi : ℕ → GicWrite
  end_of_irq : ℕ → GicWrite

pub record Gic : Type 0 where
  pub ctlr : ℕ
  pub igroupr : ℕ → ℕ
  pub ipriorityr : ℕ → ℕ
  pub itargetsr : ℕ → ℕ
  pub cpu_ctlr : ℕ
  pub pmr : ℕ
  pub bpr : ℕ
  pub log : List GicWrite

-- An array of registers after one of them is written.
abbrev pub update : ℕ → ℕ → (ℕ → ℕ) → ℕ → ℕ
update i v f j = if i == j then v else f j

abbrev pub irq_get_register_offset : ℕ → ℕ
irq_get_register_offset irq = irq / 32

abbrev pub irq_get_bit_offset : ℕ → ℕ
irq_get_bit_offset irq = bit_and irq 0x1f

abbrev pub irq_get_bit_mask : ℕ → ℕ
irq_get_bit_mask irq = shl32 1 (irq_get_bit_offset irq)

-- kBM_GICD_CTLR_EnableGrp0 | kBM_GICD_CTLR_EnableGrp1, and the same two bits of the CPU interface
abbrev pub enable_groups : ℕ
enable_groups = bit_or 0x1 0x2

unfoldable pub gic_enable : Bool → Gic → Gic
gic_enable enable_it g = record g {
  ctlr = if enable_it then bit_or g.ctlr enable_groups else bit_and g.ctlr (not32 enable_groups);
}

unfoldable pub gic_set_irq_security : ℕ → Bool → Gic → Gic
gic_set_irq_security irq is_secure g =
    let reg = irq_get_register_offset irq in
    let mask = irq_get_bit_mask irq in
    let value = g.igroupr reg in
    record g {
      igroupr =
          update reg (if is_secure then bit_or value mask else bit_and value (not32 mask))
            g.igroupr;
    }

unfoldable pub gic_enable_irq : ℕ → Bool → Gic → Gic
gic_enable_irq irq is_enabled g =
    let reg = irq_get_register_offset irq in
    let mask = irq_get_bit_mask irq in
    record g { log = (if is_enabled then set_enable reg mask else clear_enable reg mask) ∷ g.log }

unfoldable pub gic_set_irq_priority : ℕ → ℕ → Gic → Gic
gic_set_irq_priority irq priority g = record g {
  ipriorityr = update irq (bit_and priority 0xff) g.ipriorityr;
}

-- The code asserts cpu_number ≤ 7: this is what it does for such a processor. `cpu_mask & 0xff` of a byte, its complement
-- taken in int and cut to the byte register.
unfoldable pub gic_set_cpu_target : ℕ → ℕ → Bool → Gic → Gic
gic_set_cpu_target irq cpu_number enable_it g =
    let cpu_mask = u8 (shl32 1 cpu_number) in
    let old = g.itargetsr irq in
    record g {
      itargetsr =
          update irq
            (u8 (
              if enable_it
              then bit_or old (bit_and cpu_mask 0xff)
              else bit_and old (not32 (bit_and cpu_mask 0xff))))
            g.itargetsr;
    }

unfoldable pub gic_send_sgi : ℕ → ℕ → ℕ → Gic → Gic
gic_send_sgi irq target_list filter_list g = record g {
  log =
      send_sgi (bit_or (bit_or (shl32 filter_list 24) (shl32 target_list 16)) (bit_and irq 0xf))
      ∷ g.log;
}

unfoldable pub gic_cpu_enable : Bool → Gic → Gic
gic_cpu_enable enable_it g = record g {
  cpu_ctlr =
      if enable_it
      then bit_or g.cpu_ctlr enable_groups
      else bit_and g.cpu_ctlr (not32 enable_groups);
}

unfoldable pub gic_set_cpu_priority_mask : ℕ → Gic → Gic
gic_set_cpu_priority_mask priority g = record g { pmr = bit_and priority 0xff }

unfoldable pub gic_write_end_of_irq : ℕ → Gic → Gic
gic_write_end_of_irq irq g = record g { log = end_of_irq irq ∷ g.log }

unfoldable pub gic_init_cpu : Gic → Gic
unfolding gic_set_cpu_priority_mask gic_cpu_enable
gic_init_cpu g = gic_cpu_enable true (record (gic_set_cpu_priority_mask 0xff g) { bpr = 7 })

-- The two loops of gic_init, at index `i` with `n` rounds left.
unfoldable pub clear_pending_from : ℕ → ℕ → Gic → Gic
clear_pending_from zero i g = g
clear_pending_from (suc n) i g =
    clear_pending_from n (i + 1) (record g { log = clear_pending i 0xffffffff ∷ g.log })

unfoldable pub clear_groups_from : ℕ → ℕ → Gic → Gic
clear_groups_from zero i g = g
clear_groups_from (suc n) i g =
    clear_groups_from n (i + 1) (record g { igroupr = update i 0 g.igroupr })

unfoldable pub gic_init : Gic → Gic
unfolding gic_enable clear_pending_from clear_groups_from gic_init_cpu
gic_init g =
    gic_enable true
      (gic_init_cpu (clear_groups_from 8 0 (clear_pending_from 32 0 (gic_enable false g))))
