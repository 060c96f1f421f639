-- ===== src/Gic/Laws.antt =====
-- What the operations on one interrupt leave in the controller, bit by bit.
use bsp_v3s.Common.{
  ℕ, ◌+◌, ◌*◌, ◌/◌, ◌%◌, ◌<◌, ◌==◌, bit_and, bit_or, ◌≡◌, Bool, true, false, ◌&&◌, arith,
  if◌then◌else◌, ◌∷◌,
}
use bsp_v3s.Word.{u8, shl32, not32, testbit}
use bsp_v3s.Word.Testbit.{
  testbit-bit_and, testbit-bit_or, testbit-not32, testbit-mod_pow, testbit-low_mask,
}
use bsp_v3s.Word.Bit.{testbit-bit, testbit-set_bit, testbit-clear_bit}
use bsp_v3s.Word.Field.{bit_and-low_mask}
use bsp_v3s.Gic.{
  Gic, irq_get_bit_offset, gic_set_irq_security, gic_set_cpu_target, gic_set_irq_priority,
  gic_enable_irq, set_enable, clear_enable,
}

bit_offset : (irq : ℕ) → irq_get_bit_offset irq ≡ irq % 32
bit_offset irq = bit_and-low_mask 5 irq

-- Interrupt `32 * j + k` is bit `k` of register `j`.
is_irq : (irq j k : ℕ) → k < 32 → (j * 32 + k == irq) ≡ (irq / 32 == j && k == irq % 32)
is_irq irq j k h = ground arith

-- The group bit of every interrupt after one of them was made secure or not.
pub igroupr-set_irq_security :
    (irq : ℕ) (secure : Bool) (g : Gic) (j k : ℕ)
    → k < 32
    → testbit ((gic_set_irq_security irq secure g).igroupr j) k
      ≡ (if j * 32 + k == irq then secure else testbit (g.igroupr j) k)
unfolding gic_set_irq_security
igroupr-set_irq_security irq true g j k h = ground (
  arith,
  is_irq irq j k h,
  bit_offset irq,
  testbit-set_bit (g.igroupr j) (irq_get_bit_offset irq) k h,
)
igroupr-set_irq_security irq false g j k h = ground (
  arith,
  is_irq irq j k h,
  bit_offset irq,
  testbit-clear_bit (g.igroupr j) (irq_get_bit_offset irq) k h,
)

target_mask : (cpu k : ℕ) → k < 8 → testbit (bit_and (u8 (shl32 1 cpu)) 0xff) k ≡ (k == cpu)
target_mask cpu k h = ground (
  arith,
  testbit-bit_and (u8 (shl32 1 cpu)) 0xff k,
  testbit-low_mask 8 k,
  testbit-mod_pow 8 (shl32 1 cpu) k h,
  testbit-bit cpu k,
)

-- The target bits of every interrupt after one processor was added to or taken from one of them.
pub itargetsr-set_cpu_target :
    (irq cpu : ℕ) (enable : Bool) (g : Gic) (j k : ℕ)
    → k < 8
    → testbit ((gic_set_cpu_target irq cpu enable g).itargetsr j) k
      ≡ (if irq == j && k == cpu then enable else testbit (g.itargetsr j) k)
unfolding gic_set_cpu_target
itargetsr-set_cpu_target irq cpu true g j k h =
    let mask = bit_and (u8 (shl32 1 cpu)) 0xff in
    ground (
      arith,
      target_mask cpu k h,
      testbit-mod_pow 8 (bit_or (g.itargetsr j) mask) k h,
      testbit-bit_or (g.itargetsr j) mask k,
    )
itargetsr-set_cpu_target irq cpu false g j k h =
    let mask = bit_and (u8 (shl32 1 cpu)) 0xff in
    ground (
      arith,
      target_mask cpu k h,
      testbit-mod_pow 8 (bit_and (g.itargetsr j) (not32 mask)) k h,
      testbit-bit_and (g.itargetsr j) (not32 mask) k,
      testbit-not32 mask k (omega (arith, bit_and-low_mask 8 (u8 (shl32 1 cpu)))) (omega arith),
    )

pub ipriorityr-set_irq_priority :
    (irq priority : ℕ) (g : Gic) (j : ℕ)
    → (gic_set_irq_priority irq priority g).ipriorityr j
      ≡ (if irq == j then priority % 256 else g.ipriorityr j)
unfolding gic_set_irq_priority
ipriorityr-set_irq_priority irq priority g j = rw (bit_and-low_mask 8 priority)

pub log-enable_irq :
    (irq : ℕ) (enable : Bool) (g : Gic)
    → (gic_enable_irq irq enable g).log
      ≡ (if enable
          then set_enable (irq / 32) (shl32 1 (irq % 32))
          else clear_enable (irq / 32) (shl32 1 (irq % 32)))
        ∷ g.log
unfolding gic_enable_irq
log-enable_irq irq enable g = rw (bit_offset irq)
