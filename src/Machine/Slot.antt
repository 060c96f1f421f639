-- ===== src/Machine/Slot.antt =====
-- A slot is a field of some bits at a place in some register. Writing a slot by a
-- read-modify-write changes that slot and no other.
use bsp_v3s.Common.{ℕ, ◌+◌, ◌^◌, ◌≤◌, ◌<◌, ◌≡◌, ◌≢◌, ◌⊎◌, arith}
use bsp_v3s.Word.Field.{field, put_field, put_field_lt, field-put_field_self, field-put_field_ne}
use bsp_v3s.Machine.{Regs, IsRegs, readl, writel}

pub record Slot : Type 0 where
  pub at : ℕ
  pub off : ℕ
  pub width : ℕ

abbrev pub slot_get : Regs → Slot → ℕ
slot_get m s = field (readl m s.at) s.off s.width

abbrev pub slot_put : Slot → ℕ → Regs → Regs
slot_put s v m = writel (put_field (readl m s.at) s.off s.width v) s.at m

-- Slots that share no bit.
abbrev pub Apart : Slot → Slot → Type 0
Apart s t = (s.at ≢ t.at) ⊎ (s.off + s.width ≤ t.off) ⊎ (t.off + t.width ≤ s.off)

abbrev pub Fits : Slot → Type 0
Fits s = s.off + s.width ≤ 32

pub slot_get-slot_put_self :
    (s : Slot) (v : ℕ) (m : Regs) → v < 2 ^ s.width → Fits s → slot_get (slot_put s v m) s ≡ v
slot_get-slot_put_self s v m hv hs =
    ground (arith, field-put_field_self (m s.at) s.off s.width v hv hs)

pub slot_get-slot_put_ne :
    (s t : Slot) (v : ℕ) (m : Regs)
    → v < 2 ^ s.width
    → Fits t
    → Apart s t
    → slot_get (slot_put s v m) t ≡ slot_get m t
slot_get-slot_put_ne s t v m hv ht apart =
    ground (arith, field-put_field_ne (m s.at) s.off s.width v t.off t.width hv ht)

pub slot_put-IsRegs : (s : Slot) (v : ℕ) (m : Regs) → IsRegs m → IsRegs (slot_put s v m)
slot_put-IsRegs s v m h a = ground (arith, put_field_lt (m s.at) s.off s.width v (h s.at), h a)
