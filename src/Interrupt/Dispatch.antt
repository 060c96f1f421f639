-- ===== src/Interrupt/Dispatch.antt =====
-- The table of service routines and what a dispatch does with it.
use bsp_v3s.Common.{
  ℕ, ◌+◌, ◌%◌, ◌≤◌, ◌<◌, bit_and, ◌≡◌, ◌≢◌, ◌∙◌, ◌↔◌, ◌⊎◌, inl, inr, refl, arith, ap, List, [], ◌∷◌,
  Option, none, some, length, get_elem?, set, length-set, get_elem?-set_self, get_elem?-set_ne,
  get_elem?-some, get_elem?-none, dec_lt, ℕ_discrete, take,
}
use bsp_v3s.Word.{u32}
use bsp_v3s.Word.Field.{bit_and-low_mask}
use bsp_v3s.Interrupt.{
  IrqDesc, IrqEvent, ack, isr, eoi, max_handlers, rt_name_max, rt_hw_interrupt_install,
  rt_hw_trap_irq,
}

-- The handler in a table's entry.
abbrev pub handler_at : List IrqDesc → ℕ → Option ℕ
handler_at table j = elim (get_elem? table j) [ none ↦ none | some d ↦ d.handler ]

abbrev pub fresh_desc : ℕ → ℕ → List ℕ → IrqDesc
fresh_desc h param name = record {
  handler = some h;
  param = param;
  name = take rt_name_max name;
  counter = 0;
}

module _ (table : List IrqDesc) (full : length table ≡ max_handlers) (vector h param : ℕ)
    (name : List ℕ) where
  -- Installing a service routine for an interrupt of the table returns the old one, puts the new one
  -- with its parameter and a zero counter into that entry, and leaves the other entries alone.
  pub interrupt_install_lem :
      vector < max_handlers
      → let r = rt_hw_interrupt_install vector (some h) param name table in
        (r.0 ≡ handler_at table vector)
        × (length r.1 ≡ max_handlers)
        × (get_elem? r.1 vector ≡ some (fresh_desc h param name))
        × ((j : ℕ) → vector ≢ j → get_elem? r.1 j ≡ get_elem? table j)
  unfolding rt_hw_interrupt_install
  interrupt_install_lem below =
      let (d, here) = get_elem?-some table vector (omega arith) in
      (
        ground (arith, here),
        ground (arith, here, length-set table vector (fresh_desc h param name)),
        ground (arith, here, get_elem?-set_self table vector (fresh_desc h param name)),
        λ j ne. ground (arith, here, get_elem?-set_ne table vector j (fresh_desc h param name)),
      )

trap_irq_found :
    (vect : ℕ) (table : List IrqDesc) (h : ℕ) (d : IrqDesc)
    → bit_and vect 0x200 ≡ 0
    → get_elem? table (bit_and vect 0x1ff) ≡ some d
    → d.handler ≡ some h
    → rt_hw_trap_irq vect table
      ≡ some (
        ack vect ∷ isr h (bit_and vect 0x1ff) d.param ∷ eoi vect ∷ [],
        set table (bit_and vect 0x1ff) (record d { counter = u32 (d.counter + 1) }),
      )
unfolding rt_hw_trap_irq
trap_irq_found vect table h d e found hd = ground arith

-- After a service routine is installed for an interrupt of the table, an acknowledge value that
-- names this interrupt and is not spurious is dispatched to that routine with its parameter, and
-- ended once, after it; the entry then counts one call.
pub trap_irq-interrupt_install :
    (table : List IrqDesc) (vector h param : ℕ) (name : List ℕ) (vect : ℕ)
    → length table ≡ max_handlers
    → vector < max_handlers
    → bit_and vect 0x200 ≡ 0
    → bit_and vect 0x1ff ≡ vector
    → let t = (rt_hw_interrupt_install vector (some h) param name table).1 in
      rt_hw_trap_irq vect t
      ≡ some (
        ack vect ∷ isr h vector param ∷ eoi vect ∷ [],
        set t vector (record (fresh_desc h param name) { counter = 1 }),
      )
trap_irq-interrupt_install table vector h param name vect full below spurious named =
    let l = interrupt_install_lem table full vector h param name below in
    let t = (rt_hw_interrupt_install vector (some h) param name table).1 in
    let at : get_elem? t (bit_and vect 0x1ff) ≡ some (fresh_desc h param name) = rw named l.2 in
    trap_irq_found vect t h (fresh_desc h param name) spurious at refl
    ∙ ap
        (λ (irq : ℕ). some (
          ack vect ∷ isr h irq param ∷ eoi vect ∷ [],
          set t irq (record (fresh_desc h param name) { counter = 1 }),
        ))
        named

-- A dispatch reads past the table exactly for an acknowledge value that is not spurious and names an
-- interrupt from 160 on.
pub trap_irq-none_iff :
    (vect : ℕ) (table : List IrqDesc)
    → length table ≡ max_handlers
    → (rt_hw_trap_irq vect table ≡ none) ↔ ((bit_and vect 0x200 ≡ 0) × (max_handlers ≤ vect % 512))
unfolding rt_hw_trap_irq
trap_irq-none_iff vect table full =
    rw (bit_and-low_mask 9 vect) (elim (dec_lt (vect % 512) max_handlers) [
      | yes p ↦
          let (d, found) = get_elem?-some table (vect % 512) (omega arith) in ground (arith, found)
      | no p ↦ ground (arith, get_elem?-none table (vect % 512) (omega arith))
    ])

-- The one or two events that follow the acknowledgement.
abbrev pub Ends : ℕ → List IrqEvent → Type 0
Ends vect events =
    (events ≡ ack vect ∷ eoi vect ∷ [])
    ⊎ ((h : ℕ) × (p : ℕ) × (bit_and vect 0x200 ≡ 0)
        × (events ≡ ack vect ∷ isr h (bit_and vect 0x1ff) p ∷ eoi vect ∷ []))

module _ (vect : ℕ) (table t : List IrqDesc) (events : List IrqEvent)
    (done : rt_hw_trap_irq vect table ≡ some (events, t)) where
  trap_irq-Ends :
      (d : IrqDesc) (o : Option ℕ)
      → bit_and vect 0x200 ≡ 0
      → get_elem? table (bit_and vect 0x1ff) ≡ some d
      → d.handler ≡ o
      → Ends vect events
  unfolding rt_hw_trap_irq
  trap_irq-Ends d none z found e = inl (ground arith)
  trap_irq-Ends d (some h) z found e = inr (h, d.param, z, ground arith)

  trap_irq_entry :
      (o : Option IrqDesc)
      → bit_and vect 0x200 ≡ 0
      → get_elem? table (bit_and vect 0x1ff) ≡ o
      → Ends vect events
  unfolding rt_hw_trap_irq
  trap_irq_entry none z found = absurd (ground arith)
  trap_irq_entry (some d) z found = trap_irq-Ends d d.handler z found refl

  -- Every dispatch inside the table begins by acknowledging the interrupt, ends by ending the
  -- interrupt that was acknowledged, and calls at most one routine in between, which it does only
  -- for a value that is not spurious.
  pub trap_irq_shape : Ends vect events
  unfolding rt_hw_trap_irq
  trap_irq_shape = elim (ℕ_discrete (bit_and vect 0x200) 0) [
    | no s ↦ inl (ground arith)
    | yes s ↦ trap_irq_entry (get_elem? table (bit_and vect 0x1ff)) s refl
  ]
