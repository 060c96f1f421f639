-- ===== src/Emac/Setup.antt =====
-- The set-up of the controller: its reset, the rings, the MAC address and the interface.
use bsp_v3s.Common.{
  ℕ, zero, suc, ◌+◌, ◌*◌, ◌/◌, ◌%◌, ◌^◌, ◌<◌, ◌==◌, if◌then◌else◌, bit_and, ◌≡◌, ◌∙◌, ◌⊎◌, refl,
  sym, ap, arith, true, false, Bool, inl, inr, Bool-cases, ℤ, negsuc, pos, [], ◌∷◌,
}
use mathlib.Core.Path.{subst}
use bsp_v3s.Word.{u32}
use bsp_v3s.Machine.Io.{M, Io, rd, wr, readl}
use bsp_v3s.Emac.{Emac, Desc, tx_descs_from, tx_descs_init, rx_descs_init}
use bsp_v3s.Emac.Mac.{
  reset_wait, emac_start, after_reset, sun8i_emac_eth_init, emac_ctl1, sun8i_write_hwaddr,
  emac_addr0_low, emac_addr0_high, setbits_le32, Variant, a83t, h3, a64, Interface, mii, rgmii,
  rmii, another, has_rmii, sun8i_emac_set_syscon,
}
use bsp_v3s.Emac.Ring.{IsRing}
use bsp_v3s.Emac.Order.{rx_descs_init-IsRing}

-- The ring of the transmitter is all that its set-up changes.
tx_descs_from_lem :
    (n idx : ℕ) (e : Emac) → (c : ℕ → Desc) × (tx_descs_from n idx e ≡ record e { tx_chain = c })
unfolding tx_descs_from
tx_descs_from_lem zero idx e = (e.tx_chain, refl)
tx_descs_from_lem (suc n) idx e = tx_descs_from_lem n (idx + 1) _

tx_descs_init-IsRing :
    (e : Emac) (s : Io)
    → IsRing (record { dev = e; hw = 0; delivered = []; received = [] })
    → IsRing (record { dev = (tx_descs_init e s).0; hw = 0; delivered = []; received = [] })
unfolding tx_descs_init
tx_descs_init-IsRing e s r =
    let (c, same) = tx_descs_from_lem 32 0 e in
    subst
      (λ (x : Emac).
        IsRing
          (record { dev = record x { tx_currdescnum = 0 }; hw = 0; delivered = []; received = [] }))
      (sym same)
      (record {
        cur = r.cur;
        hw_at = r.hw_at;
        behind = r.behind;
        bounded = r.bounded;
        buffers = r.buffers;
        pending = r.pending;
        free = r.free;
        prefix = r.prefix;
      })

start-IsRing :
    (parse_link : M (Bool × ℕ)) (enetaddr : ℕ → ℕ) (e : Emac) (s : Io)
    → IsRing (record {
      dev = (emac_start parse_link enetaddr e s).0;
      hw = 0;
      delivered = [];
      received = [];
    })
unfolding emac_start rx_descs_init tx_descs_init
start-IsRing parse_link enetaddr e s =
    tx_descs_init-IsRing (rx_descs_init e s).0 s (rx_descs_init-IsRing e s)

abbrev pub Resetting : Io → ℕ → Type 0
Resetting s k = (bit_and (s.input k) 1 == 0) ≡ false

reset_more :
    (n : ℕ) (s : Io) → Resetting s 0 → reset_wait (suc n) s ≡ reset_wait n (readl emac_ctl1 s).1
unfolding reset_wait
reset_more n s e = ground arith

reset_done :
    (n : ℕ) (s : Io) → (bit_and (s.input 0) 1 == 0) ≡ true → (reset_wait (suc n) s).0 ≡ true
unfolding reset_wait
reset_done n s e = ground arith

-- The reset ends, or every read finds its bit set.
reset_cases :
    (n : ℕ) (s : Io)
    → ((reset_wait n s).0 ≡ true)
      ⊎ (((reset_wait n s).0 ≡ false) × ((k : ℕ) → k < n → Resetting s k))
unfolding reset_wait
reset_cases zero s = inr (refl, λ k lt. absurd (omega arith))
reset_cases (suc n) s = elim (Bool-cases (bit_and (s.input 0) 1 == 0)) [
  | inl e ↦ inl (reset_done n s e)
  | inr e ↦ elim (reset_cases n (readl emac_ctl1 s).1) [
    | inl f ↦ inl (ap (λ (r : Bool × Io). r.0) (reset_more n s e) ∙ f)
    | inr (f, rest) ↦ inr (ap (λ (r : Bool × Io). r.0) (reset_more n s e) ∙ f, every s e rest)
  ]
]
  where
    every :
        (s : Io)
        → Resetting s 0
        → ((k : ℕ) → k < n → Resetting (readl emac_ctl1 s).1 k)
        → (k : ℕ) → k < suc n
        → Resetting s k
    every s e rest zero lt = e
    every s e rest (suc k) lt = rest k (omega arith)

-- The state when the reset was asked for.
abbrev pub asked : Io → Io
asked s = (setbits_le32 emac_ctl1 1 (readl emac_ctl1 s).1).1

module _ (parse_link : M (Bool × ℕ)) (enetaddr : ℕ → ℕ) (e : Emac) (s : Io) where
  init_reset :
      (ok : Bool)
      → (bit_and (s.input 0) 1 == 0) ≡ true
      → (reset_wait 100 (asked s)).0 ≡ ok
      → (sun8i_emac_eth_init parse_link enetaddr e s).0 ≡ (
          if ok
          then (pos 0, (emac_start parse_link enetaddr e (reset_wait 100 (asked s)).1).0)
          else (negsuc 0, e))
  unfolding sun8i_emac_eth_init
  init_reset true clear h =
      rw (sun8i_emac_eth_init, clear)
        (ap (λ (b : Bool). (after_reset parse_link enetaddr e b (reset_wait 100 (asked s)).1).0) h)
  init_reset false clear h =
      rw (sun8i_emac_eth_init, clear)
        (ap (λ (b : Bool). (after_reset parse_link enetaddr e b (reset_wait 100 (asked s)).1).0) h)

  init_skip :
      Resetting s 0
      → (sun8i_emac_eth_init parse_link enetaddr e s).0
        ≡ (pos 0, (emac_start parse_link enetaddr e (readl emac_ctl1 s).1).0)
  unfolding sun8i_emac_eth_init
  init_skip set = rw (sun8i_emac_eth_init, set) refl

  abbrev pub Ready : ℤ × Emac → Type 0
  Ready r = (r.0 ≡ pos 0) × IsRing (record { dev = r.1; hw = 0; delivered = []; received = [] })

  -- The set-up of the controller returns 0 and leaves the receive ring well formed, with every
  -- descriptor the controller's, or it returns -1 and changes nothing of the rings: the latter only
  -- if the reset bit was clear at first and set in each of the 100 reads after the reset.
  pub sun8i_emac_eth_init_lem :
      Ready (sun8i_emac_eth_init parse_link enetaddr e s).0
      ⊎ (((sun8i_emac_eth_init parse_link enetaddr e s).0 ≡ (negsuc 0, e))
          × ((bit_and (s.input 0) 1 == 0) ≡ true)
          × ((k : ℕ) → k < 100 → Resetting s (suc (suc k))))
  sun8i_emac_eth_init_lem = elim (Bool-cases (bit_and (s.input 0) 1 == 0)) [
    | inr set ↦
        inl (rw (init_skip set) (refl, start-IsRing parse_link enetaddr e (readl emac_ctl1 s).1))
    | inl clear ↦ elim (reset_cases 100 (asked s)) [
      | inl ok ↦ inl (
          rw (init_reset true clear ok)
            (refl, start-IsRing parse_link enetaddr e (reset_wait 100 (asked s)).1))
      | inr (bad, every) ↦ inr (init_reset false clear bad, clear, every)
    ]
  ]

-- The two address registers hold the six bytes of the address, the first in the lowest byte of the
-- low register and the last in the second byte of the high one; nothing else is written.
pub sun8i_write_hwaddr_lem :
    (mac_id : ℕ → ℕ) (s : Io)
    → ((i : ℕ) → mac_id i < 256)
    → (lo : ℕ) × (hi : ℕ) × ((sun8i_write_hwaddr mac_id s).1.log
        ≡ wr emac_addr0_low lo ∷ wr emac_addr0_high hi ∷ s.log)
      × ((i : ℕ) → i < 6 → (lo + hi * 2 ^ 32) / 256 ^ i % 256 ≡ mac_id i)
unfolding sun8i_write_hwaddr
sun8i_write_hwaddr_lem mac_id s byte = (_, _, refl, each)
  where
    each :
        (i : ℕ)
        → i < 6
        → (u32 (mac_id 0 + mac_id 1 * 256 + mac_id 2 * 65536 + mac_id 3 * 16777216)
              + u32 (mac_id 4 + mac_id 5 * 256) * 2 ^ 32)
            / 256 ^ i
            % 256
          ≡ mac_id i
    each zero lt = omega (arith, byte 0, byte 1, byte 2, byte 3, byte 4, byte 5)
    each (suc zero) lt = omega (arith, byte 0, byte 1, byte 2, byte 3, byte 4, byte 5)
    each (suc (suc zero)) lt = omega (arith, byte 0, byte 1, byte 2, byte 3, byte 4, byte 5)
    each (suc (suc (suc zero))) lt = omega (arith, byte 0, byte 1, byte 2, byte 3, byte 4, byte 5)
    each (suc (suc (suc (suc zero)))) lt =
        omega (arith, byte 0, byte 1, byte 2, byte 3, byte 4, byte 5)
    each (suc (suc (suc (suc (suc zero))))) lt =
        omega (arith, byte 0, byte 1, byte 2, byte 3, byte 4, byte 5)
    each (suc (suc (suc (suc (suc (suc i)))))) lt = absurd (omega arith)

-- The interfaces that a variant supports.
abbrev pub Supported : Variant → Interface → Type 0
Supported v mii = Unit {0}
Supported v rgmii = Unit {0}
Supported v rmii = has_rmii v ≡ true
Supported v another = ⊥

-- On an interface that the variant supports the system control register is read and written once, and
-- 0 is returned; on any other it is read only, and -22 is returned.
pub sun8i_emac_set_syscon_lem :
    (sysctl : ℕ) (v : Variant) (internal : Bool) (phyaddr : ℕ) (i : Interface) (s : Io)
    → (Supported v i
        × ((sun8i_emac_set_syscon sysctl v internal phyaddr i s).0 ≡ pos 0)
        × (w : ℕ) × ((sun8i_emac_set_syscon sysctl v internal phyaddr i s).1.log
            ≡ wr sysctl w ∷ rd sysctl (s.input 0) ∷ s.log))
      ⊎ (¬ Supported v i
          × ((sun8i_emac_set_syscon sysctl v internal phyaddr i s).0 ≡ negsuc 21)
          × ((sun8i_emac_set_syscon sysctl v internal phyaddr i s).1.log
              ≡ rd sysctl (s.input 0) ∷ s.log))
unfolding sun8i_emac_set_syscon
sun8i_emac_set_syscon_lem sysctl v internal phyaddr mii s = inl (tt, refl, _, refl)
sun8i_emac_set_syscon_lem sysctl v internal phyaddr rgmii s = inl (tt, refl, _, refl)
sun8i_emac_set_syscon_lem sysctl a83t internal phyaddr rmii s = inr (λ e. cc, refl, refl)
sun8i_emac_set_syscon_lem sysctl h3 internal phyaddr rmii s = inl (refl, refl, _, refl)
sun8i_emac_set_syscon_lem sysctl a64 internal phyaddr rmii s = inl (refl, refl, _, refl)
sun8i_emac_set_syscon_lem sysctl v internal phyaddr another s = inr (λ e. e, refl, refl)
