-- ===== src/Emac/Mdio.antt =====
-- The MDIO bus: what a command asks for, and that it ends.
use bsp_v3s.Common.{
  ℕ, suc, ◌+◌, ◌*◌, ◌^◌, ◌<◌, bit_or, Bool, ◌≡◌, ◌≢◌, ◌∙◌, refl, ap, arith, true, false, Option,
  none, some, negsuc, pos,
}
use bsp_v3s.Word.{shl32}
use bsp_v3s.Word.Pack.{bit_or-disjoint, disjoint-bit_or}
use bsp_v3s.Word.Mask.{bit_and-shl32_mask}
use bsp_v3s.Machine.Io.{Io, readl, writel}
use bsp_v3s.Emac.Mac.{
  mii_wait, emac_mii_cmd, emac_mii_data, miiaddr, read_data, sun8i_mdio_read, sun8i_mdio_write,
  int_of,
}
use bsp_v3s.Emac.MiiWait.{InTime, Late, Idle, Asked, wait-Late, wait-Idle, wait_ends}

-- The state of a read, and of a write, when its wait starts; the first read is that of the tick.
abbrev pub asked_read : ℕ → ℕ → ℕ → Io → Io
asked_read tick addr reg s = (readl tick (writel (bit_or (miiaddr addr reg) 1) emac_mii_cmd s).1).1

abbrev pub asked_write : ℕ → ℕ → ℕ → ℕ → Io → Io
asked_write tick addr reg val s =
    (readl tick
      (writel (bit_or (bit_or (miiaddr addr reg) 2) 1) emac_mii_cmd
        (writel val emac_mii_data s).1).1).1

read_after :
    (tick fuel addr reg : ℕ) (s : Io) (r : Option Bool)
    → (mii_wait tick fuel (s.input 0) (asked_read tick addr reg s)).0 ≡ r
    → (sun8i_mdio_read tick fuel addr reg s).0 ≡ elim r [
      | none ↦ none
      | some false ↦ some (negsuc 0)
      | some true ↦
          some (int_of ((mii_wait tick fuel (s.input 0) (asked_read tick addr reg s)).1.input 0))
    ]
unfolding sun8i_mdio_read
read_after tick fuel addr reg s none e =
    ap
      (λ (x : Option Bool).
        (read_data x (mii_wait tick fuel (s.input 0) (asked_read tick addr reg s)).1).0)
      e
read_after tick fuel addr reg s (some false) e =
    ap
      (λ (x : Option Bool).
        (read_data x (mii_wait tick fuel (s.input 0) (asked_read tick addr reg s)).1).0)
      e
read_after tick fuel addr reg s (some true) e =
    ap
      (λ (x : Option Bool).
        (read_data x (mii_wait tick fuel (s.input 0) (asked_read tick addr reg s)).1).0)
      e

write_after :
    (tick fuel addr reg val : ℕ) (s : Io) (r : Option Bool)
    → (mii_wait tick fuel (s.input 0) (asked_write tick addr reg val s)).0 ≡ r
    → (sun8i_mdio_write tick fuel addr reg val s).0
      ≡ elim r [ none ↦ none | some false ↦ some (negsuc 0) | some true ↦ some (pos 0) ]
unfolding sun8i_mdio_write
write_after tick fuel addr reg val s none e = rw (sun8i_mdio_write, e) refl
write_after tick fuel addr reg val s (some false) e = rw (sun8i_mdio_write, e) refl
write_after tick fuel addr reg val s (some true) e = rw (sun8i_mdio_write, e) refl

read_ends :
    (tick fuel addr reg : ℕ) (s : Io) (r : Option Bool)
    → (mii_wait tick fuel (s.input 0) (asked_read tick addr reg s)).0 ≡ r
    → r ≢ none
    → (sun8i_mdio_read tick fuel addr reg s).0 ≢ none
read_ends tick fuel addr reg s none e h = absurd (h refl)
read_ends tick fuel addr reg s (some false) e h =
    rw (read_after tick fuel addr reg s (some false) e) (λ z. cc)
read_ends tick fuel addr reg s (some true) e h =
    rw (read_after tick fuel addr reg s (some true) e) (λ z. cc)

write_ends :
    (tick fuel addr reg val : ℕ) (s : Io) (r : Option Bool)
    → (mii_wait tick fuel (s.input 0) (asked_write tick addr reg val s)).0 ≡ r
    → r ≢ none
    → (sun8i_mdio_write tick fuel addr reg val s).0 ≢ none
write_ends tick fuel addr reg val s none e h = absurd (h refl)
write_ends tick fuel addr reg val s (some false) e h =
    rw (write_after tick fuel addr reg val s (some false) e) (λ z. cc)
write_ends tick fuel addr reg val s (some true) e h =
    rw (write_after tick fuel addr reg val s (some true) e) (λ z. cc)

-- When the polls before poll `k` found time left and the bus busy, a read of a PHY register returns -1
-- if the time is over at poll `k`, and the contents of the data register if the bus is idle in time.
pub sun8i_mdio_read_lem :
    (tick fuel addr reg k : ℕ) (s : Io)
    → k < fuel
    → Asked tick (s.input 0) (λ n. s.input (suc n)) k
    → (Late (λ n. s.input (suc n)) (s.input 0) k
        → (sun8i_mdio_read tick fuel addr reg s).0 ≡ some (negsuc 0))
      × (InTime (λ n. s.input (suc n)) (s.input 0) k
          → Idle (λ n. s.input (suc n)) k
          → (sun8i_mdio_read tick fuel addr reg s).0 ≡ some (int_of (s.input (suc (suc k * 2)))))
sun8i_mdio_read_lem tick fuel addr reg k s h asked =
    let s' : Io = asked_read tick addr reg s in
    (
      λ e.
          read_after tick fuel addr reg s (some false)
            (wait-Late tick (s.input 0) fuel k s' h asked e),
      λ e f.
          let (done, value) = wait-Idle tick (s.input 0) fuel k s' h asked e f in
          read_after tick fuel addr reg s (some true) done ∙ ap (λ (v : ℕ). some (int_of v)) value,
    )

-- A read and a write of a PHY register end: by the first poll at which 3000 ticks or more have passed
-- since the start, if not before.
pub mdio_ends :
    (tick fuel addr reg val k : ℕ) (s : Io)
    → k < fuel
    → Late (λ n. s.input (suc n)) (s.input 0) k
    → ((sun8i_mdio_read tick fuel addr reg s).0 ≢ none)
      × ((sun8i_mdio_write tick fuel addr reg val s).0 ≢ none)
mdio_ends tick fuel addr reg val k s h e =
    let r : Io = asked_read tick addr reg s in
    let w : Io = asked_write tick addr reg val s in
    (
      read_ends tick fuel addr reg s (mii_wait tick fuel (s.input 0) r).0 refl
          (wait_ends tick (s.input 0) fuel k r h e),
      write_ends tick fuel addr reg val s (mii_wait tick fuel (s.input 0) w).0 refl
          (wait_ends tick (s.input 0) fuel k w h e),
    )

mii_place : (addr reg : ℕ) → addr < 32 → reg < 32 → miiaddr addr reg ≡ (reg + addr * 256) * 16
mii_place addr reg a r =
    let low : shl32 reg 4 ≡ reg * 16 = omega arith in
    let high : shl32 addr 12 ≡ addr * 2 ^ 12 = omega arith in
    let sum = bit_or-disjoint 12 (reg * 16) addr (omega arith) in
    rw
      (
        bit_and-shl32_mask reg 4 5 r (omega arith),
        bit_and-shl32_mask addr 12 5 a (omega arith),
        low,
        high,
      )
      (sum ∙ omega arith)

-- The words that command a read and a write name the PHY in bits 12 to 16 and its register in bits 4
-- to 8, for addresses and registers below 32, with the busy bit, and the write bit for a write only.
pub miiaddr_lem :
    (addr reg : ℕ)
    → addr < 32
    → reg < 32
    → (bit_or (miiaddr addr reg) 1 ≡ 1 + reg * 16 + addr * 4096)
      × (bit_or (bit_or (miiaddr addr reg) 2) 1 ≡ 3 + reg * 16 + addr * 4096)
miiaddr_lem addr reg a r =
    let place : miiaddr addr reg ≡ (reg + addr * 256) * 16 = mii_place addr reg a r in
    let two : bit_or ((reg + addr * 256) * 16) 2 ≡ (reg * 8 + addr * 2048 + 1) * 2 =
      disjoint-bit_or 4 2 (reg + addr * 256) (omega arith) ∙ omega arith in
    let both = disjoint-bit_or 1 1 (reg * 8 + addr * 2048 + 1) (omega arith) in
    let one = disjoint-bit_or 4 1 (reg + addr * 256) (omega arith) in
    rw place (one ∙ omega arith, rw two (both ∙ omega arith))
