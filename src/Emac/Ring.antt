-- ===== src/Emac/Ring.antt =====
-- The receive ring between controller and driver: what holds of it in every state that deliveries
-- and calls of _emac_rx reach.
use bsp_v3s.Common.{
  ℕ, ◌+◌, ◌*◌, ◌%◌, ◌≤◌, ◌<◌, bit_and, bit_or, Option, some, List, [], ◌∷◌, ◌++◌, length, take,
  get_elem?, get_elem?-some, ◌≡◌, ◌≢◌, arith, dec_lt,
}
use bsp_v3s.Word.{testbit}
use bsp_v3s.Word.Testbit.{bit_and-pow, testbit-bit_or}
use bsp_v3s.Machine.Memory.{read_mem, write_mem}
use bsp_v3s.Emac.{
  Emac, Desc, own, eth_bufsize, eth_rxsize, next_desc, put_desc, frame_length, emac_rx, RxResult,
  no_frame, frame, null_copy,
}

-- A frame that the controller delivers: 64 bytes, the least on the wire, up to the 2044 that
-- rx_descs_init allows.
abbrev pub Fits : List ℕ → Type 0
Fits f = (64 ≤ length f) × (length f ≤ eth_rxsize)

abbrev pub concat : List (List ℕ) → List ℕ
concat [] = []
concat (p ∷ ps) = p ++ concat ps

abbrev pub sum : List ℕ → ℕ
sum [] = 0
sum (n ∷ ns) = n + sum ns

-- The lengths that the allocator gives add up to the length asked for.
abbrev pub Covers : (ℕ → Option (List ℕ)) → Type 0
Covers alloc = (n : ℕ) (ns : List ℕ) → alloc n ≡ some ns → sum ns ≡ n

-- The driver's structure, the descriptor that the controller uses next, and what was delivered and
-- received so far, in order.
pub record World : Type 0 where
  pub dev : Emac
  pub hw : ℕ
  pub delivered : List (List ℕ)
  pub received : List (List ℕ)

-- The world after a call of _emac_rx.
abbrev pub after_rx : RxResult × Emac → World → World
after_rx (no_frame, e) w = record w { dev = e }
after_rx (frame ps, e) w = record w { dev = e; received = w.received ++ concat ps ∷ [] }
after_rx (null_copy n, e) w = record w { dev = e; received = w.received ++ [] ∷ [] }

-- The controller stores a frame in the buffer of its descriptor, if it owns the descriptor, gives
-- it to the driver with the length of the frame, and goes to the next; the driver calls _emac_rx.
pub data Step (w : World) : World → Type 0 where
  deliver :
      (f : List ℕ) (status : ℕ)
      → Fits f
      → bit_and (w.dev.rx_chain w.hw).status own ≢ 0
      → bit_and status own ≡ 0
      → frame_length status ≡ length f
      → Step w (record {
        dev = record w.dev {
          rx_chain =
              put_desc w.hw (record (w.dev.rx_chain w.hw) { status = status }) w.dev.rx_chain;
          mem = write_mem w.dev.mem (w.dev.rx_chain w.hw).buf_addr f;
        };
        hw = next_desc w.hw;
        delivered = w.delivered ++ f ∷ [];
        received = w.received;
      })
  receive : (alloc : ℕ → Option (List ℕ)) → Covers alloc → Step w (after_rx (emac_rx alloc w.dev) w)

pub data Reach (s : World) : World → Type 0 where
  here : Reach s s
  later : {t u : World} → Reach s t → Step t u → Reach s u

-- Descriptor `k` holds the frame.
abbrev pub Holds : Emac → ℕ → List ℕ → Type 0
Holds e k f =
    Fits f
    × (bit_and (e.rx_chain k).status own ≡ 0)
    × (frame_length (e.rx_chain k).status ≡ length f)
    × (read_mem e.mem (e.rx_chain k).buf_addr (length f) ≡ f)

pub record IsRing (w : World) : Type 0 where
  pub cur : w.dev.rx_currdescnum ≡ length w.received % 32
  pub hw_at : w.hw ≡ length w.delivered % 32
  pub behind : length w.received ≤ length w.delivered
  pub bounded : length w.delivered ≤ length w.received + 32
  pub buffers : (k : ℕ) → k < 32 → (w.dev.rx_chain k).buf_addr ≡ w.dev.rxbuffer + k * eth_bufsize
  pub pending :
      (j : ℕ) (f : List ℕ)
      → length w.received ≤ j
      → get_elem? w.delivered j ≡ some f
      → Holds w.dev (j % 32) f
  pub free :
      (j : ℕ)
      → length w.delivered ≤ j
      → j < length w.received + 32
      → bit_and (w.dev.rx_chain (j % 32)).status own ≢ 0
  pub prefix : w.received ≡ take (length w.received) w.delivered

pub wrap : (i n : ℕ) → i ≡ n % 32 → next_desc i ≡ (n + 1) % 32
wrap i n e = ground arith

pub apart : (i j : ℕ) → i < j → j < i + 32 → j % 32 ≢ i % 32
apart i j a b = λ e. omega arith

pub put_desc_self : (i : ℕ) (d : Desc) (ring : ℕ → Desc) → put_desc i d ring i ≡ d
put_desc_self i d ring = ground arith

pub put_desc_ne : (i k : ℕ) (d : Desc) (ring : ℕ → Desc) → k ≢ i → put_desc i d ring k ≡ ring k
put_desc_ne i k d ring h = ground arith

pub own-bit_or : (s : ℕ) → bit_and (bit_or s own) own ≢ 0
unfolding testbit
own-bit_or s = ground (arith, bit_and-pow 31 (bit_or s own), testbit-bit_or s own 31)

module _ (w : World) (r : IsRing w) where
  open r use {cur, hw_at, behind, bounded, buffers, pending, free}

  -- The descriptor that the controller owns next is not one that waits for the driver.
  pub room :
      bit_and (w.dev.rx_chain w.hw).status own ≢ 0 → length w.delivered < length w.received + 32
  room mine = elim (dec_lt (length w.delivered) (length w.received + 32)) [
    | yes lt ↦ lt
    | no full ↦
        let (f, found) = get_elem?-some w.delivered (length w.received) (omega arith) in
        let same : w.hw ≡ length w.received % 32 = omega (arith, hw_at) in
        absurd (rw same at mine (pending (length w.received) f (omega arith) found).1)
  ]

  -- The descriptor that the driver reads next, where a frame waits.
  pub waiting :
      length w.received < length w.delivered
      → (f : List ℕ) × (get_elem? w.delivered (length w.received) ≡ some f)
        × Holds w.dev w.dev.rx_currdescnum f
  waiting lt =
      let (f, found) = get_elem?-some w.delivered (length w.received) lt in
      (f, found, rw cur (pending (length w.received) f (omega arith) found))

  -- ... and where none does.
  pub idle :
      length w.received ≡ length w.delivered
      → bit_and (w.dev.rx_chain w.dev.rx_currdescnum).status own ≢ 0
  idle e = rw cur (free (length w.received) (omega arith) (omega arith))
