-- ===== src/Emac/Order.antt =====
-- Packet reception as a whole: every run of deliveries and calls of _emac_rx, from rx_descs_init on.
use bsp_v3s.Common.{
  ℕ, zero, suc, ◌+◌, ◌*◌, ◌≤◌, ◌<◌, ◌==◌, ◌%◌, bit_or, bit_and, if◌then◌else◌, ◌≡◌, ◌≢◌, refl,
  arith, List, [], ◌∷◌, ◌++◌, length, take, replicate, Option, none, some, ℕ_discrete, get_elem?,
  inl, inr,
}
use bsp_v3s.Machine.Io.{Io}
use bsp_v3s.Emac.{
  Emac, Desc, own, descr_num, eth_bufsize, eth_rxsize, put_desc, frame_length, rx_descs_from,
  rx_descs_init, sun8i_eth_recv, emac_rx, RxResult, no_frame, emsgsize,
}
use bsp_v3s.Emac.Ring.{
  World, Step, deliver, receive, Reach, here, later, IsRing, Covers, after_rx, put_desc_self,
  put_desc_ne, waiting,
}
use bsp_v3s.Emac.Deliver.{deliver-IsRing}
use bsp_v3s.Emac.Receive.{receive-IsRing, emac_rx-waiting}

abbrev Ready : Emac → ℕ → Type 0
Ready e k = ((e.rx_chain k).status ≡ own) × ((e.rx_chain k).buf_addr ≡ e.rxbuffer + k * eth_bufsize)

-- The loop leaves what is before it, and makes what is in it ready.
rx_descs_from-below :
    (n idx : ℕ) (e : Emac) (k : ℕ) → k < idx → Ready e k → Ready (rx_descs_from n idx e) k
unfolding rx_descs_from
rx_descs_from-below zero idx e k lt r = r
rx_descs_from-below (suc n) idx e k lt r =
    let d' : Desc = record (e.rx_chain idx) {
      buf_addr = e.rxbuffer + idx * eth_bufsize;
      next = if idx + 1 == descr_num then e.rx_at else e.rx_at + (idx + 1) * 64;
      st = bit_or (e.rx_chain idx).st eth_rxsize;
      status = own;
    } in
    rx_descs_from-below n (idx + 1) (record e { rx_chain = put_desc idx d' e.rx_chain }) k
      (omega arith) (rw (put_desc_ne idx k d' e.rx_chain (λ e. omega arith)) r)

rx_descs_from-Ready :
    (n idx : ℕ) (e : Emac) (k : ℕ) → idx ≤ k → k < idx + n → Ready (rx_descs_from n idx e) k
unfolding rx_descs_from
rx_descs_from-Ready zero idx e k ge lt = absurd (omega arith)
rx_descs_from-Ready (suc n) idx e k ge lt =
    let d' : Desc = record (e.rx_chain idx) {
      buf_addr = e.rxbuffer + idx * eth_bufsize;
      next = if idx + 1 == descr_num then e.rx_at else e.rx_at + (idx + 1) * 64;
      st = bit_or (e.rx_chain idx).st eth_rxsize;
      status = own;
    } in
    let e' : Emac = record e { rx_chain = put_desc idx d' e.rx_chain } in
    elim (ℕ_discrete idx k) [
      | yes same ↦
          rx_descs_from-below n (idx + 1) e' k (omega arith)
            (rw (← same, put_desc_self idx d' e.rx_chain) (refl, refl))
      | no ne ↦ rx_descs_from-Ready n (idx + 1) e' k (omega arith) (omega arith)
    ]

-- The world that rx_descs_init leaves: no frame yet, and the controller at the descriptor that
-- register 0x34 names, the first.
abbrev pub started : Emac → Io → World
started e s = record { dev = (rx_descs_init e s).0; hw = 0; delivered = []; received = [] }

-- Every descriptor is the controller's, with a buffer of its own, after rx_descs_init: the ring is
-- well formed before the first frame.
pub rx_descs_init-IsRing : (e : Emac) (s : Io) → IsRing (started e s)
unfolding rx_descs_init
rx_descs_init-IsRing e s =
    let at = λ (k : ℕ) (lt : k < 32). rx_descs_from-Ready 32 0 e k (omega arith) lt in
    record {
      cur = refl;
      hw_at = refl;
      behind = omega arith;
      bounded = omega arith;
      buffers = λ k lt. (at k lt).1;
      pending = λ j f ge found. cc;
      free = λ j ge lt. rw ((at (j % 32) (omega arith)).0) (λ z. cc);
      prefix = refl;
    }

-- A delivery by the controller and a call of _emac_rx keep the ring well formed.
pub Step-IsRing : {w v : World} → Step w v → IsRing w → IsRing v
Step-IsRing {w} (deliver f status fits mine given long) r =
    deliver-IsRing w r f status fits mine given long
Step-IsRing {w} (receive alloc covers) r = receive-IsRing alloc w covers r

pub Reach-IsRing : {w v : World} → Reach w v → IsRing w → IsRing v
Reach-IsRing here r = r
Reach-IsRing (later so_far step) r = Step-IsRing step (Reach-IsRing so_far r)

-- In every state that deliveries by the controller and calls of _emac_rx reach from rx_descs_init,
-- whatever their order and whichever allocations fail, the frames received are the first of the
-- frames delivered, in order and with their bytes, at most 32 fewer than those. Delivered frames
-- have 64 to 2044 bytes, the controller writes into descriptors that it owns only, and the pieces
-- of an allocated chain add up to the length asked for.
pub received-delivered :
    (e : Emac) (s : Io) (w : World)
    → Reach (started e s) w
    → (w.received ≡ take (length w.received) w.delivered)
      × (length w.received ≤ length w.delivered)
      × (length w.delivered ≤ length w.received + 32)
received-delivered e s w so_far =
    let r = Reach-IsRing so_far (rx_descs_init-IsRing e s) in (r.prefix, r.behind, r.bounded)

-- In such a state, if fewer frames were received than delivered, a call of _emac_rx whose
-- allocation succeeds receives the next of the frames delivered.
pub next_received :
    (e : Emac) (s : Io) (w : World)
    → Reach (started e s) w
    → (alloc : ℕ → Option (List ℕ)) → Covers alloc
    → ((n : ℕ) → alloc n ≢ none)
    → length w.received < length w.delivered
    → (f : List ℕ) × (get_elem? w.delivered (length w.received) ≡ some f)
      × ((after_rx (emac_rx alloc w.dev) w).received ≡ w.received ++ f ∷ [])
next_received e s w so_far alloc covers always lt =
    let r = Reach-IsRing so_far (rx_descs_init-IsRing e s) in
    let (f, found, holds) = waiting w r lt in
    elim (emac_rx-waiting alloc w.dev f covers holds) [
      | inl (refused, e) ↦ absurd (always (length f) refused)
      | inr (ps, e, whole) ↦ (f, found, rw (e, whole) refl)
    ]

too_long :
    (alloc : ℕ → Option (List ℕ)) (e : Emac)
    → bit_and (e.rx_chain e.rx_currdescnum).status own ≡ 0
    → eth_rxsize < frame_length (e.rx_chain e.rx_currdescnum).status
    → emac_rx alloc e ≡ (no_frame, e)
unfolding emac_rx sun8i_eth_recv
too_long alloc e clear big =
    let failed : sun8i_eth_recv e ≡ (emsgsize, none) = ground (arith, clear) in
    rw (emac_rx, failed) refl

-- The driver after one call of _emac_rx for each allocator.
abbrev pub calls : List (ℕ → Option (List ℕ)) → Emac → List RxResult × Emac
calls [] e = ([], e)
calls (alloc ∷ rest) e =
    let (r, e') = emac_rx alloc e in let (rs, e'') = calls rest e' in (r ∷ rs, e'')

-- When the current descriptor is the driver's and states a length above 2044, any number of calls of
-- _emac_rx return no frame, and leave the ring as it is: the descriptor is never given back.
pub oversized_calls :
    (allocs : List (ℕ → Option (List ℕ))) (e : Emac)
    → bit_and (e.rx_chain e.rx_currdescnum).status own ≡ 0
    → eth_rxsize < frame_length (e.rx_chain e.rx_currdescnum).status
    → calls allocs e ≡ (replicate (length allocs) no_frame, e)
oversized_calls [] e clear big = refl
oversized_calls (alloc ∷ rest) e clear big =
    rw (too_long alloc e clear big, oversized_calls rest e clear big) refl
