-- ===== src/Emac/Receive.antt =====
-- A call of _emac_rx keeps the receive ring.
use bsp_v3s.Common.{
  ℕ, suc, ◌+◌, ◌*◌, ◌%◌, ◌≤◌, ◌<◌, bit_and, bit_or, Option, none, some, List, [], ◌∷◌, ◌++◌, length,
  take, get_elem?, get_elem?-lt, take-suc, length-append, ◌≡◌, ◌≢◌, ◌∙◌, refl, arith, ap, sym, inl,
  inr, ◌⊎◌, ℕ_discrete, dec_lt, pos,
}
use bsp_v3s.Machine.Memory.{Mem, read_mem, read_mem-append}
use bsp_v3s.Emac.{
  Emac, Desc, own, eth_bufsize, next_desc, put_desc, sun8i_eth_recv, sun8i_free_pkt, copy_pieces,
  emac_rx, no_frame, frame, eagain,
}
use bsp_v3s.Emac.Ring.{
  World, IsRing, Holds, Covers, concat, sum, after_rx, waiting, idle, wrap, apart, put_desc_self,
  put_desc_ne, own-bit_or,
}

-- The pieces that are copied make up the bytes in memory.
pub concat-copy_pieces :
    (m : Mem) (a : ℕ) (ns : List ℕ) → concat (copy_pieces m a ns) ≡ read_mem m a (sum ns)
unfolding copy_pieces read_mem
concat-copy_pieces m a [] = refl
concat-copy_pieces m a (n ∷ ns) =
    ap (λ (rest : List ℕ). read_mem m a n ++ rest) (concat-copy_pieces m (a + n) ns)
    ∙ sym (read_mem-append m a n (sum ns))

recv_idle :
    (e : Emac)
    → bit_and (e.rx_chain e.rx_currdescnum).status own ≢ 0
    → sun8i_eth_recv e ≡ (eagain, none)
unfolding sun8i_eth_recv
recv_idle e h = ground arith

recv_waiting :
    (e : Emac) (f : List ℕ)
    → Holds e e.rx_currdescnum f
    → sun8i_eth_recv e ≡ (pos (length f), some (e.rx_chain e.rx_currdescnum).buf_addr)
unfolding sun8i_eth_recv
recv_waiting e f (fits, clear, len, here) = ground (arith, clear, len)

-- Nothing to receive: nothing changes.
pub emac_rx-idle :
    (alloc : ℕ → Option (List ℕ)) (e : Emac)
    → bit_and (e.rx_chain e.rx_currdescnum).status own ≢ 0
    → emac_rx alloc e ≡ (no_frame, e)
unfolding emac_rx
emac_rx-idle alloc e h = rw (emac_rx, recv_idle e h) refl

rx_none :
    (alloc : ℕ → Option (List ℕ)) (e : Emac) (n : ℕ) (a : Option ℕ)
    → sun8i_eth_recv e ≡ (pos (suc n), a)
    → alloc (suc n) ≡ none
    → emac_rx alloc e ≡ (no_frame, e)
unfolding emac_rx
rx_none alloc e n a h g = ground arith

rx_some :
    (alloc : ℕ → Option (List ℕ)) (e : Emac) (n a : ℕ) (ns : List ℕ)
    → sun8i_eth_recv e ≡ (pos (suc n), some a)
    → alloc (suc n) ≡ some ns
    → emac_rx alloc e ≡ (frame (copy_pieces e.mem a ns), sun8i_free_pkt e)
unfolding emac_rx
rx_some alloc e n a ns h g = ground arith

module _ (w : World) (r : IsRing w) (f : List ℕ)
    (found : get_elem? w.delivered (length w.received) ≡ some f) where
  open r use {cur, hw_at, behind, bounded, buffers, pending, free, prefix}

  one_more : length (w.received ++ f ∷ []) ≡ length w.received + 1
  one_more = length-append w.received (f ∷ [])

  freed : Desc
  freed = record (w.dev.rx_chain w.dev.rx_currdescnum) {
    status = bit_or (w.dev.rx_chain w.dev.rx_currdescnum).status own;
  }

  dev' : Emac
  unfolding freed
  dev' = record w.dev {
    rx_chain = put_desc w.dev.rx_currdescnum freed w.dev.rx_chain;
    rx_currdescnum = next_desc w.dev.rx_currdescnum;
  }

  kept : (k : ℕ) → k ≢ w.dev.rx_currdescnum → dev'.rx_chain k ≡ w.dev.rx_chain k
  unfolding dev'
  kept k ne = put_desc_ne w.dev.rx_currdescnum k freed w.dev.rx_chain ne

  at_cur : dev'.rx_chain w.dev.rx_currdescnum ≡ freed
  unfolding dev'
  at_cur = put_desc_self w.dev.rx_currdescnum freed w.dev.rx_chain

  pending' :
      (j : ℕ) (g : List ℕ)
      → length w.received < j
      → get_elem? w.delivered j ≡ some g
      → Holds dev' (j % 32) g
  unfolding dev'
  pending' j g from at =
      let lt = get_elem?-lt w.delivered j g at in
      let ne : j % 32 ≢ w.dev.rx_currdescnum =
        λ e. apart (length w.received) j from (omega (arith, bounded)) (omega (arith, cur)) in
      rw (kept (j % 32) ne) (pending j g (omega arith) at)

  free' :
      (j : ℕ)
      → length w.delivered ≤ j
      → j < length w.received + 33
      → bit_and (dev'.rx_chain (j % 32)).status own ≢ 0
  unfolding freed
  free' j from lt = elim (ℕ_discrete (j % 32) w.dev.rx_currdescnum) [
    | yes e ↦ rw (e, at_cur) (own-bit_or (w.dev.rx_chain w.dev.rx_currdescnum).status)
    | no ne ↦ rw (kept (j % 32) ne) (free j from (omega (arith, cur)))
  ]

  buffers' : (k : ℕ) → k < 32 → (dev'.rx_chain k).buf_addr ≡ w.dev.rxbuffer + k * eth_bufsize
  unfolding freed
  buffers' k lt = elim (ℕ_discrete k w.dev.rx_currdescnum) [
    | yes e ↦ rw (e, at_cur) (buffers w.dev.rx_currdescnum (omega arith))
    | no ne ↦ rw (kept k ne) (buffers k lt)
  ]

  next_one : suc (length w.received) ≡ length (w.received ++ f ∷ [])
  next_one = omega (arith, one_more)

  pub free_pkt-IsRing :
      IsRing (record w { dev = sun8i_free_pkt w.dev; received = w.received ++ f ∷ [] })
  unfolding dev' freed sun8i_free_pkt
  free_pkt-IsRing = record {
    cur = wrap w.dev.rx_currdescnum (length w.received) cur ∙ ap (λ (n : ℕ). n % 32) (sym one_more);
    hw_at = hw_at;
    behind = omega (arith, one_more, get_elem?-lt w.delivered (length w.received) f found);
    bounded = omega (arith, one_more, bounded);
    buffers = buffers';
    pending = λ j g from at. pending' j g (omega (arith, one_more)) at;
    free = λ j from lt. free' j from (omega (arith, one_more));
    prefix =
        ap (λ (xs : List (List ℕ)). xs ++ f ∷ []) prefix
        ∙ sym (take-suc w.delivered (length w.received) f found)
        ∙ ap (λ (n : ℕ). take n w.delivered) next_one;
  }

emac_rx-alloc :
    (alloc : ℕ → Option (List ℕ)) (e : Emac) (b : ℕ) (bs : List ℕ)
    → Covers alloc
    → Holds e e.rx_currdescnum (b ∷ bs)
    → (got : Option (List ℕ)) → alloc (length (b ∷ bs)) ≡ got
    → ((alloc (length (b ∷ bs)) ≡ none) × (emac_rx alloc e ≡ (no_frame, e)))
      ⊎ ((ps : List (List ℕ)) × (emac_rx alloc e ≡ (frame ps, sun8i_free_pkt e))
          × (concat ps ≡ b ∷ bs))
emac_rx-alloc alloc e b bs covers holds none given = inl (
  given,
  rx_none alloc e (length bs) (some (e.rx_chain e.rx_currdescnum).buf_addr)
      (recv_waiting e (b ∷ bs) holds) given,
)
emac_rx-alloc alloc e b bs covers holds (some ns) given =
    let (fits, clear, long, stored) = holds in
    let a : ℕ = (e.rx_chain e.rx_currdescnum).buf_addr in
    inr (
      copy_pieces e.mem a ns,
      rx_some alloc e (length bs) a ns (recv_waiting e (b ∷ bs) holds) given,
      concat-copy_pieces e.mem a ns
          ∙ ap (λ (n : ℕ). read_mem e.mem a n) (covers (length (b ∷ bs)) ns given)
          ∙ stored,
    )

-- What a call comes to when a frame waits.
pub emac_rx-waiting :
    (alloc : ℕ → Option (List ℕ)) (e : Emac) (f : List ℕ)
    → Covers alloc
    → Holds e e.rx_currdescnum f
    → ((alloc (length f) ≡ none) × (emac_rx alloc e ≡ (no_frame, e)))
      ⊎ ((ps : List (List ℕ)) × (emac_rx alloc e ≡ (frame ps, sun8i_free_pkt e)) × (concat ps ≡ f))
emac_rx-waiting alloc e [] covers ((least, most), clear, long, stored) = elim least [ ]
emac_rx-waiting alloc e (b ∷ bs) covers holds =
    emac_rx-alloc alloc e b bs covers holds (alloc (length (b ∷ bs))) refl

-- A call of _emac_rx keeps the ring.
pub receive-IsRing :
    (alloc : ℕ → Option (List ℕ)) (w : World)
    → Covers alloc
    → IsRing w
    → IsRing (after_rx (emac_rx alloc w.dev) w)
receive-IsRing alloc w covers r = elim (dec_lt (length w.received) (length w.delivered)) [
  | no ge ↦ rw (emac_rx-idle alloc w.dev (idle w r (omega (arith, r.behind)))) r
  | yes lt ↦
      let (f, found, holds) = waiting w r lt in
      elim (emac_rx-waiting alloc w.dev f covers holds) [
        | inl (refused, e) ↦ rw e r
        | inr (ps, e, whole) ↦ rw (e, whole) (free_pkt-IsRing w r f found)
      ]
]
