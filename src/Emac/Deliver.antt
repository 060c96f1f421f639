-- ===== src/Emac/Deliver.antt =====
-- A delivery keeps the receive ring.
use bsp_v3s.Common.{
  ℕ, ◌+◌, ◌*◌, ◌%◌, ◌≤◌, ◌<◌, bit_and, some, List, [], ◌∷◌, ◌++◌, length, get_elem?,
  get_elem?-snoc_lt, get_elem?-snoc_last, get_elem?-lt, take-snoc, length-append, ◌≡◌, ◌≢◌, ◌∙◌,
  arith, ap, sym, ℕ_discrete, dec_lt,
}
use bsp_v3s.Machine.Memory.{write_mem, read_mem-write_mem_self, read_mem-write_mem_ne}
use bsp_v3s.Emac.{Emac, Desc, own, eth_bufsize, next_desc, put_desc, frame_length}
use bsp_v3s.Emac.Ring.{World, IsRing, Fits, Holds, room, wrap, apart, put_desc_self, put_desc_ne}

module _ (w : World) (r : IsRing w) (f : List ℕ) (status : ℕ) (fits : Fits f)
    (mine : bit_and (w.dev.rx_chain w.hw).status own ≢ 0) (given : bit_and status own ≡ 0)
    (len : frame_length status ≡ length f) where
  open r use {cur, hw_at, behind, bounded, buffers, pending, free, prefix}

  full_d : Desc
  full_d = record (w.dev.rx_chain w.hw) { status = status }

  dev' : Emac
  unfolding full_d
  dev' = record w.dev {
    rx_chain = put_desc w.hw full_d w.dev.rx_chain;
    mem = write_mem w.dev.mem (w.dev.rx_chain w.hw).buf_addr f;
  }

  hw_lt : w.hw < 32
  hw_lt = omega (arith, hw_at)

  at_hw : (w.dev.rx_chain w.hw).buf_addr ≡ w.dev.rxbuffer + w.hw * eth_bufsize
  at_hw = buffers w.hw hw_lt

  -- A frame that waits is in another descriptor, and another buffer.
  others : (k : ℕ) (g : List ℕ) → k < 32 → k ≢ w.hw → Holds w.dev k g → Holds dev' k g
  unfolding dev' full_d
  others k g lt ne (ok, clear, long, here) =
      let same : dev'.rx_chain k ≡ w.dev.rx_chain k = put_desc_ne w.hw k full_d w.dev.rx_chain ne in
      let beside =
        read_mem-write_mem_ne w.dev.mem (w.dev.rx_chain w.hw).buf_addr f (w.dev.rx_chain k).buf_addr
          (length g) (omega (arith, at_hw, buffers k lt)) in
      (ok, rw same clear, rw same long, rw same (beside ∙ here))

  new : Holds dev' w.hw f
  unfolding dev' full_d
  new =
      let same : dev'.rx_chain w.hw ≡ full_d = put_desc_self w.hw full_d w.dev.rx_chain in
      (
        fits,
        rw same given,
        rw same len,
        rw same (read_mem-write_mem_self w.dev.mem (w.dev.rx_chain w.hw).buf_addr f),
      )

  one_more : length (w.delivered ++ f ∷ []) ≡ length w.delivered + 1
  one_more = length-append w.delivered (f ∷ [])

  not_last : (j : ℕ) → length w.received ≤ j → j < length w.delivered → j % 32 ≢ w.hw
  not_last j from lt =
      λ e. apart j (length w.delivered) lt (omega (arith, room w r mine)) (omega (arith, hw_at))

  pending' :
      (j : ℕ) (g : List ℕ)
      → length w.received ≤ j
      → get_elem? (w.delivered ++ f ∷ []) j ≡ some g
      → Holds dev' (j % 32) g
  pending' j g from found = elim (dec_lt j (length w.delivered)) [
    | yes lt ↦
        others (j % 32) g (omega arith) (not_last j from lt)
          (pending j g from (sym (get_elem?-snoc_lt w.delivered f j lt) ∙ found))
    | no ge ↦
        let end : j ≡ length w.delivered =
          omega (arith, get_elem?-lt (w.delivered ++ f ∷ []) j g found, one_more) in
        let at_end : some f ≡ some g =
          sym (get_elem?-snoc_last w.delivered f) ∙ (rw end at found) in
        let is_f : f ≡ g = cc in
        let slot : j % 32 ≡ w.hw = omega (arith, hw_at) in rw (slot, ← is_f) new
  ]

  free' :
      (j : ℕ)
      → length w.delivered < j
      → j < length w.received + 32
      → bit_and (dev'.rx_chain (j % 32)).status own ≢ 0
  unfolding dev'
  free' j from lt =
      let ne : j % 32 ≢ w.hw =
        λ e. apart (length w.delivered) j from (omega (arith, behind)) (omega (arith, hw_at)) in
      rw (put_desc_ne w.hw (j % 32) full_d w.dev.rx_chain ne) (free j (omega arith) lt)

  buffers' : (k : ℕ) → k < 32 → (dev'.rx_chain k).buf_addr ≡ w.dev.rxbuffer + k * eth_bufsize
  unfolding dev' full_d
  buffers' k lt = elim (ℕ_discrete k w.hw) [
    | yes e ↦ rw (e, put_desc_self w.hw full_d w.dev.rx_chain) at_hw
    | no ne ↦ rw (put_desc_ne w.hw k full_d w.dev.rx_chain ne) (buffers k lt)
  ]

  pub deliver-IsRing : IsRing (record {
    dev = record w.dev {
      rx_chain = put_desc w.hw (record (w.dev.rx_chain w.hw) { status = status }) w.dev.rx_chain;
      mem = write_mem w.dev.mem (w.dev.rx_chain w.hw).buf_addr f;
    };
    hw = next_desc w.hw;
    delivered = w.delivered ++ f ∷ [];
    received = w.received;
  })
  unfolding dev' full_d
  deliver-IsRing = record {
    cur = cur;
    hw_at = wrap w.hw (length w.delivered) hw_at ∙ ap (λ (n : ℕ). n % 32) (sym one_more);
    behind = omega (arith, behind, one_more);
    bounded = omega (arith, room w r mine, one_more);
    buffers = buffers';
    pending = pending';
    free = λ j from lt. free' j (omega (arith, one_more)) lt;
    prefix = prefix ∙ sym (take-snoc w.delivered f (length w.received) behind);
  }
