-- ===== src/Emac/Transmit.antt =====
-- Packet transmission: a chain of pbufs goes out as the one frame of its bytes.
use bsp_v3s.Common.{
  ℕ, suc, ◌+◌, ◌≤◌, ◌<◌, leb, bit_or, bit_and, ◌≡◌, ◌∙◌, refl, ap, arith, List, [], ◌∷◌, ◌++◌,
  length, length-append, true, false, ◌⊎◌,
}
use native.Mathlib.Nat.{add-zero}
use mathlib.Core.List.{append-nil}
use bsp_v3s.Word.Pack.{or-zero, bit_or-disjoint}
use bsp_v3s.Word.Field.{bit_and-low_mask}
use bsp_v3s.Machine.Io.{Io, rd, wr}
use bsp_v3s.Machine.Memory.{
  read_mem, write_mem, write_mem-append, read_mem-write_mem_self, write_mem_ne,
}
use bsp_v3s.Emac.{
  Emac, own, put_desc, next_desc, tx_st, emac_tx_ctl1, eth_bufsize, sun8i_emac_eth_send, emac_tx,
}
use bsp_v3s.Emac.Ring.{concat}

-- The driver's structure when a whole frame was queued at offset `off` of the current buffer.
abbrev pub queued : List ℕ → ℕ → Emac → Emac
queued bytes off e =
    let i = e.tx_currdescnum in
    let d = e.tx_chain i in
    record e {
      mem = write_mem e.mem (d.buf_addr + off) bytes;
      tx_chain = put_desc i (record d { st = tx_st (off + length bytes); status = own }) e.tx_chain;
      tx_currdescnum = next_desc i;
    }

-- The accesses that start the transmission.
abbrev pub kicked : Io → Io
kicked s = record {
  input = λ n. s.input (suc n);
  log =
      wr emac_tx_ctl1 (bit_or (bit_or (s.input 0) 2147483648) 1073741824)
      ∷ rd emac_tx_ctl1 (s.input 0)
      ∷ s.log;
}

send_last :
    (bytes : List ℕ) (off : ℕ) (e : Emac) (s : Io)
    → off < 65536
    → sun8i_emac_eth_send bytes off e s ≡ (queued bytes off e, kicked s)
unfolding sun8i_emac_eth_send
send_last bytes off e s lt =
    let small : leb 0x10000 off ≡ false = ground arith in rw (sun8i_emac_eth_send, small) refl

send_piece :
    (bytes : List ℕ) (off : ℕ) (e : Emac) (s : Io)
    → off < 65536
    → sun8i_emac_eth_send bytes (bit_or off 0x10000) e s
      ≡ (record e { mem = write_mem e.mem ((e.tx_chain e.tx_currdescnum).buf_addr + off) bytes }, s)
unfolding sun8i_emac_eth_send
send_piece bytes off e s lt =
    let flagged : bit_or off 0x10000 ≡ off + 65536 = bit_or-disjoint 16 off 1 lt in
    let large : leb 0x10000 (bit_or off 0x10000) ≡ true = ground arith in
    let low : bit_and (bit_or off 0x10000) 0xffff ≡ off =
      ap (λ (t : ℕ). bit_and t 0xffff) flagged ∙ omega (arith, bit_and-low_mask 16 (off + 65536)) in
    rw (sun8i_emac_eth_send, large, low) refl

queue_more :
    (p q : List ℕ) (off : ℕ) (e : Emac)
    → queued q
        (off + length p)
        (record e { mem = write_mem e.mem ((e.tx_chain e.tx_currdescnum).buf_addr + off) p })
      ≡ queued (p ++ q) off e
queue_more p q off e =
    let a : ℕ = (e.tx_chain e.tx_currdescnum).buf_addr in
    let at : a + (off + length p) ≡ a + off + length p = omega arith in
    let long : off + length p + length q ≡ off + length (p ++ q) =
      omega (arith, length-append p q) in
    rw (at, long, write_mem-append e.mem (a + off) p q) refl

emac_tx_from :
    (p : List ℕ) (ps : List (List ℕ)) (off : ℕ) (e : Emac) (s : Io)
    → off + length (concat (p ∷ ps)) < 65536
    → emac_tx (p ∷ ps) off e s ≡ (queued (concat (p ∷ ps)) off e, kicked s)
unfolding emac_tx
emac_tx_from p [] off e s lt = rw (or-zero off, append-nil p) (send_last p off e s (omega arith))
emac_tx_from p (q ∷ ps) off e s lt =
    let long = length-append p (concat (q ∷ ps)) in
    let e' : Emac = record e {
      mem = write_mem e.mem ((e.tx_chain e.tx_currdescnum).buf_addr + off) p;
    } in
    ap (λ (r : Emac × Io). emac_tx (q ∷ ps) (off + length p) r.0 r.1)
      (send_piece p off e s (omega arith))
    ∙ emac_tx_from q ps (off + length p) e' s (omega (arith, long))
    ∙ ap (λ (x : Emac). (x, kicked s)) (queue_more p (concat (q ∷ ps)) off e)

-- Sending a chain of one or more pbufs of 2048 bytes in all at most puts the bytes of the whole
-- chain, in order, at the start of the current descriptor's buffer, gives that descriptor the length
-- of the whole chain and the ownership bit, and goes to the next descriptor; transmission is started
-- once, by one read and one write of register 0x14, and nothing else changes.
pub emac_tx_lem :
    (p : List ℕ) (ps : List (List ℕ)) (e : Emac) (s : Io)
    → length (concat (p ∷ ps)) ≤ eth_bufsize
    → emac_tx (p ∷ ps) 0 e s ≡ (queued (concat (p ∷ ps)) 0 e, kicked s)
emac_tx_lem p ps e s lt = emac_tx_from p ps 0 e s (omega arith)

-- A chain of one or more pbufs of 2048 bytes in all at most is found, after it is sent, at the start
-- of the current descriptor's buffer, and no byte outside the 2048 of that buffer has changed.
pub emac_tx-read_mem :
    (p : List ℕ) (ps : List (List ℕ)) (e : Emac) (s : Io)
    → length (concat (p ∷ ps)) ≤ eth_bufsize
    → (read_mem
          (emac_tx (p ∷ ps) 0 e s).0.mem
          (e.tx_chain e.tx_currdescnum).buf_addr
          (length (concat (p ∷ ps)))
        ≡ concat (p ∷ ps))
      × ((x : ℕ)
          → (x < (e.tx_chain e.tx_currdescnum).buf_addr)
            ⊎ ((e.tx_chain e.tx_currdescnum).buf_addr + eth_bufsize ≤ x)
          → (emac_tx (p ∷ ps) 0 e s).0.mem x ≡ e.mem x)
emac_tx-read_mem p ps e s le =
    let a : ℕ = (e.tx_chain e.tx_currdescnum).buf_addr in
    rw (emac_tx_lem p ps e s le, add-zero)
      (
        read_mem-write_mem_self e.mem a (concat (p ∷ ps)),
        λ x out. write_mem_ne e.mem a (concat (p ∷ ps)) x (omega arith),
      )
