-- ===== src/Spi/Rounds.antt =====
-- The rounds of a transfer of uboot/sunxi_spi.c.
use bsp_v3s.Common.{
  ℕ, zero, suc, ◌+◌, ◌-◌, ◌≤◌, ◌==◌, min, Bool-cases, true, false, bit_and, List, [], ◌∷◌, ◌++◌,
  length, length-append, ◌≡◌, refl, sym, ap, ◌∙◌, arith, inl, inr, ◌⊎◌, Option, none, some,
}
use mathlib.Core.List.{append_assoc}
use mathlib.Core.Path.{subst}
use bsp_v3s.Machine.Io.{Io, M, wr, writel, ◌>>◌}
use bsp_v3s.Spi.{
  xfer_ctl, burst_cnt, xmit_cnt, burst_ctl, setbits, rx_wait, read_bytes, sunxi_spi_write,
  xfer_loop,
}
use bsp_v3s.Spi.Log.{tx_of, rx_of, back, back-append, write_bytes_log, rx_wait_log, read_bytes_log}

-- The state of a round when the wait for the FIFO begins.
unfoldable pub burst : ℕ → (ℕ → ℕ) → ℕ → M (Unit {0})
unfolding sunxi_spi_write
burst n buf i = do
  writel (bit_and n 0xffffff) burst_cnt
  sunxi_spi_write (some buf) i n
  setbits xfer_ctl 2147483648

burst_log :
    (n : ℕ) (buf : ℕ → ℕ) (i : ℕ) (s : Io)
    → (tx_of (burst n buf i s).1.log ≡ back buf i n (tx_of s.log))
      × (rx_of (burst n buf i s).1.log ≡ rx_of s.log)
unfolding burst sunxi_spi_write
burst_log n buf i s = write_bytes_log buf n i (record s {
  log =
      wr burst_ctl (bit_and n 0xffffff)
      ∷ wr xmit_cnt (bit_and n 0xffffff)
      ∷ wr burst_cnt (bit_and n 0xffffff)
      ∷ s.log;
})

module _ (fuel : ℕ) (buf : ℕ → ℕ) where
  round_stuck :
      (rounds len i : ℕ) (got : List ℕ) (s : Io)
      → (len == 0) ≡ false
      → (rx_wait fuel (min len 63) (burst (min len 63) buf i s).1).0 ≡ false
      → xfer_loop fuel (some buf) (suc rounds) len i got s
        ≡ (none, (rx_wait fuel (min len 63) (burst (min len 63) buf i s).1).1)
  unfolding xfer_loop burst sunxi_spi_write
  round_stuck rounds len i got s e w = ground (arith, e, w)

  pub round_on :
      (rounds len i : ℕ) (got : List ℕ) (s : Io)
      → (len == 0) ≡ false
      → (rx_wait fuel (min len 63) (burst (min len 63) buf i s).1).0 ≡ true
      → let n = min len 63 in
        let r = read_bytes n got (rx_wait fuel n (burst n buf i s).1).1 in
        xfer_loop fuel (some buf) (suc rounds) len i got s
        ≡ xfer_loop fuel (some buf) rounds (len - n) (i + n) r.0 r.1
  unfolding xfer_loop burst sunxi_spi_write
  round_on rounds len i got s e w = ground (arith, e, w)

  pub round_end :
      (rounds len i : ℕ) (got : List ℕ) (s : Io)
      → (len == 0) ≡ true
      → xfer_loop fuel (some buf) (suc rounds) len i got s ≡ (some got, s)
  unfolding xfer_loop
  round_end rounds len i got s e = ground (arith, e)

  -- What has passed the FIFOs: the bytes from `i` on, all `len` of them with as many received, or those
  -- up to a wait that goes on.
  abbrev pub Moved : ℕ → ℕ → List ℕ → Io → Option (List ℕ) × Io → Type 0
  Moved len i got s r =
      ((r.0 ≡ none) × (k : ℕ) × (k ≤ len) × (tx_of r.1.log ≡ back buf i k (tx_of s.log)))
      ⊎ ((bs : List ℕ) × (length bs ≡ len)
          × (r.0 ≡ some (bs ++ got))
          × (rx_of r.1.log ≡ bs ++ rx_of s.log)
          × (tx_of r.1.log ≡ back buf i len (tx_of s.log)))

  -- A round, and what comes after it.
  Moved-then :
      (len n i : ℕ) (bs got got' : List ℕ) (s s' : Io) (r : Option (List ℕ) × Io)
      → n ≤ len
      → length bs ≡ n
      → got' ≡ bs ++ got
      → rx_of s'.log ≡ bs ++ rx_of s.log
      → tx_of s'.log ≡ back buf i n (tx_of s.log)
      → Moved (len - n) (i + n) got' s' r
      → Moved len i got s r
  Moved-then len n i bs got got' s s' r le m g rx tx (inl (stuck, k, lk, t)) = inl (
    stuck,
    n + k,
    omega arith,
    t ∙ ap (back buf (i + n) k) tx ∙ back-append buf i n k (tx_of s.log),
  )
  Moved-then len n i bs got got' s s' r le m g rx tx (inr (bs', l, e, x, t)) = inr (
    bs' ++ bs,
    omega (arith, l, m, length-append bs' bs),
    e ∙ ap (λ (z : List ℕ). some (bs' ++ z)) g ∙ ap some (sym (append_assoc bs' bs got)),
    x ∙ ap (λ (z : List ℕ). bs' ++ z) rx ∙ sym (append_assoc bs' bs (rx_of s.log)),
    t
        ∙ ap (back buf (i + n) (len - n)) tx
        ∙ back-append buf i n (len - n) (tx_of s.log)
        ∙ ap (λ (k : ℕ). back buf i k (tx_of s.log)) whole,
  )
    where
      whole : n + (len - n) ≡ len
      whole = omega arith

  pub xfer_loop-Moved :
      (rounds len i : ℕ) (got : List ℕ) (s : Io)
      → len ≤ rounds
      → Moved len i got s (xfer_loop fuel (some buf) rounds len i got s)
  unfolding xfer_loop
  xfer_loop-Moved zero len i got s le =
      let none_left : 0 ≡ len = omega arith in
      subst (λ n. Moved n i got s (some got, s)) none_left (inr ([], refl, refl, refl, refl))
  xfer_loop-Moved (suc rounds) len i got s le = elim (Bool-cases (len == 0)) [
    | inl e ↦
        let none_left : 0 ≡ len = ground (arith, e) in
        subst (λ r. Moved len i got s r) (sym (round_end rounds len i got s e))
          (subst (λ n. Moved n i got s (some got, s)) none_left (inr ([], refl, refl, refl, refl)))
    | inr e ↦ by_wait e (Bool-cases (rx_wait fuel n (burst n buf i s).1).0) (xfer_loop-Moved rounds)
  ]
    where
      n : ℕ
      n = min len 63

      waited : Io
      waited = (rx_wait fuel n (burst n buf i s).1).1

      sent_so_far : tx_of waited.log ≡ back buf i n (tx_of s.log)
      sent_so_far = (rx_wait_log fuel n (burst n buf i s).1).0 ∙ (burst_log n buf i s).0

      got_so_far : rx_of waited.log ≡ rx_of s.log
      got_so_far = (rx_wait_log fuel n (burst n buf i s).1).1 ∙ (burst_log n buf i s).1

      later_rounds : Option (List ℕ) × Io
      later_rounds =
          xfer_loop fuel (some buf) rounds (len - n) (i + n) (read_bytes n got waited).0
            (read_bytes n got waited).1

      shorter : (len == 0) ≡ false → len - n ≤ rounds
      shorter e = ground (arith, e)

      by_wait :
          (len == 0) ≡ false
          → ((rx_wait fuel n (burst n buf i s).1).0 ≡ true)
            ⊎ ((rx_wait fuel n (burst n buf i s).1).0 ≡ false)
          → ((len' i' : ℕ) (got' : List ℕ) (s' : Io)
              → len' ≤ rounds
              → Moved len' i' got' s' (xfer_loop fuel (some buf) rounds len' i' got' s'))
          → Moved len i got s (xfer_loop fuel (some buf) (suc rounds) len i got s)
      by_wait e (inr w) rest =
          subst (λ r. Moved len i got s r) (sym (round_stuck rounds len i got s e w))
            (inl (refl, n, omega arith, sent_so_far))
      by_wait e (inl w) rest =
          let (bs, m, b, r, t) = read_bytes_log n got waited in
          subst (λ r. Moved len i got s r) (sym (round_on rounds len i got s e w))
            (Moved-then len n i bs got (read_bytes n got waited).0 s (read_bytes n got waited).1
              later_rounds (omega arith) m b (r ∙ ap (λ (z : List ℕ). bs ++ z) got_so_far)
              (t ∙ sent_so_far)
              (rest (len - n) (i + n) (read_bytes n got waited).0 (read_bytes n got waited).1
                (shorter e)))
