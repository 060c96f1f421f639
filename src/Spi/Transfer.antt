-- ===== src/Spi/Transfer.antt =====
-- What a transfer of uboot/sunxi_spi.c sends and receives.
use bsp_v3s.Common.{
  ℕ, ◌*◌, ◌/◌, ◌%◌, ◌≤◌, ◌==◌, true, false, bit_and, List, [], ◌++◌, length, ◌≡◌, refl, ap, ◌∙◌,
  arith, inl, inr, ◌⊎◌, Option, none, some, ℤ, pos,
}
use mathlib.Core.List.{append-nil}
use bsp_v3s.Machine.Io.{Io, M, pure, ◌>>=◌}
use bsp_v3s.Spi.{Priv, rx_data, xfer_loop, sunxi_spi_xfer, spi_cs_activate, spi_cs_deactivate}
use bsp_v3s.Spi.Log.{tx_of, rx_of, back}
use bsp_v3s.Spi.Rounds.{xfer_loop-Moved}

module _ (fuel tick : ℕ) (apart : (tick == rx_data) ≡ false) (cs flags : ℕ) where
  -- The device's select line, at the two ends of a transfer.
  unfoldable pub begin : Priv → M (Unit {0})
  begin p = elim (bit_and flags 1 == 0) [ true ↦ pure tt | false ↦ spi_cs_activate tick p cs ]

  unfoldable pub end : Priv → M Priv
  end p = elim (bit_and flags 2 == 0) [ true ↦ pure p | false ↦ spi_cs_deactivate tick p ]

  -- They move no byte.
  begin_log :
      (p : Priv) (s : Io)
      → (tx_of (begin p s).1.log ≡ tx_of s.log) × (rx_of (begin p s).1.log ≡ rx_of s.log)
  unfolding begin spi_cs_activate
  begin_log p s = (ground (arith, apart), ground (arith, apart))

  end_log :
      (p : Priv) (s : Io)
      → (tx_of (end p s).1.log ≡ tx_of s.log) × (rx_of (end p s).1.log ≡ rx_of s.log)
  unfolding end spi_cs_deactivate
  end_log p s = (ground (arith, apart), ground (arith, apart))

  module _ (buf : ℕ → ℕ) (p : Priv) (n : ℕ) (s : Io) where
    unfoldable pub loop : Option (List ℕ) × Io
    loop = xfer_loop fuel (some buf) n n 0 [] (begin p s).1

    -- From the end of the rounds on.
    finish : Option (List ℕ) → M (Option (ℤ × Priv × List ℕ))
    finish none = pure none
    finish (some got) = do p' ← end p; pure (some (pos 0, p', got))

    xfer_stuck :
        loop.0 ≡ none → sunxi_spi_xfer fuel tick p (n * 8) cs (some buf) flags s ≡ (none, loop.1)
    unfolding sunxi_spi_xfer begin end loop finish
    xfer_stuck e =
        let whole : (n * 8 % 8 == 0) ≡ true = ground arith in
        let count : n * 8 / 8 ≡ n = omega arith in
        rw (sunxi_spi_xfer, whole, count) (ap (λ (o : Option (List ℕ)). finish o loop.1) e)

    pub xfer_done :
        (got : List ℕ)
        → loop.0 ≡ some got
        → sunxi_spi_xfer fuel tick p (n * 8) cs (some buf) flags s
          ≡ (some (pos 0, (end p loop.1).0, got), (end p loop.1).1)
    unfolding sunxi_spi_xfer begin end loop finish
    xfer_done got e =
        let whole : (n * 8 % 8 == 0) ≡ true = ground arith in
        let count : n * 8 / 8 ≡ n = omega arith in
        rw (sunxi_spi_xfer, whole, count) (ap (λ (o : Option (List ℕ)). finish o loop.1) e)

    -- A transfer of `n` bytes from a buffer, whatever the device answers. If it returns, it returns 0; the
    -- bytes of the buffer, each once and in order, have passed the transmit FIFO, and as many
    -- bytes were read from the receive FIFO, which are those that it delivers, in order. If a wait
    -- goes on, a first part of the buffer has passed.
    pub xfer_moves :
        ((k : ℕ) × (k ≤ n)
          × ((sunxi_spi_xfer fuel tick p (n * 8) cs (some buf) flags s).0 ≡ none)
          × (tx_of (sunxi_spi_xfer fuel tick p (n * 8) cs (some buf) flags s).1.log
              ≡ back buf 0 k (tx_of s.log)))
        ⊎ ((bs : List ℕ) × (p' : Priv) × (length bs ≡ n)
            × ((sunxi_spi_xfer fuel tick p (n * 8) cs (some buf) flags s).0 ≡ some (pos 0, p', bs))
            × (rx_of (sunxi_spi_xfer fuel tick p (n * 8) cs (some buf) flags s).1.log
                ≡ bs ++ rx_of s.log)
            × (tx_of (sunxi_spi_xfer fuel tick p (n * 8) cs (some buf) flags s).1.log
                ≡ back buf 0 n (tx_of s.log)))
    unfolding loop
    xfer_moves = elim (xfer_loop-Moved fuel buf n n 0 [] (begin p s).1 (omega arith)) [
      | inl (stuck, k, le, t) ↦
          let whole = xfer_stuck stuck in
          inl (
            k,
            le,
            ap (λ (r : Option (ℤ × Priv × List ℕ) × Io). r.0) whole,
            ap (λ (r : Option (ℤ × Priv × List ℕ) × Io). tx_of r.1.log) whole
                ∙ t
                ∙ ap (back buf 0 k) (begin_log p s).0,
          )
      | inr (bs, len, e, r, t) ↦
          let whole = xfer_done bs (e ∙ rw append-nil refl) in
          inr (
            bs,
            (end p loop.1).0,
            len,
            ap (λ (r : Option (ℤ × Priv × List ℕ) × Io). r.0) whole,
            ap (λ (r : Option (ℤ × Priv × List ℕ) × Io). rx_of r.1.log) whole
                ∙ (end_log p loop.1).1
                ∙ r
                ∙ ap (λ (z : List ℕ). bs ++ z) (begin_log p s).1,
            ap (λ (r : Option (ℤ × Priv × List ℕ) × Io). tx_of r.1.log) whole
                ∙ (end_log p loop.1).0
                ∙ t
                ∙ ap (back buf 0 n) (begin_log p s).0,
          )
    ]
