-- ===== src/Spi/Returns.antt =====
-- When a transfer of uboot/sunxi_spi.c returns: with a device that serves each round in time.
use bsp_v3s.Common.{
  ℕ, zero, suc, ◌+◌, ◌-◌, ◌*◌, ◌%◌, ◌^◌, ◌≤◌, ◌<◌, ◌==◌, ltb, min, if◌then◌else◌, Bool, Bool-cases,
  true, false, bit_and, List, [], ◌∷◌, ◌++◌, length, ◌≡◌, refl, sym, ap, ◌∙◌, arith, inl, inr, ◌⊎◌,
  Option, some, pos,
}
use mathlib.Core.Path.{subst}
use bsp_v3s.Word.{shr, u8}
use bsp_v3s.Word.Field.{bit_and-low_mask}
use bsp_v3s.Machine.Io.{Io, rd, wr}
use bsp_v3s.Spi.{
  Priv, rx_data, tx_data, burst_ctl, xmit_cnt, burst_cnt, write_bytes, rx_wait, read_bytes,
  sunxi_spi_write, xfer_loop, sunxi_spi_xfer, spi_cs_activate,
}
use bsp_v3s.Spi.Log.{tx_of, rx_of, back, polled, wait_done, wait_more}
use bsp_v3s.Spi.Rounds.{burst, round_on, round_end}
use bsp_v3s.Spi.Transfer.{begin, loop, xfer_done, xfer_moves}

-- A stream without its first `n` values.
abbrev pub later : ℕ → (ℕ → ℕ) → ℕ → ℕ
later zero input = input
later (suc n) input = later n (λ k. input (suc k))

-- The bytes in the receive FIFO, by a value of its state register.
abbrev pub rx_count : ℕ → ℕ
rx_count v = v % 128

-- A device that serves the rounds of a transfer of `len` bytes, of 63 bytes each but the last: in each of
-- them, after the read of the control register, it has the bytes of the round in the receive FIFO by
-- one of the first `fuel` looks at it, and then delivers them.
abbrev pub Serves : ℕ → ℕ → ℕ → (ℕ → ℕ) → Type 0
Serves fuel zero len input = Unit {0}
Serves fuel (suc rounds) len input =
    (len ≡ 0)
    ⊎ ((looks : ℕ) × (looks < fuel)
        × ((j : ℕ) → j < looks → rx_count (input (suc j)) < min len 63)
        × (min len 63 ≤ rx_count (input (suc looks)))
        × Serves fuel rounds (len - min len 63) (later (suc (suc looks) + min len 63) input))

-- The values that the driver reads before the rounds: the control register where the transfer selects
-- the device, and before it the time where the last one has to be some time ago.
abbrev pub reads_before : Priv → ℕ → ℕ
reads_before p flags =
    if bit_and flags 1 == 0
    then 0
    else if p.deactivate_delay_us == 0
    then 1
    else if p.last_transaction_us == 0
    then 1
    else 2

later-add : (n m : ℕ) (input : ℕ → ℕ) → later (n + m) input ≡ later m (later n input)
later-add zero m input = ap (λ (k : ℕ). later k input) (zero_add m)
  where
    zero_add : (m : ℕ) → 0 + m ≡ m
    zero_add m = omega arith
later-add (suc n) m input =
    ap (λ (k : ℕ). later k input) (next n m) ∙ later-add n m (λ k. input (suc k))
  where
    next : (n m : ℕ) → suc n + m ≡ suc (n + m)
    next n m = omega arith

count-rx_count : (v n : ℕ) → ltb (shr (bit_and v 0x7f) 0) n ≡ ltb (rx_count v) n
count-rx_count v n = rw (bit_and-low_mask 7 v) (ground arith)

module _ (fuel : ℕ) where
  -- The wait ends with the first look that shows `n` bytes.
  wait_ends :
      (t n looks : ℕ) (s : Io)
      → looks < t
      → ((j : ℕ) → j < looks → rx_count (s.input j) < n)
      → n ≤ rx_count (s.input looks)
      → ((rx_wait t n s).0 ≡ true) × ((rx_wait t n s).1.input ≡ later (suc looks) s.input)
  wait_ends zero n looks s lt less h = absurd (omega arith)
  wait_ends (suc t) n zero s lt less h =
      let e = count-rx_count (s.input 0) n ∙ (ground (arith, h)) in
      (
        ap (λ (r : Bool × Io). r.0) (wait_done t n s e),
        ap (λ (r : Bool × Io). r.1.input) (wait_done t n s e),
      )
  wait_ends (suc t) n (suc looks) s lt less h =
      let short : rx_count (s.input 0) < n = less 0 (omega arith) in
      let e : ltb (shr (bit_and (s.input 0) 0x7f) 0) n ≡ true =
        count-rx_count (s.input 0) n ∙ (ground (arith, short)) in
      let (ok, after) =
        wait_ends t n looks (polled s) (omega arith) (λ j l. less (suc j) (omega arith)) h in
      (
        ap (λ (r : Bool × Io). r.0) (wait_more t n s e) ∙ ok,
        ap (λ (r : Bool × Io). r.1.input) (wait_more t n s e) ∙ after,
      )

  write_bytes-input : (buf : ℕ → ℕ) (n i : ℕ) (s : Io) → (write_bytes buf n i s).1.input ≡ s.input
  unfolding write_bytes
  write_bytes-input buf zero i s = refl
  write_bytes-input buf (suc n) i s =
      write_bytes-input buf n (i + 1) (record s { log = wr tx_data (u8 (buf i)) ∷ s.log })

  burst-input :
      (n : ℕ) (buf : ℕ → ℕ) (i : ℕ) (s : Io) → (burst n buf i s).1.input ≡ (λ k. s.input (suc k))
  unfolding burst sunxi_spi_write
  burst-input n buf i s =
      let s' : Io = record s {
        log =
            wr burst_ctl (bit_and n 0xffffff)
            ∷ wr xmit_cnt (bit_and n 0xffffff)
            ∷ wr burst_cnt (bit_and n 0xffffff)
            ∷ s.log;
      } in
      ap (later 1) (write_bytes-input buf n i s')

  read_bytes-input :
      (n : ℕ) (got : List ℕ) (s : Io) → (read_bytes n got s).1.input ≡ later n s.input
  unfolding read_bytes
  read_bytes-input zero got s = refl
  read_bytes-input (suc n) got s =
      read_bytes-input n (u8 (s.input 0) ∷ got)
        (record { input = λ k. s.input (suc k); log = rd rx_data (s.input 0) ∷ s.log })

  -- With such a device the rounds end.
  loop_ends :
      (buf : ℕ → ℕ) (rounds len i : ℕ) (got : List ℕ) (s : Io)
      → Serves fuel rounds len s.input
      → (bs : List ℕ) × ((xfer_loop fuel (some buf) rounds len i got s).0 ≡ some bs)
  unfolding xfer_loop
  loop_ends buf zero len i got s served = (got, refl)
  loop_ends buf (suc rounds) len i got s (inl z) =
      let e : (len == 0) ≡ true = ground arith in
      (got, ap (λ (r : Option (List ℕ) × Io). r.0) (round_end fuel buf rounds len i got s e))
  loop_ends buf (suc rounds) len i got s (inr (looks, lt, less, enough, rest)) =
      elim (Bool-cases (len == 0)) [
        | inl e ↦
            (got, ap (λ (r : Option (List ℕ) × Io). r.0) (round_end fuel buf rounds len i got s e))
        | inr e ↦
            let (bs, ends) =
              loop_ends buf rounds (len - n) (i + n) (read_bytes n got waited).0
                (read_bytes n got waited).1
                (subst (Serves fuel rounds (len - n)) (sym left) rest) in
            (
              bs,
              ap (λ (r : Option (List ℕ) × Io). r.0) (round_on fuel buf rounds len i got s e wait.0)
                  ∙ ends,
            )
      ]
    where
      n : ℕ
      n = min len 63

      started : (burst n buf i s).1.input ≡ (λ k. s.input (suc k))
      started = burst-input n buf i s

      wait :
          ((rx_wait fuel n (burst n buf i s).1).0 ≡ true)
          × ((rx_wait fuel n (burst n buf i s).1).1.input
              ≡ later (suc looks) (burst n buf i s).1.input)
      wait =
          wait_ends fuel n looks (burst n buf i s).1 lt
            (λ j l. subst (λ (f : ℕ → ℕ). rx_count (f j) < n) (sym started) (less j l))
            (subst (λ (f : ℕ → ℕ). n ≤ rx_count (f looks)) (sym started) enough)

      waited : Io
      waited = (rx_wait fuel n (burst n buf i s).1).1

      left : (read_bytes n got waited).1.input ≡ later (suc (suc looks) + n) s.input
      left =
          read_bytes-input n got waited
          ∙ ap (later n) (wait.1 ∙ ap (later (suc looks)) started)
          ∙ sym (later-add (suc (suc looks)) n s.input)

  activate_input :
      (tick : ℕ) (p : Priv) (cs : ℕ) (s : Io)
      → (spi_cs_activate tick p cs s).1.input
        ≡ later
            (if p.deactivate_delay_us == 0 then 1 else if p.last_transaction_us == 0 then 1 else 2)
            s.input
  unfolding spi_cs_activate
  activate_input tick p cs s = ground arith

  module _ (tick : ℕ) (apart : (tick == rx_data) ≡ false) (cs flags : ℕ) where
    begin_input :
        (p : Priv) (s : Io)
        → (begin fuel tick apart cs flags p s).1.input ≡ later (reads_before p flags) s.input
    unfolding begin
    begin_input p s = ground (arith, activate_input tick p cs s)

    -- With a device that, after the reads of the selection, serves each round in time, a transfer of `n`
    -- bytes from a buffer, whose bits a word can count, returns 0: the bytes of the buffer, each once and in order, have passed
    -- the transmit FIFO, and the `n` bytes that are returned are those that were read from the
    -- receive FIFO, in order. To serve a round is to show its bytes, which are 63 or those that are
    -- left, in the receive FIFO by one of the first `fuel` looks at it.
    pub xfer_whole :
        (buf : ℕ → ℕ) (p : Priv) (n : ℕ) (s : Io)
        → n * 8 < 2 ^ 32
        → Serves fuel n n (later (reads_before p flags) s.input)
        → (bs : List ℕ) × (p' : Priv) × (length bs ≡ n)
          × ((sunxi_spi_xfer fuel tick p (n * 8) cs (some buf) flags s).0 ≡ some (pos 0, p', bs))
          × (rx_of (sunxi_spi_xfer fuel tick p (n * 8) cs (some buf) flags s).1.log
              ≡ bs ++ rx_of s.log)
          × (tx_of (sunxi_spi_xfer fuel tick p (n * 8) cs (some buf) flags s).1.log
              ≡ back buf 0 n (tx_of s.log))
    unfolding loop
    xfer_whole buf p n s bits f = elim (xfer_moves fuel tick apart cs flags buf p n s) [
      | inr whole ↦ whole
      | inl (k, le, stuck, t) ↦
          let served = subst (Serves fuel n n) (sym (begin_input p s)) f in
          let (got, ends) = loop_ends buf n n 0 [] (begin fuel tick apart cs flags p s).1 served in
          absurd (ground (arith, stuck, xfer_done fuel tick apart cs flags buf p n s got ends))
    ]
