-- ===== src/Spi/Log.antt =====
-- The bytes that pass the two FIFOs of the SPI controller, by the log of the accesses.
use bsp_v3s.Common.{
  ℕ, zero, suc, ◌+◌, ◌==◌, ltb, Bool, Bool-cases, true, false, if◌then◌else◌, bit_and, List, [],
  ◌∷◌, ◌++◌, length, length-append, ◌≡◌, refl, sym, ap, ◌∙◌, arith, inl, inr,
}
use mathlib.Core.List.{append_assoc}
use bsp_v3s.Word.{u8, shr}
use bsp_v3s.Machine.Io.{Io, Access, rd, wr, delay}
use bsp_v3s.Spi.{tx_data, rx_data, fifo_sta, write_bytes, rx_wait, read_bytes}

-- The bytes written to the transmit FIFO, and those read from the receive FIFO, newest first.
abbrev pub tx_of : List Access → List ℕ
tx_of [] = []
tx_of (wr a v ∷ log) = let rest = tx_of log in if a == tx_data then v ∷ rest else rest
tx_of (rd a v ∷ log) = tx_of log
tx_of (delay n ∷ log) = tx_of log

abbrev pub rx_of : List Access → List ℕ
rx_of [] = []
rx_of (rd a v ∷ log) = let rest = rx_of log in if a == rx_data then u8 v ∷ rest else rest
rx_of (wr a v ∷ log) = rx_of log
rx_of (delay n ∷ log) = rx_of log

-- The bytes `i` to `i + n - 1` of a buffer in front of others, the last first.
abbrev pub back : (ℕ → ℕ) → ℕ → ℕ → List ℕ → List ℕ
back buf i zero acc = acc
back buf i (suc n) acc = back buf (i + 1) n (u8 (buf i) ∷ acc)

pub back-append :
    (buf : ℕ → ℕ) (i n m : ℕ) (acc : List ℕ)
    → back buf (i + n) m (back buf i n acc) ≡ back buf i (n + m) acc
back-append buf i zero m acc =
    ap (λ (k : ℕ). back buf k m acc) (omega arith) ∙ ap (λ (k : ℕ). back buf i k acc) (zero_add m)
  where
    zero_add : (m : ℕ) → m ≡ 0 + m
    zero_add m = omega arith
back-append buf i (suc n) m acc =
    ap (λ (k : ℕ). back buf k m (back buf (i + 1) n (u8 (buf i) ∷ acc))) (next i n)
    ∙ back-append buf (i + 1) n m (u8 (buf i) ∷ acc)
    ∙ ap (λ (k : ℕ). back buf i k acc) (suc_add n m)
  where
    next : (i n : ℕ) → i + suc n ≡ i + 1 + n
    next i n = omega arith

    suc_add : (n m : ℕ) → suc (n + m) ≡ suc n + m
    suc_add n m = omega arith

pub write_bytes_log :
    (buf : ℕ → ℕ) (n i : ℕ) (s : Io)
    → (tx_of (write_bytes buf n i s).1.log ≡ back buf i n (tx_of s.log))
      × (rx_of (write_bytes buf n i s).1.log ≡ rx_of s.log)
unfolding write_bytes
write_bytes_log buf zero i s = (refl, refl)
write_bytes_log buf (suc n) i s =
    write_bytes_log buf n (i + 1) (record s { log = wr tx_data (u8 (buf i)) ∷ s.log })

-- The state after a look at the FIFO.
abbrev pub polled : Io → Io
polled s = record { input = λ k. s.input (suc k); log = rd fifo_sta (s.input 0) ∷ s.log }

pub wait_done :
    (fuel n : ℕ) (s : Io)
    → ltb (shr (bit_and (s.input 0) 0x7f) 0) n ≡ false
    → rx_wait (suc fuel) n s ≡ (true, polled s)
unfolding rx_wait
wait_done fuel n s e = ground (arith, e)

pub wait_more :
    (fuel n : ℕ) (s : Io)
    → ltb (shr (bit_and (s.input 0) 0x7f) 0) n ≡ true
    → rx_wait (suc fuel) n s ≡ rx_wait fuel n (polled s)
unfolding rx_wait
wait_more fuel n s e = ground (arith, e)

-- The wait reads the state of the FIFO only.
pub rx_wait_log :
    (fuel n : ℕ) (s : Io)
    → (tx_of (rx_wait fuel n s).1.log ≡ tx_of s.log)
      × (rx_of (rx_wait fuel n s).1.log ≡ rx_of s.log)
unfolding rx_wait
rx_wait_log zero n s = (refl, refl)
rx_wait_log (suc fuel) n s = elim (Bool-cases (ltb (shr (bit_and (s.input 0) 0x7f) 0) n)) [
  | inr e ↦ (
    ap (λ (r : Bool × Io). tx_of r.1.log) (wait_done fuel n s e),
    ap (λ (r : Bool × Io). rx_of r.1.log) (wait_done fuel n s e),
  )
  | inl e ↦
      let (t, r) = rx_wait_log fuel n (polled s) in
      (
        ap (λ (r : Bool × Io). tx_of r.1.log) (wait_more fuel n s e) ∙ t,
        ap (λ (r : Bool × Io). rx_of r.1.log) (wait_more fuel n s e) ∙ r,
      )
]

-- What is read is what is returned.
pub read_bytes_log :
    (n : ℕ) (got : List ℕ) (s : Io)
    → (bs : List ℕ) × (length bs ≡ n)
      × ((read_bytes n got s).0 ≡ bs ++ got)
      × (rx_of (read_bytes n got s).1.log ≡ bs ++ rx_of s.log)
      × (tx_of (read_bytes n got s).1.log ≡ tx_of s.log)
unfolding read_bytes
read_bytes_log zero got s = ([], refl, refl, refl, refl)
read_bytes_log (suc n) got s =
    let s' : Io = record { input = λ k. s.input (suc k); log = rd rx_data (s.input 0) ∷ s.log } in
    let (bs, len, e, r, t) = read_bytes_log n (u8 (s.input 0) ∷ got) s' in
    (
      bs ++ u8 (s.input 0) ∷ [],
      omega (arith, len, length-append bs (u8 (s.input 0) ∷ [])),
      e ∙ sym (append_assoc bs (u8 (s.input 0) ∷ []) got),
      r ∙ sym (append_assoc bs (u8 (s.input 0) ∷ []) (rx_of s.log)),
      t,
    )
