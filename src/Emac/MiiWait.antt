-- ===== src/Emac/MiiWait.antt =====
-- The wait for the MDIO bus in uboot/sun8i_emac.c, and how it ends.
use bsp_v3s.Common.{
  ℕ, zero, suc, ◌*◌, ◌<◌, ◌==◌, ltb, bit_and, ◌≡◌, ◌≢◌, refl, arith, true, false, none, some, inl,
  inr, Bool-cases,
}
use bsp_v3s.Word.{sub32}
use bsp_v3s.Machine.Io.{Io, readl, udelay}
use bsp_v3s.Emac.Mac.{mii_wait, emac_mii_cmd, mdio_timeout}

-- What the tick and the command register deliver to poll `j` of a wait that started at `start`.
abbrev pub InTime : (ℕ → ℕ) → ℕ → ℕ → Type 0
InTime input start j = ltb (sub32 (input (j * 2)) start) mdio_timeout ≡ true

abbrev pub Late : (ℕ → ℕ) → ℕ → ℕ → Type 0
Late input start j = ltb (sub32 (input (j * 2)) start) mdio_timeout ≡ false

abbrev pub Idle : (ℕ → ℕ) → ℕ → Type 0
Idle input j = (bit_and (input (suc (j * 2))) 1 == 0) ≡ true

abbrev pub Busy : (ℕ → ℕ) → ℕ → Type 0
Busy input j = (bit_and (input (suc (j * 2))) 1 == 0) ≡ false

module _ (tick start : ℕ) where
  -- The state after a poll that found the bus busy.
  abbrev polled : Io → Io
  polled s = (udelay 10 (readl emac_mii_cmd (readl tick s).1).1).1

  over_now :
      (fuel : ℕ) (s : Io)
      → Late s.input start 0
      → mii_wait tick (suc fuel) start s ≡ (some false, (readl tick s).1)
  unfolding mii_wait
  over_now fuel s e = ground arith

  ends_now :
      (fuel : ℕ) (s : Io)
      → InTime s.input start 0
      → Idle s.input 0
      → mii_wait tick (suc fuel) start s ≡ (some true, (readl emac_mii_cmd (readl tick s).1).1)
  unfolding mii_wait
  ends_now fuel s e f = ground arith

  goes_on :
      (fuel : ℕ) (s : Io)
      → InTime s.input start 0
      → Busy s.input 0
      → mii_wait tick (suc fuel) start s ≡ mii_wait tick fuel start (polled s)
  unfolding mii_wait
  goes_on fuel s e f = ground arith

  -- Poll `k` is in time to be asked: every poll before it found time left and the bus busy.
  abbrev pub Asked : (ℕ → ℕ) → ℕ → Type 0
  Asked input k = (j : ℕ) → j < k → InTime input start j × Busy input j

  shift : (j : ℕ) → suc j * 2 ≡ suc (suc (j * 2))
  shift j = omega arith

  Asked-rest : (s : Io) (k : ℕ) → Asked s.input (suc k) → Asked (polled s).input k
  Asked-rest s k asked j lt =
      let (t, b) = asked (suc j) (omega arith) in (rw (shift j) at t, rw (shift j) at b)

  -- The time is over at the first poll that ends the wait.
  pub wait-Late :
      (fuel k : ℕ) (s : Io)
      → k < fuel
      → Asked s.input k
      → Late s.input start k
      → (mii_wait tick fuel start s).0 ≡ some false
  wait-Late zero k s h asked e = absurd (omega arith)
  wait-Late (suc fuel) zero s h asked e = rw (over_now fuel s e) refl
  wait-Late (suc fuel) (suc k) s h asked e =
      let (t, b) = asked 0 (omega arith) in
      rw (goes_on fuel s t b)
        (wait-Late fuel k (polled s) (omega arith) (Asked-rest s k asked) (rw (shift k) at e))

  -- The bus is idle at it: the next read is that of the data.
  pub wait-Idle :
      (fuel k : ℕ) (s : Io)
      → k < fuel
      → Asked s.input k
      → InTime s.input start k
      → Idle s.input k
      → ((mii_wait tick fuel start s).0 ≡ some true)
        × ((mii_wait tick fuel start s).1.input 0 ≡ s.input (suc k * 2))
  wait-Idle zero k s h asked e f = absurd (omega arith)
  wait-Idle (suc fuel) zero s h asked e f = rw (ends_now fuel s e f) (refl, refl)
  wait-Idle (suc fuel) (suc k) s h asked e f =
      let (t, b) = asked 0 (omega arith) in
      rw (goes_on fuel s t b, shift (suc k))
        (wait-Idle fuel k (polled s) (omega arith) (Asked-rest s k asked) (rw (shift k) at e)
          (rw (shift k) at f))

  -- A wait ends by the first poll that finds the time over, if not before.
  pub wait_ends :
      (fuel k : ℕ) (s : Io)
      → k < fuel
      → Late s.input start k
      → (mii_wait tick fuel start s).0 ≢ none
  wait_ends zero k s h e = absurd (omega arith)
  wait_ends (suc fuel) zero s h e = rw (over_now fuel s e) (λ z. cc)
  wait_ends (suc fuel) (suc k) s h e =
      elim (Bool-cases (ltb (sub32 (s.input 0) start) mdio_timeout)) [
        | inr over ↦ rw (over_now fuel s over) (λ z. cc)
        | inl t ↦ elim (Bool-cases (bit_and (s.input 1) 1 == 0)) [
          | inl f ↦ rw (ends_now fuel s t f) (λ z. cc)
          | inr b ↦
              rw (goes_on fuel s t b)
                (wait_ends fuel k (polled s) (omega arith) (rw (shift k) at e))
        ]
      ]
