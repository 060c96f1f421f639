-- ===== src/Rtc/Wait.antt =====
-- How sun6i_rtc_wait ends, for every sequence of values that the clock and the tick deliver.
use bsp_v3s.Common.{
  ℕ, zero, suc, ◌*◌, ◌<◌, ◌==◌, ltb, bit_and, ◌≡◌, ◌≢◌, refl, arith, true, false, none, some, inl,
  inr, Bool-cases, pos,
}
use bsp_v3s.Word.{sub32}
use bsp_v3s.Machine.Io.{Io, readl}
use bsp_v3s.Rtc.{etimedout, wait_loop, sun6i_rtc_wait}
use bsp_v3s.Rtc.Set.{loop_ready, loop_again, loop_late, polled}

-- What the clock's register and then the tick deliver to poll `j`.
abbrev pub Ready : (ℕ → ℕ) → ℕ → ℕ → Type 0
Ready input mask j = (bit_and (input (j * 2)) mask == 0) ≡ true

abbrev pub Busy : (ℕ → ℕ) → ℕ → ℕ → Type 0
Busy input mask j = (bit_and (input (j * 2)) mask == 0) ≡ false

abbrev pub InTime : (ℕ → ℕ) → ℕ → ℕ → ℕ → Type 0
InTime input start ms j = ltb (sub32 (input (suc (j * 2))) start) ms ≡ true

abbrev pub Late : (ℕ → ℕ) → ℕ → ℕ → ℕ → Type 0
Late input start ms j = ltb (sub32 (input (suc (j * 2))) start) ms ≡ false

abbrev pub Polled : (ℕ → ℕ) → ℕ → ℕ → ℕ → ℕ → Type 0
Polled input start mask ms k = (j : ℕ) → j < k → Busy input mask j × InTime input start ms j

two_more : (j : ℕ) → suc j * 2 ≡ suc (suc (j * 2))
two_more j = omega arith

module _ (tick start offset mask ms : ℕ) where
  abbrev next : Io → Io
  next s = polled tick start offset mask ms s

  Polled-rest :
      (s : Io) (k : ℕ)
      → Polled s.input start mask ms (suc k)
      → Polled (next s).input start mask ms k
  Polled-rest s k before j lt =
      let (b, t) = before (suc j) (omega arith) in (rw (two_more j) at b, rw (two_more j) at t)

  loop-Ready :
      (fuel k : ℕ) (s : Io)
      → k < fuel
      → Polled s.input start mask ms k
      → Ready s.input mask k
      → (wait_loop tick fuel start offset mask ms s).0 ≡ some (pos 0)
  loop-Ready zero k s h before e = absurd (omega arith)
  loop-Ready (suc fuel) zero s h before e = rw (loop_ready tick start offset mask ms fuel s e) refl
  loop-Ready (suc fuel) (suc k) s h before e =
      let (b, t) = before 0 (omega arith) in
      rw (loop_again tick start offset mask ms fuel s b t)
        (loop-Ready fuel k (next s) (omega arith) (Polled-rest s k before) (rw (two_more k) at e))

  loop-Late :
      (fuel k : ℕ) (s : Io)
      → k < fuel
      → Polled s.input start mask ms k
      → Busy s.input mask k
      → Late s.input start ms k
      → (wait_loop tick fuel start offset mask ms s).0 ≡ some etimedout
  loop-Late zero k s h before e f = absurd (omega arith)
  loop-Late (suc fuel) zero s h before e f =
      rw (loop_late tick start offset mask ms fuel s e f) refl
  loop-Late (suc fuel) (suc k) s h before e f =
      let (b, t) = before 0 (omega arith) in
      rw (loop_again tick start offset mask ms fuel s b t) (
        loop-Late fuel k (next s) (omega arith) (Polled-rest s k before) (rw (two_more k) at e)
          (rw (two_more k) at f))

  loop_ends :
      (fuel k : ℕ) (s : Io)
      → k < fuel
      → Late s.input start ms k
      → (wait_loop tick fuel start offset mask ms s).0 ≢ none
  loop_ends zero k s h e = absurd (omega arith)
  loop_ends (suc fuel) zero s h e = elim (Bool-cases (bit_and (s.input 0) mask == 0)) [
    | inl r ↦ rw (loop_ready tick start offset mask ms fuel s r) (λ z. cc)
    | inr b ↦ rw (loop_late tick start offset mask ms fuel s b e) (λ z. cc)
  ]
  loop_ends (suc fuel) (suc k) s h e = elim (Bool-cases (bit_and (s.input 0) mask == 0)) [
    | inl r ↦ rw (loop_ready tick start offset mask ms fuel s r) (λ z. cc)
    | inr b ↦ elim (Bool-cases (ltb (sub32 (s.input 1) start) ms)) [
      | inr f ↦ rw (loop_late tick start offset mask ms fuel s b f) (λ z. cc)
      | inl t ↦
          rw (loop_again tick start offset mask ms fuel s b t)
            (loop_ends fuel k (next s) (omega arith) (rw (two_more k) at e))
    ]
  ]

-- The wait for the clock ends: by the first poll after which the given time has passed since the
-- start, if not before. When every poll before poll `k` found the clock busy and time left, it
-- returns 0 if the clock is ready at poll `k`, and -ETIMEDOUT if it is busy there and the time over.
pub sun6i_rtc_wait_lem :
    (tick fuel offset mask ms k : ℕ) (s : Io)
    → k < fuel
    → (Late (λ n. s.input (suc n)) (s.input 0) ms k
        → (sun6i_rtc_wait tick fuel offset mask ms s).0 ≢ none)
      × (Polled (λ n. s.input (suc n)) (s.input 0) mask ms k
          → (Ready (λ n. s.input (suc n)) mask k
              → (sun6i_rtc_wait tick fuel offset mask ms s).0 ≡ some (pos 0))
            × (Busy (λ n. s.input (suc n)) mask k
                → Late (λ n. s.input (suc n)) (s.input 0) ms k
                → (sun6i_rtc_wait tick fuel offset mask ms s).0 ≡ some etimedout))
unfolding sun6i_rtc_wait
sun6i_rtc_wait_lem tick fuel offset mask ms k s h =
    let s' : Io = (readl tick s).1 in
    (
      loop_ends tick (s.input 0) offset mask ms fuel k s' h,
      λ before. (
        loop-Ready tick (s.input 0) offset mask ms fuel k s' h before,
        loop-Late tick (s.input 0) offset mask ms fuel k s' h before,
      ),
    )
