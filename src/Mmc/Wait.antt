-- ===== src/Mmc/Wait.antt =====
-- The waits on the controller, for every sequence of values that it delivers.
use bsp_v3s.Common.{
  ℕ, zero, suc, ◌≤◌, ◌<◌, ◌≡◌, ◌↔◌, inl, inr, refl, true, false, arith, Bool-cases, pos,
}
use bsp_v3s.Machine.Io.{readl, udelay, Io}
use bsp_v3s.Mmc.Regs.{any, error_bit, rint, etimedout}
use bsp_v3s.Mmc.{mmc_rint_wait}

-- Poll `k` is the first that shows the awaited bit, and none up to it shows an error.
abbrev pub DoneAt : (ℕ → ℕ) → ℕ → ℕ → Type 0
DoneAt input done_bit k =
    (any (input k) done_bit ≡ true)
    × ((j : ℕ) → j < k → any (input j) done_bit ≡ false)
    × ((j : ℕ) → j ≤ k → any (input j) error_bit ≡ false)

DoneAt-suc :
    (input : ℕ → ℕ) (done_bit k : ℕ)
    → any (input 0) done_bit ≡ false
    → any (input 0) error_bit ≡ false
    → DoneAt (λ n. input (suc n)) done_bit k
    → DoneAt input done_bit (suc k)
DoneAt-suc input done_bit k d e (now, before, clean) = (now, before', clean')
  where
    before' : (j : ℕ) → j < suc k → any (input j) done_bit ≡ false
    before' zero h = d
    before' (suc j) h = before j (omega arith)

    clean' : (j : ℕ) → j ≤ suc k → any (input j) error_bit ≡ false
    clean' zero h = e
    clean' (suc j) h = clean j (omega arith)

DoneAt-zero :
    (input : ℕ → ℕ) (done_bit : ℕ)
    → any (input 0) done_bit ≡ true
    → any (input 0) error_bit ≡ false
    → DoneAt input done_bit 0
DoneAt-zero input done_bit d e =
    (d, λ j h. absurd (omega arith), λ j h. let z : j ≡ 0 = omega arith in rw z e)

rint_wait_err :
    (t done_bit : ℕ) (s : Io)
    → any (s.input 0) error_bit ≡ true
    → (mmc_rint_wait (suc t) done_bit s).0 ≡ etimedout
unfolding mmc_rint_wait
rint_wait_err t done_bit s e = ground arith

rint_wait_done :
    (t done_bit : ℕ) (s : Io)
    → any (s.input 0) error_bit ≡ false
    → any (s.input 0) done_bit ≡ true
    → (mmc_rint_wait (suc t) done_bit s).0 ≡ pos 0
unfolding mmc_rint_wait
rint_wait_done t done_bit s e d = ground arith

-- The state after one more poll.
abbrev polled : Io → Io
polled s = (udelay 1000 (readl rint s).1).1

rint_wait_again :
    (t done_bit : ℕ) (s : Io)
    → any (s.input 0) error_bit ≡ false
    → any (s.input 0) done_bit ≡ false
    → mmc_rint_wait (suc t) done_bit s ≡ mmc_rint_wait t done_bit (polled s)
unfolding mmc_rint_wait
rint_wait_again t done_bit s e d = ground arith

rint_wait_zero : (done_bit : ℕ) (s : Io) → (mmc_rint_wait 0 done_bit s).0 ≡ etimedout
unfolding mmc_rint_wait
rint_wait_zero done_bit s = refl

err≢ok : ¬ (etimedout ≡ pos 0)
err≢ok e = cc

rint_wait-DoneAt :
    (t done_bit : ℕ) (s : Io)
    → (mmc_rint_wait t done_bit s).0 ≡ pos 0
    → (k : ℕ) × (k < t) × DoneAt s.input done_bit k
rint_wait-DoneAt zero done_bit s h = absurd (err≢ok (rw (rint_wait_zero done_bit s) at h))
rint_wait-DoneAt (suc t) done_bit s h = elim (Bool-cases (any (s.input 0) error_bit)) [
  | inl e ↦ absurd (err≢ok (rw (rint_wait_err t done_bit s e) at h))
  | inr e ↦ elim (Bool-cases (any (s.input 0) done_bit)) [
    | inl d ↦ (0, omega arith, DoneAt-zero s.input done_bit d e)
    | inr d ↦
        let (k, lt, at_k) =
          rint_wait-DoneAt t done_bit _ (rw (rint_wait_again t done_bit s e d) at h) in
        (suc k, omega arith, DoneAt-suc s.input done_bit k d e at_k)
  ]
]

DoneAt-rint_wait :
    (t done_bit k : ℕ) (s : Io)
    → k < t
    → DoneAt s.input done_bit k
    → (mmc_rint_wait t done_bit s).0 ≡ pos 0
DoneAt-rint_wait zero done_bit k s h d = absurd (omega arith)
DoneAt-rint_wait (suc t) done_bit zero s h (now, before, clean) =
    rint_wait_done t done_bit s (clean 0 (omega arith)) now
DoneAt-rint_wait (suc t) done_bit (suc k) s h (now, before, clean) =
    rw (rint_wait_again t done_bit s (clean 0 (omega arith)) (before 0 (omega arith))) (
      DoneAt-rint_wait t done_bit k _ (omega arith)
        (now, λ j p. before (suc j) (omega arith), λ j p. clean (suc j) (omega arith)))

-- mmc_rint_wait returns 0 exactly where one of its `t` polls shows the awaited bit, as the first to
-- do so, and no poll up to that one shows an error.
pub mmc_rint_wait_iff :
    (t done_bit : ℕ) (s : Io)
    → ((mmc_rint_wait t done_bit s).0 ≡ pos 0) ↔ ((k : ℕ) × (k < t) × DoneAt s.input done_bit k)
mmc_rint_wait_iff t done_bit s =
    (rint_wait-DoneAt t done_bit s, λ (k, lt, at_k). DoneAt-rint_wait t done_bit k s lt at_k)
