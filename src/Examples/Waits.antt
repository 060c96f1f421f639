-- ===== src/Examples/Waits.antt =====
-- The delays and the waits of the clock, on devices that deliver given values.
use bsp_v3s.Common.{ℕ, suc, ◌+◌, ◌*◌, ◌≤◌, ◌<◌, ◌≡◌, refl, arith, [], true}
use bsp_v3s.Machine.Io.{Io}
use bsp_v3s.Timer.{udelay_count}
use bsp_v3s.Timer.Delay.{counter_at, after_reads, udelay_count_lem}

-- A counter with a period of 100, of which 30 counts pass from one read to the next.
abbrev counter : Io
counter = record { input = λ k. counter_at 100 (k * 30 + 7); log = [] }

udelay_count_lem_example :
    (n : ℕ) × (udelay_count 100 240 10 counter ≡ (true, after_reads (suc n) counter))
    × (240 + 7 ≤ n * 30 + 7)
    × ((j : ℕ) → j < n → j * 30 + 7 < 240 + 7)
udelay_count_lem_example =
    udelay_count_lem 100 240 10 (λ k. k * 30 + 7) counter (omega arith)
      (λ k. (omega arith, omega arith)) (λ k. refl) (omega arith) (omega arith)

-- A clock that is busy at every poll, while the tick goes up by 40 from one to the next.
abbrev slow : Io
slow = record { input = λ n. n * 20; log = [] }
