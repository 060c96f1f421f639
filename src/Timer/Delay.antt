-- ===== src/Timer/Delay.antt =====
-- How long __udelay takes, by a clock that the counter of uboot/timer.c shows.
use bsp_v3s.Common.{
  ℕ, zero, suc, ◌+◌, ◌-◌, ◌*◌, ◌%◌, ◌^◌, ◌≤◌, ◌<◌, ltb, Bool, true, false, ◌≡◌, ◌∙◌, sym, ap, refl,
  arith, dec_le, if◌then◌else◌,
}
use native.Mathlib.Nat.{mod-add-mod, mod-eq_of_lt, mod-eq-sub-mod, mod-lt}
use bsp_v3s.Word.{u32, sub32}
use bsp_v3s.Machine.Io.{Io, readl}
use bsp_v3s.Timer.{timer_val, passed, positive, delay_loop, udelay_count}

-- The counter goes down from `load`, and starts again where `load` counts have passed: its reading when
-- the clock stands at `ticks`.
abbrev pub counter_at : ℕ → ℕ → ℕ
counter_at load ticks = load - ticks % load

-- The clock goes on from each reading to the next, by one period at most.
abbrev pub Ticks : ℕ → (ℕ → ℕ) → Type 0
Ticks load clock = (k : ℕ) → (clock k < clock (suc k)) × (clock (suc k) ≤ clock k + load)

-- The state after `n` reads.
abbrev pub after_reads : ℕ → Io → Io
after_reads zero s = s
after_reads (suc n) s = after_reads n (readl timer_val s).1

loop_over :
    (load fuel tmo last : ℕ) (s : Io)
    → positive tmo ≡ false
    → delay_loop load fuel tmo last s ≡ (true, s)
unfolding delay_loop
loop_over load zero tmo last s e = rw (delay_loop, e) refl
loop_over load (suc fuel) tmo last s e = rw (delay_loop, e) refl

loop_more :
    (load fuel tmo last : ℕ) (s : Io)
    → positive tmo ≡ true
    → delay_loop load (suc fuel) tmo last s
      ≡ delay_loop load fuel
          (sub32 tmo (passed load last (sub32 load (s.input 0))))
          (sub32 load (s.input 0))
          (readl timer_val s).1
unfolding delay_loop
loop_more load fuel tmo last s e = rw (delay_loop, e) refl

-- Where the clock stands in its period `d` counts later.
mod_later :
    (load a d : ℕ)
    → 0 < load
    → d ≤ load
    → (a + d) % load ≡ (if ltb (a % load + d) load then a % load + d else a % load + d - load)
mod_later load a d pos le =
    let below : a % load < load = mod-lt a pos in
    sym (mod-add-mod a load d) ∙ (elim (dec_le load (a % load + d)) [
      | no lt ↦ mod-eq_of_lt (omega arith) ∙ (ground arith)
      | yes ge ↦ mod-eq-sub-mod ge ∙ mod-eq_of_lt (omega arith) ∙ (ground arith)
    ])

-- The loop takes for the time between two reads what the clock has gone on.
passed-counter_at :
    (load a b : ℕ)
    → load < 2 ^ 31
    → a < b
    → b ≤ a + load
    → passed load (a % load) (b % load) ≡ b - a
passed-counter_at load a b w lt le =
    let d : ℕ = b - a in
    let pos : 0 < load = omega arith in
    let below : a % load < load = mod-lt a pos in
    let sum : a + d ≡ b = omega arith in
    let later = ap (λ (n : ℕ). n % load) (sym sum) ∙ mod_later load a d pos (omega arith) in
    rw later (ground arith)

-- The loop ends at the first read by which `tmo` counts have passed since the last one.
abbrev Ends : ℕ → ℕ → ℕ → (ℕ → ℕ) → Io → Type 0
Ends load fuel tmo clock s =
    (n : ℕ) × (delay_loop load fuel tmo (clock 0 % load) s ≡ (true, after_reads n s))
    × (tmo + clock 0 ≤ clock n)
    × ((j : ℕ) → j < n → clock j < tmo + clock 0)

loop_done : (load fuel : ℕ) (clock : ℕ → ℕ) (s : Io) → Ends load fuel 0 clock s
loop_done load fuel clock s =
    (0, loop_over load fuel 0 (clock 0 % load) s refl, omega arith, λ j lt. absurd (omega arith))

overshoot :
    (tmo step : ℕ) → tmo < step → step < 2 ^ 31 → tmo < 2 ^ 31 → positive (sub32 tmo step) ≡ false
overshoot tmo step gt w t = ground arith

delay_loop-Ends :
    (load fuel tmo : ℕ) (clock : ℕ → ℕ) (s : Io)
    → load < 2 ^ 31
    → Ticks load clock
    → ((k : ℕ) → s.input k ≡ counter_at load (clock (suc k)))
    → tmo < 2 ^ 31
    → tmo ≤ fuel
    → Ends load fuel tmo clock s
delay_loop-Ends load fuel zero clock s w ticks shows t enough = loop_done load fuel clock s
delay_loop-Ends load zero (suc tmo) clock s w ticks shows t enough = absurd (omega arith)
delay_loop-Ends load (suc fuel) (suc tmo) clock s w ticks shows t enough =
    let more = loop_more load fuel (suc tmo) (clock 0 % load) s (ground arith) ∙ read in
    elim (dec_le step (suc tmo)) [
      | yes le ↦ later more le (
          delay_loop-Ends load fuel (suc tmo - step) (λ k. clock (suc k)) (readl timer_val s).1 w
            (λ k. ticks (suc k)) (λ k. shows (suc k)) (omega arith) (omega (arith, goes_on)))
      | no gt ↦
          let over : positive (sub32 (suc tmo) step) ≡ false =
            overshoot (suc tmo) step (omega arith) (omega (arith, goes_on)) t in
          (
            1,
            more
                ∙ loop_over load fuel (sub32 (suc tmo) step) (clock 1 % load) (readl timer_val s).1
                    over,
            omega (arith, goes_on),
            λ j lt. at_start j (omega arith),
          )
    ]
  where
    step : ℕ
    step = clock 1 - clock 0

    rest : ℕ → Bool × Io
    rest tmo' = delay_loop load fuel tmo' (clock 1 % load) (readl timer_val s).1

    goes_on : (clock 0 < clock 1) × (clock 1 ≤ clock 0 + load)
    goes_on = ticks 0

    now : sub32 load (s.input 0) ≡ clock 1 % load
    now = rw (shows 0) (omega (arith, mod-lt (clock 1) pos))
      where
        pos : 0 < load
        pos = omega (arith, goes_on)

    read :
        delay_loop load fuel
          (sub32 (suc tmo) (passed load (clock 0 % load) (sub32 load (s.input 0))))
          (sub32 load (s.input 0))
          (readl timer_val s).1
        ≡ rest (sub32 (suc tmo) step)
    read = rw (now, passed-counter_at load (clock 0) (clock 1) w goes_on.0 goes_on.1) refl

    at_start : (j : ℕ) → j ≡ 0 → clock j < suc tmo + clock 0
    at_start j e = rw e (omega arith)

    earlier :
        (n : ℕ)
        → ((j : ℕ) → j < n → clock (suc j) < suc tmo - step + clock 1)
        → (j : ℕ) → j < suc n
        → clock j < suc tmo + clock 0
    earlier n before zero lt = omega arith
    earlier n before (suc j) lt = omega (arith, goes_on, before j (omega arith))

    later :
        delay_loop load (suc fuel) (suc tmo) (clock 0 % load) s ≡ rest (sub32 (suc tmo) step)
        → step ≤ suc tmo
        → Ends load fuel (suc tmo - step) (λ k. clock (suc k)) (readl timer_val s).1
        → Ends load (suc fuel) (suc tmo) clock s
    later more le (n, run, done, before) =
        let left : sub32 (suc tmo) step ≡ suc tmo - step = omega arith in
        (suc n, more ∙ ap rest left ∙ run, omega (arith, goes_on), earlier n before)

udelay_start :
    (load fuel usec last : ℕ) (s : Io)
    → usec ≤ 10000000
    → sub32 load (s.input 0) ≡ last
    → udelay_count load fuel usec s ≡ delay_loop load fuel (usec * 24) last (readl timer_val s).1
unfolding udelay_count
udelay_start load fuel usec last s t first =
    let counts : u32 (usec * 24) ≡ usec * 24 = omega arith in rw (udelay_count, counts, first) refl

-- A counter whose period of `load` counts is below 2 ^ 31 goes down and starts again, and from each read
-- to the next the clock goes on by 1 to `load` counts. Then __udelay of at most 10000000 microseconds ends:
-- with the first read by which 24 counts for each microsecond have passed since its first one. It
-- makes no access but these reads, and as many rounds as there are counts to pass are enough.
pub udelay_count_lem :
    (load fuel usec : ℕ) (clock : ℕ → ℕ) (s : Io)
    → load < 2 ^ 31
    → Ticks load clock
    → ((k : ℕ) → s.input k ≡ counter_at load (clock k))
    → usec ≤ 10000000
    → usec * 24 ≤ fuel
    → (n : ℕ) × (udelay_count load fuel usec s ≡ (true, after_reads (suc n) s))
      × (usec * 24 + clock 0 ≤ clock n)
      × ((j : ℕ) → j < n → clock j < usec * 24 + clock 0)
udelay_count_lem load fuel usec clock s w ticks shows t enough =
    let pos : 0 < load = omega (arith, ticks 0) in
    let first : sub32 load (s.input 0) ≡ clock 0 % load =
      rw (shows 0) (omega (arith, mod-lt (clock 0) pos)) in
    let (n, run, done, before) =
      delay_loop-Ends load fuel (usec * 24) clock (readl timer_val s).1 w ticks (λ k. shows (suc k))
        (omega arith) enough in
    (n, udelay_start load fuel usec _ s t first ∙ run, done, before)
