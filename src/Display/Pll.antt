-- ===== src/Display/Pll.antt =====
-- The divider that sunxi_lcdc_pll_set finds for the clock of a panel.
use native.Mathlib.Nat.{add-zero}
use bsp_v3s.Common.{
  ℕ, zero, suc, ◌+◌, ◌^◌, ◌≤◌, ◌<◌, ltb, true, false, ◌≡◌, ◌∙◌, ◌⊎◌, inl, inr, refl, sym, arith,
  Bool-cases, dec_lt, ℕ_discrete,
}
use mathlib.Core.Bool.{true≢false}
use bsp_v3s.Display.{
  Best, no_best, factor, in_pll, clock_diff, try_divider, search_divider, best_divider,
}

-- `best` is the best of the dividers from `lo` up to `m`, that one left out: one that the PLL has
-- the factor for, with the least difference, and the lowest of those; or there is none.
abbrev pub Found : ℕ → ℕ → ℕ → Best → Type 0
Found dotclock lo m best =
    (lo ≤ best.best_m)
    × (best.best_m < m)
    × (best.best_n ≡ factor dotclock best.best_m)
    × (in_pll best.best_n ≡ true)
    × (best.best_diff ≡ clock_diff dotclock best.best_m)
    × ((j : ℕ)
        → lo ≤ j
        → j < m
        → in_pll (factor dotclock j) ≡ true
        → (best.best_diff ≤ clock_diff dotclock j)
          × (j < best.best_m → best.best_diff < clock_diff dotclock j))

abbrev pub NoDivider : ℕ → ℕ → ℕ → Type 0
NoDivider dotclock lo m = (j : ℕ) → lo ≤ j → j < m → in_pll (factor dotclock j) ≡ false

abbrev pub IsBest : ℕ → ℕ → ℕ → Best → Type 0
IsBest dotclock lo m best = ((best ≡ no_best) × NoDivider dotclock lo m) ⊎ Found dotclock lo m best

diff_le : (dotclock m : ℕ) → clock_diff dotclock m ≤ dotclock
unfolding clock_diff
diff_le dotclock m = omega arith

module _ (dotclock lo : ℕ) (small : dotclock < 2 ^ 24) where
  -- What a round makes of a divider: it is taken, or the best so far stays.
  abbrev entry : ℕ → Best
  entry m = record { best_n = factor dotclock m; best_m = m; best_diff = clock_diff dotclock m }

  taken :
      (m : ℕ) (best : Best)
      → in_pll (factor dotclock m) ≡ true
      → clock_diff dotclock m < best.best_diff
      → try_divider dotclock m best ≡ entry m
  unfolding try_divider
  taken m best e lt =
      let less : ltb (clock_diff dotclock m) best.best_diff ≡ true = ground arith in
      rw (try_divider, e, less) refl

  left_out :
      (m : ℕ) (best : Best)
      → in_pll (factor dotclock m) ≡ false
      → try_divider dotclock m best ≡ best
  unfolding try_divider
  left_out m best e = rw (try_divider, e) refl

  not_better :
      (m : ℕ) (best : Best)
      → in_pll (factor dotclock m) ≡ true
      → best.best_diff ≤ clock_diff dotclock m
      → try_divider dotclock m best ≡ best
  unfolding try_divider
  not_better m best e le =
      let more : ltb (clock_diff dotclock m) best.best_diff ≡ false = ground arith in
      rw (try_divider, e, more) refl

  -- A divider is before the last, or the last.
  last_or :
      (P : ℕ → Type 0) (m : ℕ)
      → ((j : ℕ) → lo ≤ j → j < m → P j)
      → P m
      → (j : ℕ) → lo ≤ j
      → j < m + 1
      → P j
  last_or P m before last j ge lt = elim (ℕ_discrete j m) [
    | yes e ↦ rw e last
    | no ne ↦ before j ge (omega arith)
  ]

  NoDivider-last :
      (m : ℕ)
      → NoDivider dotclock lo m
      → in_pll (factor dotclock m) ≡ false
      → NoDivider dotclock lo (m + 1)
  NoDivider-last m none_yet e = last_or (λ (j : ℕ). in_pll (factor dotclock j) ≡ false) m none_yet e

  -- What is said of a divider that is not taken.
  abbrev Worse : Best → ℕ → Type 0
  Worse best j =
      in_pll (factor dotclock j) ≡ true
      → (best.best_diff ≤ clock_diff dotclock j)
        × (j < best.best_m → best.best_diff < clock_diff dotclock j)

  Found-entry :
      (m : ℕ)
      → lo ≤ m
      → in_pll (factor dotclock m) ≡ true
      → ((j : ℕ)
          → lo ≤ j
          → j < m
          → in_pll (factor dotclock j) ≡ true
          → clock_diff dotclock m < clock_diff dotclock j)
      → Found dotclock lo (m + 1) (entry m)
  Found-entry m ge e better = (
    ge,
    omega arith,
    refl,
    e,
    refl,
    last_or (Worse (entry m)) m
        (λ j from lt ok. (omega (arith, better j from lt ok), λ l. better j from lt ok))
        (λ ok. (omega arith, λ l. absurd (omega arith))),
  )

  Found-kept :
      (m : ℕ) (best : Best)
      → Found dotclock lo m best
      → (in_pll (factor dotclock m) ≡ true → best.best_diff ≤ clock_diff dotclock m)
      → Found dotclock lo (m + 1) best
  Found-kept m best (from, lt, n, ok, diff, least) worse = (
    from,
    omega arith,
    n,
    ok,
    diff,
    last_or (Worse best) m least (λ e. (worse e, λ l. absurd (omega arith))),
  )

  try-IsBest :
      (m : ℕ) (best : Best)
      → lo ≤ m
      → IsBest dotclock lo m best
      → IsBest dotclock lo (m + 1) (try_divider dotclock m best)
  try-IsBest m best ge (inl (start, none_yet)) = elim (Bool-cases (in_pll (factor dotclock m))) [
    | inr e ↦ rw (left_out m best e) (inl (start, NoDivider-last m none_yet e))
    | inl e ↦
        let lt : clock_diff dotclock m < best.best_diff =
          rw start (omega (arith, diff_le dotclock m)) in
        rw (taken m best e lt) (
          inr
            (Found-entry m ge e (λ j from l ok. absurd (true≢false (sym ok ∙ none_yet j from l)))))
  ]
  try-IsBest m best ge (inr found) = elim (Bool-cases (in_pll (factor dotclock m))) [
    | inr e ↦
        rw (left_out m best e)
          (inr (Found-kept m best found (λ ok. absurd (true≢false (sym ok ∙ e)))))
    | inl e ↦ elim (dec_lt (clock_diff dotclock m) best.best_diff) [
      | no ge' ↦
          rw (not_better m best e (omega arith)) (inr (Found-kept m best found (λ ok. omega arith)))
      | yes lt ↦
          rw (taken m best e lt)
            (inr (Found-entry m ge e (λ j from l ok. omega (arith, (found.5 j from l ok).0))))
    ]
  ]

  search-IsBest :
      (left m : ℕ) (best : Best)
      → lo ≤ m
      → IsBest dotclock lo m best
      → IsBest dotclock lo (m + left) (search_divider dotclock left m best)
  unfolding search_divider
  search-IsBest zero m best ge is = rw add-zero is
  search-IsBest (suc left) m best ge is =
      let count : m + suc left ≡ m + 1 + left = omega arith in
      rw count (
        search-IsBest left (m + 1) (try_divider dotclock m best) (omega arith)
          (try-IsBest m best ge is))

-- For a pixel clock below 2 ^ 24 kHz, the divider found for either timing controller, from 6 to 127
-- for the first and from 1 to 15 for the other, is one for which the PLL has the factor, with the
-- least difference from the pixel clock among those, and the lowest of those with that difference;
-- factor and divider stay 0 only if there is no such divider.
pub best_divider-IsBest :
    (dotclock : ℕ)
    → dotclock < 2 ^ 24
    → IsBest dotclock 6 128 (best_divider 0 dotclock)
      × IsBest dotclock 1 16 (best_divider 1 dotclock)
unfolding best_divider
best_divider-IsBest dotclock small = (
  search-IsBest dotclock 6 small 122 6 no_best (omega arith)
      (inl (refl, λ j ge lt. absurd (omega arith))),
  search-IsBest dotclock 1 small 15 1 no_best (omega arith)
      (inl (refl, λ j ge lt. absurd (omega arith))),
)
