-- ===== src/Pwm/Divider.antt =====
-- The prescaler that sun4i_pwm_config chooses.
use bsp_v3s.Common.{
  ℕ, zero, suc, ◌+◌, ◌^◌, ◌==◌, ◌≤◌, ◌<◌, ◌≡◌, ◌≢◌, refl, arith, Bool-cases, inl, inr,
  if◌then◌else◌, Bool, true, false, not, Option, none, some, ◌&&◌, ◌↔◌, ◌⊎◌, dec_lt, ℕ_discrete,
}
use bsp_v3s.Pwm.{
  prescaler_table, prescaled_div, bypass_div, in_range, usable, search_prescaler, choose_prescaler,
}

-- The quotient fits the register: 1 to 65536 cycles.
abbrev pub Holds : ℕ → Type 0
Holds d = (1 ≤ d) × (d ≤ 65536)

in_range-Holds : (d : ℕ) → d < 2 ^ 64 → (in_range d ≡ true) ↔ Holds d
in_range-Holds d h = ground arith

-- Prescaler `p` is in the table and gives a period that the register can hold.
abbrev pub Usable : ℕ → ℕ → ℕ → Type 0
Usable clk period_ns p = (prescaler_table p ≢ 0) × Holds (prescaled_div clk period_ns p)

prescaled_div_lt : (clk period_ns p : ℕ) → prescaled_div clk period_ns p < 2 ^ 64
unfolding prescaled_div
prescaled_div_lt clk period_ns p = omega arith

==_no : (t : ℕ) → t ≢ 0 → (t == 0) ≡ false
==_no t h = ground arith

and_iff :
    (t : ℕ) (b : Bool) (P : Type 0) → (b ≡ true) ↔ P → ((not (t == 0) && b) ≡ true) ↔ ((t ≢ 0) × P)
and_iff t b P h = elim (ℕ_discrete t 0) [
  | yes z ↦ rw z (λ (e : false ≡ true). cc, λ (u : (0 ≢ 0) × P). absurd (u.0 refl))
  | no n ↦ rw (==_no t n) (λ (e : b ≡ true). (n, h.0 e), λ (u : (t ≢ 0) × P). h.1 u.1)
]

usable-Usable : (clk period_ns p : ℕ) → (usable clk period_ns p ≡ true) ↔ Usable clk period_ns p
usable-Usable clk period_ns p =
    and_iff (prescaler_table p) (in_range (prescaled_div clk period_ns p)) _
      (in_range-Holds (prescaled_div clk period_ns p) (prescaled_div_lt clk period_ns p))

-- How the loop ends that starts at `p`: at the first usable prescaler, or past them all.
abbrev Searched : ℕ → ℕ → ℕ → ℕ × ℕ → Type 0
Searched clk period_ns p r =
    (Usable clk period_ns r.0
      × (p ≤ r.0)
      × (r.0 < 15)
      × ((q : ℕ) → p ≤ q → q < r.0 → ¬ Usable clk period_ns q)
      × (r.1 ≡ prescaled_div clk period_ns r.0))
    ⊎ ((in_range r.1 ≡ false) × ((q : ℕ) → p ≤ q → q < 15 → ¬ Usable clk period_ns q))

not_usable : (clk period_ns p : ℕ) → usable clk period_ns p ≡ false → ¬ Usable clk period_ns p
not_usable clk period_ns p e u =
    let t : usable clk period_ns p ≡ true = (usable-Usable clk period_ns p).1 u in cc

Searched-suc :
    (clk period_ns p : ℕ) (r : ℕ × ℕ)
    → ¬ Usable clk period_ns p
    → Searched clk period_ns (p + 1) r
    → Searched clk period_ns p r
Searched-suc clk period_ns p r not_p (inl (u, le, lt, first, e)) =
    inl (u, omega arith, lt, first', e)
  where
    first' : (q : ℕ) → p ≤ q → q < r.0 → ¬ Usable clk period_ns q
    first' q a b = elim (dec_lt p q) [
      | yes l ↦ first q (omega arith) b
      | no l ↦ let same : q ≡ p = omega arith in rw same not_p
    ]
Searched-suc clk period_ns p r not_p (inr (e, none_fits)) = inr (e, none')
  where
    none' : (q : ℕ) → p ≤ q → q < 15 → ¬ Usable clk period_ns q
    none' q a b = elim (dec_lt p q) [
      | yes l ↦ none_fits q (omega arith) b
      | no l ↦ let same : q ≡ p = omega arith in rw same not_p
    ]

-- A prescaler that is not usable leaves a quotient that is out of range.
stays_out :
    (t : ℕ) (div d : ℕ)
    → in_range div ≡ false
    → (not (t == 0) && in_range d) ≡ false
    → in_range (if t == 0 then div else d) ≡ false
stays_out t div d out e = elim (Bool-cases (t == 0)) [ inl z ↦ rw z out | inr z ↦ rw z (rw z at e) ]

search-Searched :
    (clk period_ns n p div : ℕ)
    → p + n ≡ 15
    → in_range div ≡ false
    → Searched clk period_ns p (search_prescaler clk period_ns n p div)
unfolding search_prescaler
search-Searched clk period_ns zero p div e out = inr (out, λ q a b u. absurd (omega arith))
search-Searched clk period_ns (suc n) p div e out = elim (Bool-cases (usable clk period_ns p)) [
  | inl u ↦
      rw (u, search_prescaler)
        (inl (
          (usable-Usable clk period_ns p).0 u,
          omega arith,
          omega arith,
          λ q a b v. absurd (omega arith),
          refl,
        ))
  | inr u ↦
      rw (u, search_prescaler)
        (Searched-suc clk period_ns p _ (not_usable clk period_ns p u) (
          search-Searched clk period_ns n (p + 1) _ (omega arith)
            (stays_out (prescaler_table p) div _ out u)))
]

-- The choice, as an exhaustive search would make it: no prescaler where the period then fits, or else the
-- first prescaler with which it fits, and the cycles of the period under it.
abbrev pub Choice : ℕ → ℕ → ℕ → ℕ → Type 0
Choice clk period_ns p prd =
    ((p ≡ 15) × (prd ≡ bypass_div clk period_ns) × Holds prd)
    ⊎ ((p < 15)
        × (¬ Holds (bypass_div clk period_ns))
        × Usable clk period_ns p
        × ((q : ℕ) → q < p → ¬ Usable clk period_ns q)
        × (prd ≡ prescaled_div clk period_ns p))

-- The period fits the register under no prescaler, and not without one.
abbrev pub NoChoice : ℕ → ℕ → Type 0
NoChoice clk period_ns =
    (¬ Holds (bypass_div clk period_ns)) × ((q : ℕ) → q < 15 → ¬ Usable clk period_ns q)

abbrev pub Chosen : ℕ → ℕ → Option (ℕ × ℕ) → Type 0
Chosen clk period_ns none = NoChoice clk period_ns
Chosen clk period_ns (some (p, prd)) = Choice clk period_ns p prd

-- The pair of choose_prescaler is that choice, and it has none exactly where there is none.
pub choose_prescaler-Chosen :
    (clk period_ns : ℕ) → Chosen clk period_ns (choose_prescaler clk period_ns)
unfolding choose_prescaler
choose_prescaler-Chosen clk period_ns = elim (Bool-cases (in_range d)) [
  | inl e ↦ rw e (inl (refl, refl, (in_range-Holds d small).0 e))
  | inr e ↦
      let found = search_prescaler clk period_ns 15 0 d in
      rw e (go found (λ (h : Holds d). no_hold e h) (search-Searched clk period_ns 15 0 d refl e))
]
  where
    d : ℕ
    d = bypass_div clk period_ns

    small : d < 2 ^ 64
    small = omega arith

    no_hold : in_range d ≡ false → ¬ Holds d
    no_hold e h = let t : in_range d ≡ true = (in_range-Holds d small).1 h in cc

    go :
        (r : ℕ × ℕ)
        → ¬ Holds d
        → Searched clk period_ns 0 r
        → Chosen clk period_ns (if in_range r.1 then some r else none)
    go (p, q) out (inl (u, le, lt, first, e)) =
        let t : in_range q ≡ true = rw e (
          (in_range-Holds (prescaled_div clk period_ns p) (prescaled_div_lt clk period_ns p)).1
            u.1) in
        rw t (inr (lt, out, u, λ q' l. first q' (omega arith) l, e))
    go (p, q) out (inr (e, none_fits)) = rw e (out, λ q' l. none_fits q' (omega arith) l)
