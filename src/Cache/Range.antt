-- ===== src/Cache/Range.antt =====
-- The lines that flush_dcache_range works on.
use native.Mathlib.Nat.{
  add-mul, zero-add, one-mul, pow-zero, pow-suc, mul_right_comm, div-lt_iff_lt-mul,
  le-div_iff_mul-le, one-le-pow, mod-eq_of_lt, div-add-mod', mod-lt, mul-mod_left,
}
use bsp_v3s.Common.{
  ℕ, zero, suc, ◌+◌, ◌-◌, ◌*◌, ◌/◌, ◌%◌, ◌^◌, ◌≤◌, ◌<◌, ltb, bit_and, true, some, List, [], ◌∷◌,
  get_elem?, ◌≡◌, ◌∙◌, refl, sym, ap, arith, dec_lt,
}
use bsp_v3s.Word.{u32, not32}
use bsp_v3s.Word.Pack.{bit_and-scaled}
use bsp_v3s.Word.Testbit.{bit_and_lt_right}
use bsp_v3s.Word.Field.{bit_and-low_mask}
use bsp_v3s.Cache.{add_line, lines_from, clean_inval_range, flush_dcache_range, line_log}

loop_end : (fuel mva stop len : ℕ) → stop ≤ mva → lines_from (suc fuel) mva stop len ≡ some []
unfolding lines_from
loop_end fuel mva stop len h = ground arith

loop_more :
    (fuel mva stop len : ℕ)
    → mva < stop
    → stop + len ≤ 2 ^ 32
    → lines_from (suc fuel) mva stop len ≡ add_line mva (lines_from fuel (mva + len) stop len)
unfolding lines_from
loop_more fuel mva stop len h w =
    let less : ltb mva stop ≡ true = ground arith in
    let fits : u32 (mva + len) ≡ mva + len = omega arith in rw (lines_from, less, fits) refl

-- The list is that of the addresses `mva`, `mva + len` and so on below `stop`.
abbrev Lines : ℕ → ℕ → ℕ → List ℕ → Type 0
Lines mva stop len ls =
    ((i : ℕ) → mva + i * len < stop → get_elem? ls i ≡ some (mva + i * len))
    × ((i v : ℕ) → get_elem? ls i ≡ some v → (v ≡ mva + i * len) × (v < stop))

next_line : (mva i len : ℕ) → mva + suc i * len ≡ mva + len + i * len
next_line mva i len = omega (arith, add-mul 1 i len)

Lines-cons :
    (mva stop len : ℕ) (ls : List ℕ)
    → mva < stop
    → Lines (mva + len) stop len ls
    → Lines mva stop len (mva ∷ ls)
Lines-cons mva stop len ls h (there, back) = (there', back')
  where
    there' : (i : ℕ) → mva + i * len < stop → get_elem? (mva ∷ ls) i ≡ some (mva + i * len)
    there' zero lt = ap some (omega arith)
    there' (suc i) lt = rw next_line (there i (omega (arith, next_line mva i len)))

    back' : (i v : ℕ) → get_elem? (mva ∷ ls) i ≡ some v → (v ≡ mva + i * len) × (v < stop)
    back' zero v e = let same : mva ≡ v = cc in (omega arith, omega arith)
    back' (suc i) v e = (rw next_line (back i v e).0, (back i v e).1)

lines_from-Lines :
    (fuel mva stop len : ℕ)
    → 1 ≤ len
    → stop + len ≤ 2 ^ 32
    → stop ≤ mva + fuel
    → (ls : List ℕ) × (lines_from (suc fuel) mva stop len ≡ some ls) × Lines mva stop len ls
lines_from-Lines zero mva stop len one w enough =
    ([], loop_end 0 mva stop len (omega arith), (λ i lt. absurd (omega arith), λ i v e. cc))
lines_from-Lines (suc fuel) mva stop len one w enough = elim (dec_lt mva stop) [
  | no ge ↦ (
    [],
    loop_end (suc fuel) mva stop len (omega arith),
    (λ i lt. absurd (omega arith), λ i v e. cc),
  )
  | yes lt ↦
      let (ls, e, lines) = lines_from-Lines fuel (mva + len) stop len one w (omega arith) in
      (
        mva ∷ ls,
        loop_more (suc fuel) mva stop len lt w ∙ ap (add_line mva) e,
        Lines-cons mva stop len ls lt lines,
      )
]

pow_sum : (a b : ℕ) → 2 ^ a * 2 ^ b ≡ 2 ^ (a + b)
pow_sum zero b = rw (zero-add, pow-zero, one-mul) refl
pow_sum (suc a) b =
    let count : suc a + b ≡ suc (a + b) = omega arith in
    rw (count, pow-suc 2 a, pow-suc 2 (a + b), mul_right_comm (2 ^ a) 2 (2 ^ b), pow_sum a b) refl

-- `start & ~(line_len - 1)` is the first address of the line of `start`.
align :
    (k start : ℕ)
    → k ≤ 32
    → start < 2 ^ 32
    → bit_and start (not32 (2 ^ k - 1)) ≡ start / 2 ^ k * 2 ^ k
align k start le w =
    let p : ℕ = 2 ^ (32 - k) in
    let all : 32 - k + k ≡ 32 = omega arith in
    let whole : p * 2 ^ k ≡ 2 ^ 32 = pow_sum (32 - k) k ∙ ap (λ (n : ℕ). 2 ^ n) all in
    let up : p - 1 + 1 ≡ p = omega (arith, one-le-pow (32 - k) 2) in
    let less : (p - 1) * 2 ^ k + 2 ^ k ≡ 2 ^ 32 =
      omega (arith, add-mul (p - 1) 1 (2 ^ k), ap (λ (t : ℕ). t * 2 ^ k) up) in
    let mask : not32 (2 ^ k - 1) ≡ (p - 1) * 2 ^ k = omega (arith, one-le-pow k 2) in
    let high : start / 2 ^ k < p =
      (div-lt_iff_lt-mul {k = 2 ^ k} (omega (arith, one-le-pow k 2))).1 (omega arith) in
    rw mask (
      bit_and-scaled k start (p - 1)
      ∙ ap (λ (t : ℕ). t * 2 ^ k) (bit_and-low_mask (32 - k) (start / 2 ^ k) ∙ mod-eq_of_lt high))

-- What is said of the lines of a range.
abbrev pub Covers : ℕ → ℕ → ℕ → List ℕ → Type 0
Covers start stop len ls =
    ((x : ℕ) → start ≤ x → x < stop → (i : ℕ) × (get_elem? ls i ≡ some (x / len * len)))
    × ((i v : ℕ) → get_elem? ls i ≡ some v → (v % len ≡ 0) × (v < stop) × (start < v + len))

Lines-Covers :
    (start stop len : ℕ) (ls : List ℕ)
    → 1 ≤ len
    → Lines (start / len * len) stop len ls
    → Covers start stop len ls
Lines-Covers start stop len ls one (there, back) =
    let cut = div-add-mod' start len in
    let rest : start % len < len = mod-lt start one in
    (
      λ x from lt.
          let low : start / len ≤ x / len = (le-div_iff_mul-le one).1 (omega arith) in
          let i : ℕ = x / len - start / len in
          let sum : start / len + i ≡ x / len = omega arith in
          let at : start / len * len + i * len ≡ x / len * len =
            sym (add-mul (start / len) i len) ∙ ap (λ (t : ℕ). t * len) sum in
          (i, there i (omega (arith, div-add-mod' x len)) ∙ ap some at),
      λ i v e.
          let (is, below) = back i v e in
          let multiple : v ≡ (start / len + i) * len = is ∙ sym (add-mul (start / len) i len) in
          (rw multiple (mul-mod_left (start / len + i) len), below, omega arith),
    )

-- For a range that ends at least one line below 2 ^ 32, flush_dcache_range ends, and the lines that
-- it cleans and invalidates are exactly those that meet the range: the line of every address of the
-- range is among them, and each of them is the first address of a line, below the end of the range,
-- of which the last byte is not before its start.
pub flush_dcache_range_lem :
    (fuel ccsidr start stop : ℕ)
    → start < 2 ^ 32
    → stop + 2 ^ line_log ccsidr ≤ 2 ^ 32
    → stop ≤ fuel
    → (ls : List ℕ) × (flush_dcache_range (suc fuel) ccsidr start stop ≡ some ls)
      × Covers start stop (2 ^ line_log ccsidr) ls
unfolding flush_dcache_range clean_inval_range
flush_dcache_range_lem fuel ccsidr start stop w end enough =
    let k : ℕ = line_log ccsidr in
    let one : 1 ≤ 2 ^ k = one-le-pow k 2 (omega arith) in
    let few : k ≤ 32 = omega (arith, bit_and_lt_right 3 ccsidr 7 (omega arith)) in
    let (ls, e, lines) =
      lines_from-Lines fuel (start / 2 ^ k * 2 ^ k) stop (2 ^ k) one end (omega arith) in
    (ls, rw (align k start few w) e, Lines-Covers start stop (2 ^ k) ls one lines)
