-- ===== src/Word/Digits.antt =====
-- The native `|` and `&`, one equation for the last binary digit: fuel beyond the first argument
-- makes no difference to the recursion that defines them.
use Prim.Native.Nat.{digits, bitwise, bit_and-bitwise, bit_or-bitwise}
use bsp_v3s.Common.{
  ℕ, zero, suc, ◌+◌, ◌*◌, ◌/◌, ◌%◌, ◌≤◌, min, max, bit_and, bit_or, ◌≡◌, ◌∙◌, refl, arith,
  ℕ_discrete, ap,
}

module _ (alone : ℕ → ℕ) (both : ℕ → ℕ → ℕ) where
  -- One unit of fuel more than is enough.
  one_more :
      (fuel x y : ℕ) → x ≤ fuel → digits alone both (suc fuel) x y ≡ digits alone both fuel x y
  one_more zero zero y enough = refl
  one_more zero (suc x) y enough = absurd (omega arith)
  one_more (suc fuel) zero y enough = refl
  one_more (suc fuel) (suc x) y enough =
      ap (λ (rest : ℕ). rest * 2 + both (suc x % 2) (y % 2))
        (one_more fuel (suc x / 2) (y / 2) (omega arith))

  -- Any amount more.
  any_more :
      (fuel least x y : ℕ)
      → x ≤ least
      → least ≤ fuel
      → digits alone both fuel x y ≡ digits alone both least x y
  any_more zero least x y enough le = let none_left : least ≡ 0 = omega arith in rw none_left refl
  any_more (suc fuel) least x y enough le = elim (ℕ_discrete least (suc fuel)) [
    | yes same ↦ rw same refl
    | no less ↦ one_more fuel x y (omega arith) ∙ any_more fuel least x y enough (omega arith)
  ]

  -- The recursion at its last digit, with as much fuel below as the half needs.
  last_digit :
      (x y : ℕ)
      → bitwise alone both (suc x) y
        ≡ bitwise alone both (suc x / 2) (y / 2) * 2 + both (suc x % 2) (y % 2)
  last_digit x y =
      ap (λ (rest : ℕ). rest * 2 + both (suc x % 2) (y % 2))
        (any_more x (suc x / 2) (suc x / 2) (y / 2) (omega arith) (omega arith))

pub bit_or_step : (x y : ℕ) → bit_or x y ≡ bit_or (x / 2) (y / 2) * 2 + max (x % 2) (y % 2)
bit_or_step (suc x) y =
    rw (bit_or-bitwise (suc x) y, bit_or-bitwise (suc x / 2) (y / 2))
      (last_digit (λ (u : ℕ). u) max x y)
bit_or_step zero y = rw (bit_or-bitwise 0 y, bit_or-bitwise 0 (y / 2)) (omega arith)

pub bit_and_step : (x y : ℕ) → bit_and x y ≡ bit_and (x / 2) (y / 2) * 2 + min (x % 2) (y % 2)
bit_and_step (suc x) y =
    rw (bit_and-bitwise (suc x) y, bit_and-bitwise (suc x / 2) (y / 2))
      (last_digit (λ (u : ℕ). 0) min x y)
bit_and_step zero y = rw (bit_and-bitwise 0 y, bit_and-bitwise 0 (y / 2)) (omega arith)
