-- ===== src/Common/Names.antt =====
-- Names of the C library's kind: the list of the characters' codes, without the NUL at the end.
use Prim.Native.Nat.{ℕ}
use mathlib.Core.Path.{◌≡◌, refl}
use mathlib.Core.Logic.{◌≢◌, inl, inr}
use mathlib.Core.Bool.{Bool, true, false, ◌&&◌}
use mathlib.Core.List.{List, [], ◌∷◌}
use native.Mathlib.Omega.{arith}
use bsp_v3s.Common.Tests.{◌==◌, Bool-cases}

-- strcmp(a, b) == 0
unfoldable pub same_name : List ℕ → List ℕ → Bool
same_name [] [] = true
same_name [] (y ∷ ys) = false
same_name (x ∷ xs) [] = false
same_name (x ∷ xs) (y ∷ ys) = (x == y) && same_name xs ys

-- same_name decides equality.
pub same_name_self : (a : List ℕ) → same_name a a ≡ true
unfolding same_name
same_name_self [] = refl
same_name_self (x ∷ xs) = ground (arith, same_name_self xs)

pub same_name→≡ : (a b : List ℕ) → same_name a b ≡ true → a ≡ b
unfolding same_name
same_name→≡ [] [] h = refl
same_name→≡ [] (y ∷ ys) h = cc
same_name→≡ (x ∷ xs) [] h = cc
same_name→≡ (x ∷ xs) (y ∷ ys) h =
    let heads : x ≡ y = ground (arith, h) in
    let tails : xs ≡ ys = same_name→≡ xs ys (ground (arith, h)) in rw (heads, tails) refl

pub same_name_ne : (a b : List ℕ) → a ≢ b → same_name a b ≡ false
same_name_ne a b ne = elim (Bool-cases (same_name a b)) [
  | inl t ↦ absurd (ne (same_name→≡ a b t))
  | inr f ↦ f
]
