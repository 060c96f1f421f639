-- ===== src/Machine/Io.antt =====
-- Registers of a device that changes them by itself: the device is the sequence of the values that
-- successive reads deliver, which is arbitrary, and what the driver does is the log of its accesses,
-- newest first. A driver operation is a function of this state.
use bsp_v3s.Common.{ℕ, suc, List, ◌∷◌}

pub data Access : Type 0 where
  rd : ℕ → ℕ → Access
  wr : ℕ → ℕ → Access
  delay : ℕ → Access

pub record Io : Type 0 where
  pub input : ℕ → ℕ
  pub log : List Access

abbrev pub M : Type 0 → Type 0
M A = Io → A × Io

abbrev pub pure : {A : Type 0} → A → M A
pure a s = (a, s)

infixl 5 ◌>>=◌ ◌>>◌
abbrev pub ◌>>=◌ : {A B : Type 0} → M A → (A → M B) → M B
◌>>=◌ m f s = let r = m s in f r.0 r.1

abbrev pub ◌>>◌ : {B : Type 0} → M (Unit {0}) → M B → M B
m >> k = m >>= λ _. k

abbrev pub readl : ℕ → M ℕ
readl a s = (s.input 0, record { input = λ n. s.input (suc n); log = rd a (s.input 0) ∷ s.log })

-- As in C, the value first.
abbrev pub writel : ℕ → ℕ → M (Unit {0})
writel v a s = (tt, record s { log = wr a v ∷ s.log })

abbrev pub udelay : ℕ → M (Unit {0})
udelay n s = (tt, record s { log = delay n ∷ s.log })
