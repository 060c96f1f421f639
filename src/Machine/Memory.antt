-- ===== src/Machine/Memory.antt =====
-- Memory by bytes, and the runs of bytes that memcpy moves. Addresses are those of the memory, below
-- 2 ^ 32, so that they do not wrap.
use native.Mathlib.Nat.{zero-add, add-zero}
use bsp_v3s.Common.{
  ℕ, zero, suc, ◌+◌, ◌≤◌, ◌<◌, ◌==◌, if◌then◌else◌, ◌≡◌, ◌∙◌, refl, ap, sym, ℕ_discrete, arith,
  List, [], ◌∷◌, ◌++◌, length, ◌⊎◌, inl,
}

abbrev pub Mem : Type 0
Mem = ℕ → ℕ

-- The `n` bytes from address `a` on.
unfoldable pub read_mem : Mem → ℕ → ℕ → List ℕ
read_mem m a zero = []
read_mem m a (suc n) = m a ∷ read_mem m (a + 1) n

-- The memory after the bytes are stored from address `a` on.
unfoldable pub write_mem : Mem → ℕ → List ℕ → Mem
write_mem m a [] x = m x
write_mem m a (b ∷ bs) x = if x == a then b else write_mem m (a + 1) bs x

pub length-read_mem : (m : Mem) (a n : ℕ) → length (read_mem m a n) ≡ n
unfolding read_mem
length-read_mem m a zero = refl
length-read_mem m a (suc n) = ap suc (length-read_mem m (a + 1) n)

-- An address outside the run keeps its byte.
pub write_mem_ne :
    (m : Mem) (a : ℕ) (bs : List ℕ) (x : ℕ)
    → (x < a) ⊎ (a + length bs ≤ x)
    → write_mem m a bs x ≡ m x
unfolding write_mem
write_mem_ne m a [] x h = refl
write_mem_ne m a (b ∷ bs) x h = ground (arith, write_mem_ne m (a + 1) bs x)

-- A read depends on its own addresses only.
pub read_mem_local :
    (m m' : Mem) (a n : ℕ)
    → ((x : ℕ) → a ≤ x → x < a + n → m x ≡ m' x)
    → read_mem m a n ≡ read_mem m' a n
unfolding read_mem
read_mem_local m m' a zero h = refl
read_mem_local m m' a (suc n) h =
    let first : m a ≡ m' a = h a (omega arith) (omega arith) in
    rw
      (
        first,
        read_mem_local m m' (a + 1) n
            (λ (x : ℕ) (l : a + 1 ≤ x) (r : x < a + 1 + n). h x (omega arith) (omega arith)),
      )
      refl

pub read_mem-write_mem_self :
    (m : Mem) (a : ℕ) (bs : List ℕ) → read_mem (write_mem m a bs) a (length bs) ≡ bs
unfolding read_mem write_mem
read_mem-write_mem_self m a [] = refl
read_mem-write_mem_self m a (b ∷ bs) =
    let first : write_mem m a (b ∷ bs) a ≡ b = ground arith in
    let rest =
      read_mem_local (write_mem m a (b ∷ bs)) (write_mem m (a + 1) bs) (a + 1) (length bs)
        (λ x l r. ground arith)
      ∙ read_mem-write_mem_self m (a + 1) bs in
    λ i. first i ∷ rest i

-- A write beside the run that is read.
pub read_mem-write_mem_ne :
    (m : Mem) (a : ℕ) (bs : List ℕ) (b n : ℕ)
    → (b + n ≤ a) ⊎ (a + length bs ≤ b)
    → read_mem (write_mem m a bs) b n ≡ read_mem m b n
read_mem-write_mem_ne m a bs b n h =
    read_mem_local (write_mem m a bs) m b n λ x l r. write_mem_ne m a bs x (omega arith)

pub read_mem-append :
    (m : Mem) (a n k : ℕ) → read_mem m a (n + k) ≡ read_mem m a n ++ read_mem m (a + n) k
unfolding read_mem
read_mem-append m a zero k = rw (zero-add, add-zero) refl
read_mem-append m a (suc n) k =
    let count : suc n + k ≡ suc (n + k) = omega arith in
    let from : a + suc n ≡ a + 1 + n = omega arith in
    rw (count, from, read_mem-append m (a + 1) n k) refl

-- A byte of a write is new, or the old one of its address.
pub write_mem_ap :
    (m m' : Mem) (a : ℕ) (bs : List ℕ) (x : ℕ)
    → m x ≡ m' x
    → write_mem m a bs x ≡ write_mem m' a bs x
unfolding write_mem
write_mem_ap m m' a [] x h = h
write_mem_ap m m' a (b ∷ bs) x h =
    ap (λ (v : ℕ). if x == a then b else v) (write_mem_ap m m' (a + 1) bs x h)

write_mem-append_at :
    (m : Mem) (a : ℕ) (p q : List ℕ) (x : ℕ)
    → write_mem (write_mem m a p) (a + length p) q x ≡ write_mem m a (p ++ q) x
unfolding write_mem
write_mem-append_at m a [] q x = rw add-zero (write_mem_ap (write_mem m a []) m a q x refl)
write_mem-append_at m a (b ∷ bs) q x = elim (ℕ_discrete x a) [
  | yes e ↦
      let kept =
        write_mem_ne (write_mem m a (b ∷ bs)) (a + suc (length bs)) q x (inl (omega arith)) in
      kept ∙ ground arith
  | no ne ↦
      let from : a + suc (length bs) ≡ a + 1 + length bs = omega arith in
      let old : write_mem m a (b ∷ bs) x ≡ write_mem m (a + 1) bs x = ground arith in
      let new : write_mem m a (b ∷ bs ++ q) x ≡ write_mem m (a + 1) (bs ++ q) x = ground arith in
      rw from (
        write_mem_ap (write_mem m a (b ∷ bs)) (write_mem m (a + 1) bs) (a + 1 + length bs) q x old
        ∙ write_mem-append_at m (a + 1) bs q x
        ∙ sym new)
]

-- Two runs written one after the other are one run.
pub write_mem-append :
    (m : Mem) (a : ℕ) (p q : List ℕ)
    → write_mem (write_mem m a p) (a + length p) q ≡ write_mem m a (p ++ q)
write_mem-append m a p q = λ i x. write_mem-append_at m a p q x i
