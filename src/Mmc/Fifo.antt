-- ===== src/Mmc/Fifo.antt =====
-- mmc_trans_data_by_cpu: the words that pass through the FIFO, for every sequence of values that
-- the controller delivers.
use bsp_v3s.Common.{
  ℕ, zero, suc, ◌+◌, ◌≤◌, ◌≡◌, inl, inr, refl, Bool, true, false, arith, Bool-cases, Option, none,
  some, List, [], ◌∷◌, length,
}
use bsp_v3s.Machine.Io.{Io, Access, rd, wr, delay, readl, writel, udelay}
use bsp_v3s.Mmc.Regs.{any, status, fifo, fifo_empty, fifo_full}
use bsp_v3s.Mmc.{fifo_wait, read_words, write_words}

-- The log grows from `base` by transfers of words, and the words `vs` grow with it from `got`. A
-- word is transferred directly after a read of the status in which `bit` is clear; where the bit is
-- set the driver waits a microsecond, or gives up.
pub data Transfer (access : ℕ → Access) (bit : ℕ) (base : List Access) (got : List ℕ)
    : List Access → List ℕ → Type 0 where
  start : Transfer access bit base got base got
  wait :
      (w : ℕ) {log : List Access} {vs : List ℕ}
      → any w bit ≡ true
      → Transfer access bit base got log vs
      → Transfer access bit base got (delay 1 ∷ rd status w ∷ log) vs
  expire :
      (w : ℕ) {log : List Access} {vs : List ℕ}
      → any w bit ≡ true
      → Transfer access bit base got log vs
      → Transfer access bit base got (rd status w ∷ log) vs
  word :
      (w v : ℕ) {log : List Access} {vs : List ℕ}
      → any w bit ≡ false
      → Transfer access bit base got log vs
      → Transfer access bit base got (access v ∷ rd status w ∷ log) (v ∷ vs)

-- Steps of the code, by what the device answers.
fifo_wait_again :
    (t bit : ℕ) (s : Io)
    → any (s.input 0) bit ≡ true
    → fifo_wait (suc t) bit s ≡ fifo_wait t bit (udelay 1 (readl status s).1).1
unfolding fifo_wait
fifo_wait_again t bit s e = ground arith

fifo_wait_ready :
    (t bit : ℕ) (s : Io)
    → any (s.input 0) bit ≡ false
    → fifo_wait t bit s ≡ (some t, (readl status s).1)
unfolding fifo_wait
fifo_wait_ready zero bit s e = ground arith
fifo_wait_ready (suc t) bit s e = ground arith

fifo_wait_expired :
    (bit : ℕ) (s : Io) → any (s.input 0) bit ≡ true → fifo_wait 0 bit s ≡ (none, (readl status s).1)
unfolding fifo_wait
fifo_wait_expired bit s e = ground arith

read_words-none :
    (n t : ℕ) (got : List ℕ) (s s' : Io)
    → fifo_wait t fifo_empty s ≡ (none, s')
    → read_words (suc n) t got s ≡ ((false, got), s')
unfolding read_words
read_words-none n t got s s' e = ground arith

read_words-some :
    (n t t' : ℕ) (got : List ℕ) (s s' : Io)
    → fifo_wait t fifo_empty s ≡ (some t', s')
    → read_words (suc n) t got s ≡ read_words n t' (s'.input 0 ∷ got) (readl fifo s').1
unfolding read_words
read_words-some n t t' got s s' e = ground arith

write_words-none :
    (buff : ℕ → ℕ) (n i t : ℕ) (s s' : Io)
    → fifo_wait t fifo_full s ≡ (none, s')
    → write_words buff (suc n) i t s ≡ (false, s')
unfolding write_words
write_words-none buff n i t s s' e = ground arith

write_words-some :
    (buff : ℕ → ℕ) (n i t t' : ℕ) (s s' : Io)
    → fifo_wait t fifo_full s ≡ (some t', s')
    → write_words buff (suc n) i t s ≡ write_words buff n (i + 1) t' (writel (buff i) fifo s').1
unfolding write_words
write_words-some buff n i t t' s s' e = ground arith

module _ (access : ℕ → Access) (bit : ℕ) (base : List Access) (got : List ℕ) where
  -- What the log is after a wait.
  data Waited (vs : List ℕ) : Option ℕ × Io → Type 0 where
    gave_up : {s : Io} → Transfer access bit base got s.log vs → Waited vs (none, s)
    ready :
        {t : ℕ} (w : ℕ) {s : Io} {log : List Access}
        → s.log ≡ rd status w ∷ log
        → any w bit ≡ false
        → Transfer access bit base got log vs
        → Waited vs (some t, s)

  fifo_wait-Waited :
      (vs : List ℕ) (t : ℕ) (s : Io)
      → Transfer access bit base got s.log vs
      → Waited vs (fifo_wait t bit s)
  fifo_wait-Waited vs zero s h = elim (Bool-cases (any (s.input 0) bit)) [
    | inr e ↦ rw (fifo_wait_ready zero bit s e) (ready (s.input 0) refl e h)
    | inl e ↦ rw (fifo_wait_expired bit s e) (gave_up (expire (s.input 0) e h))
  ]
  fifo_wait-Waited vs (suc t) s h = elim (Bool-cases (any (s.input 0) bit)) [
    | inr e ↦ rw (fifo_wait_ready (suc t) bit s e) (ready (s.input 0) refl e h)
    | inl e ↦ rw (fifo_wait_again t bit s e) (fifo_wait-Waited vs t _ (wait (s.input 0) e h))
  ]

module _ (base : List Access) (got : List ℕ) where
  -- What a read of `n` words comes to.
  abbrev Reads : ℕ → List ℕ → (Bool × List ℕ) × Io → Type 0
  Reads n vs r =
      Transfer (rd fifo) fifo_empty base got r.1.log r.0.1
      × (r.0.0 ≡ true → length r.0.1 ≡ n + length vs)

  read_words-suc :
      (n t : ℕ) (vs : List ℕ) (s : Io) (r : Option ℕ × Io)
      → ((t' v : ℕ) (s' : Io)
          → Transfer (rd fifo) fifo_empty base got s'.log (v ∷ vs)
          → Reads n (v ∷ vs) (read_words n t' (v ∷ vs) s'))
      → fifo_wait t fifo_empty s ≡ r
      → Waited (rd fifo) fifo_empty base got vs r
      → Reads (suc n) vs (read_words (suc n) t vs s)
  read_words-suc n t vs s (none, s') rest e (gave_up w) =
      rw (read_words-none n t vs s s' e) (w, λ (b : false ≡ true). cc)
  read_words-suc n t vs s (some t', s') rest e (ready w same clear moved) =
      let v = s'.input 0 in
      let (moved', len) = rest t' v (readl fifo s').1 (rw same (word w v clear moved)) in
      rw (read_words-some n t t' vs s s' e) (moved', λ b. omega (arith, len b))

  read_words_from :
      (n t : ℕ) (vs : List ℕ) (s : Io)
      → Transfer (rd fifo) fifo_empty base got s.log vs
      → Reads n vs (read_words n t vs s)
  unfolding read_words
  read_words_from zero t vs s h = (h, λ _. omega arith)
  read_words_from (suc n) t vs s h =
      read_words-suc n t vs s _ (λ t' v s' m. read_words_from n t' (v ∷ vs) s' m) refl
        (fifo_wait-Waited (rd fifo) fifo_empty base got vs t s h)

-- Reading `n` words, whatever the controller answers: the words returned are exactly those that
-- were read from the FIFO, in order, each directly after a status that showed the FIFO not empty,
-- and between the words there are only polls of the status; a read that reports success returns
-- `n` words.
pub read_words-Transfer :
    (n t : ℕ) (s : Io)
    → let r = read_words n t [] s in
      Transfer (rd fifo) fifo_empty s.log [] r.1.log r.0.1 × (r.0.0 ≡ true → length r.0.1 ≡ n)
read_words-Transfer n t s =
    let (moved, len) = read_words_from s.log [] n t [] s start in (moved, λ b. omega (arith, len b))

-- The words `i` to `i + n - 1` of the buffer, newest first, after `got`.
abbrev pub sent : (ℕ → ℕ) → ℕ → ℕ → List ℕ → List ℕ
sent buff i zero got = got
sent buff i (suc n) got = sent buff (i + 1) n (buff i ∷ got)

module _ (base : List Access) (got : List ℕ) (buff : ℕ → ℕ) where
  -- What a write of `n` words from index `i` comes to.
  abbrev Writes : ℕ → ℕ → List ℕ → Bool × Io → Type 0
  Writes n i vs r =
      (k : ℕ) × (k ≤ n)
      × (r.0 ≡ true → k ≡ n)
      × Transfer (λ v. wr fifo v) fifo_full base got r.1.log (sent buff i k vs)

  write_words-suc :
      (n i t : ℕ) (vs : List ℕ) (s : Io) (r : Option ℕ × Io)
      → ((t' : ℕ) (s' : Io)
          → Transfer (λ v. wr fifo v) fifo_full base got s'.log (buff i ∷ vs)
          → Writes n (i + 1) (buff i ∷ vs) (write_words buff n (i + 1) t' s'))
      → fifo_wait t fifo_full s ≡ r
      → Waited (λ v. wr fifo v) fifo_full base got vs r
      → Writes (suc n) i vs (write_words buff (suc n) i t s)
  write_words-suc n i t vs s (none, s') rest e (gave_up w) =
      rw (write_words-none buff n i t s s' e) (0, omega arith, λ (b : false ≡ true). cc, w)
  write_words-suc n i t vs s (some t', s') rest e (ready w same clear moved) =
      let (k, le, all, moved') =
        rest t' (writel (buff i) fifo s').1 (rw same (word w (buff i) clear moved)) in
      rw (write_words-some buff n i t t' s s' e)
        (suc k, omega arith, λ b. omega (arith, all b), moved')

  write_words_from :
      (n i t : ℕ) (vs : List ℕ) (s : Io)
      → Transfer (λ v. wr fifo v) fifo_full base got s.log vs
      → Writes n i vs (write_words buff n i t s)
  unfolding write_words
  write_words_from zero i t vs s h = (0, omega arith, λ _. refl, h)
  write_words_from (suc n) i t vs s h =
      write_words-suc n i t vs s _ (λ t' s' m. write_words_from n (i + 1) t' (buff i ∷ vs) s' m)
        refl (fifo_wait-Waited (λ v. wr fifo v) fifo_full base got vs t s h)

-- Writing `n` words, whatever the controller answers: a prefix of the buffer is written to the
-- FIFO, in order, each word directly after a status that showed the FIFO not full, and between the
-- words there are only polls of the status; a write that reports success has written all `n`.
pub write_words-Transfer :
    (buff : ℕ → ℕ) (n t : ℕ) (s : Io)
    → let r = write_words buff n 0 t s in
      (k : ℕ) × (k ≤ n)
      × (r.0 ≡ true → k ≡ n)
      × Transfer (λ v. wr fifo v) fifo_full s.log [] r.1.log (sent buff 0 k [])
write_words-Transfer buff n t s = write_words_from s.log [] buff n 0 t [] s start
