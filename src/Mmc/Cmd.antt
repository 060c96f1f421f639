-- ===== src/Mmc/Cmd.antt =====
-- sunxi_mmc_send_cmd: what every command leaves in the controller, whatever the controller answers.
use bsp_v3s.Common.{
  ℕ, zero, suc, ◌≡◌, ◌≢◌, ◌==◌, refl, Bool, true, false, arith, bit_or, Bool-cases, inl, inr, ℤ,
  pos, is_neg, Option, List, [], ◌∷◌,
}
use bsp_v3s.Machine.Io.{Io, Access, rd, wr, readl, writel, udelay}
use bsp_v3s.Mmc.Regs.{any, rint, gctrl, cmd_reg, cmd_start, gctrl_reset, fifo_reset, failed}
use bsp_v3s.Mmc.{
  stop, Sent, MmcCmd, MmcData, update_wait, mmc_update_clk, send_out, send_body, sunxi_mmc_send_cmd,
}

-- The log goes on from `base`.
pub data Extends (base : List Access) : List Access → Type 0 where
  same : Extends base base
  more : {log : List Access} (a : Access) → Extends base log → Extends base (a ∷ log)

update_wait_done :
    (t : ℕ) (s : Io)
    → any (s.input 0) cmd_start ≡ false
    → update_wait t s ≡ (true, (readl cmd_reg s).1)
unfolding update_wait
update_wait_done zero s e = ground arith
update_wait_done (suc t) s e = ground arith

update_wait_again :
    (t : ℕ) (s : Io)
    → any (s.input 0) cmd_start ≡ true
    → update_wait (suc t) s ≡ update_wait t (udelay 1000 (readl cmd_reg s).1).1
unfolding update_wait
update_wait_again t s e = ground arith

update_wait-Extends :
    (base : List Access) (t : ℕ) (s : Io)
    → Extends base s.log
    → Extends base (update_wait t s).1.log
unfolding update_wait
update_wait-Extends base zero s h = more _ h
update_wait-Extends base (suc t) s h = elim (Bool-cases (any (s.input 0) cmd_start)) [
  | inr e ↦ rw (update_wait_done (suc t) s e) (more _ h)
  | inl e ↦ rw (update_wait_again t s e) (update_wait-Extends base t _ (more _ (more _ h)))
]

-- The steps of mmc_update_clk, by the result of its wait.
abbrev clk_cmd : ℕ
clk_cmd = bit_or (bit_or cmd_start 2097152) 8192

update_clk_done :
    (s s' : Io)
    → update_wait 2000 (writel clk_cmd cmd_reg s).1 ≡ (true, s')
    → mmc_update_clk s ≡ (pos 0, (writel (s'.input 0) rint (readl rint s').1).1)
unfolding mmc_update_clk
update_clk_done s s' e = ground arith

update_clk_late :
    (s s' : Io)
    → update_wait 2000 (writel clk_cmd cmd_reg s).1 ≡ (false, s')
    → mmc_update_clk s ≡ (failed, s')
unfolding mmc_update_clk
update_clk_late s s' e = ground arith

update_clk-Extends :
    (base : List Access) (s : Io) → Extends base s.log → Extends base (mmc_update_clk s).1.log
update_clk-Extends base s h =
    go (update_wait 2000 s1) refl (update_wait-Extends base 2000 s1 (more _ h))
  where
    s1 : Io
    s1 = (writel clk_cmd cmd_reg s).1

    go :
        (r : Bool × Io)
        → update_wait 2000 s1 ≡ r
        → Extends base r.1.log
        → Extends base (mmc_update_clk s).1.log
    go (true, s') e x = rw (update_clk_done s s' e) (more _ (more _ x))
    go (false, s') e x = rw (update_clk_late s s' e) x

-- The end of the function, `out:`
abbrev pub Cleaned : ℤ → List Access → Type 0
Cleaned error log =
    (v : ℕ) × (rest : List Access) × (log
      ≡ wr gctrl (bit_or v fifo_reset) ∷ rd gctrl v ∷ wr rint 0xffffffff ∷ rest)
    × (is_neg error ≡ true → (before : List Access) × Extends (wr gctrl gctrl_reset ∷ before) rest)

==_no : (a b : ℕ) → a ≢ b → (a == b) ≡ false
==_no a b h = ground arith

send_out_ok :
    (r : Sent) (s : Io)
    → is_neg r.error ≡ false
    → send_out r s ≡ (
      r,
      (writel (bit_or (s.input 0) fifo_reset) gctrl (readl gctrl (writel 0xffffffff rint s).1).1).1,
    )
unfolding send_out
send_out_ok r s e = ground arith

send_out_err :
    (r : Sent) (s : Io)
    → is_neg r.error ≡ true
    → let s' = (mmc_update_clk (writel gctrl_reset gctrl s).1).1 in
      send_out r s ≡ (
        r,
        (writel
            (bit_or (s'.input 0) fifo_reset)
            gctrl
            (readl gctrl (writel 0xffffffff rint s').1).1).1,
      )
unfolding send_out
send_out_err r s e = ground arith

send_out-Cleaned :
    (r : Sent) (s : Io) → Cleaned r.error (send_out r s).1.log × ((send_out r s).0 ≡ r)
send_out-Cleaned r s = elim (Bool-cases (is_neg r.error)) [
  | inr e ↦
      rw (send_out_ok r s e) ((s.input 0, s.log, refl, λ (n : is_neg r.error ≡ true). cc), refl)
  | inl e ↦
      let s' = (mmc_update_clk (writel gctrl_reset gctrl s).1).1 in
      rw (send_out_err r s e) (
        (
          s'.input 0,
          s'.log,
          refl,
          λ (n : is_neg r.error ≡ true).
              (s.log, update_clk-Extends (wr gctrl gctrl_reset ∷ s.log) _ same),
        ),
        refl,
      )
]

send_cmd_fatal :
    (fatal_err : ℕ) (c : MmcCmd) (o : Option MmcData) (s : Io)
    → (fatal_err == 0) ≡ false
    → sunxi_mmc_send_cmd fatal_err c o s ≡ (stop failed [], s)
unfolding sunxi_mmc_send_cmd
send_cmd_fatal fatal_err c o s e = rw e refl

send_cmd_stop :
    (c : MmcCmd) (o : Option MmcData) (s : Io)
    → (c.cmdidx == 12) ≡ true
    → sunxi_mmc_send_cmd 0 c o s ≡ (stop (pos 0) [], s)
unfolding sunxi_mmc_send_cmd
send_cmd_stop c o s e = rw e refl

send_cmd_body :
    (c : MmcCmd) (o : Option MmcData) (s : Io)
    → (c.cmdidx == 12) ≡ false
    → sunxi_mmc_send_cmd 0 c o s ≡ send_out (send_body c o s).0 (send_body c o s).1
unfolding sunxi_mmc_send_cmd
send_cmd_body c o s e = ground arith

-- Whatever the controller answers: a host that has failed refuses a command with -1 and without any
-- access, and the stop command returns 0 without any. After every other command the last three
-- accesses clear the interrupt flags and set the bit that resets the FIFO; where the command
-- returns an error, the controller has been reset before that.
pub sunxi_mmc_send_cmd_lem :
    (fatal_err : ℕ) (c : MmcCmd) (o : Option MmcData) (s : Io)
    → let r = sunxi_mmc_send_cmd fatal_err c o s in
      (fatal_err ≢ 0 → r ≡ (stop failed [], s))
      × (fatal_err ≡ 0 → c.cmdidx ≡ 12 → r ≡ (stop (pos 0) [], s))
      × (fatal_err ≡ 0 → c.cmdidx ≢ 12 → Cleaned r.0.error r.1.log)
sunxi_mmc_send_cmd_lem fatal_err c o s = (
  λ (f : fatal_err ≢ 0). send_cmd_fatal fatal_err c o s (==_no fatal_err 0 f),
  λ (f : fatal_err ≡ 0) (i : c.cmdidx ≡ 12). rw f (send_cmd_stop c o s (rw i refl)),
  λ (f : fatal_err ≡ 0) (i : c.cmdidx ≢ 12).
      let b = send_body c o s in
      let (clean, kept) = send_out-Cleaned b.0 b.1 in
      rw (f, send_cmd_body c o s (==_no c.cmdidx 12 i), kept) clean,
)
