-- ===== src/Mmc/Tf.antt =====
-- driver/drv_tf.c: the requests of the kernel's card layer on the SD/MMC host of uboot/sunxi_mmc.c, and
-- the count of errors by which its monitor finds that a card was taken out.
use bsp_v3s.Common.{
  ℕ, zero, suc, ◌+◌, ◌^◌, ◌%◌, ◌==◌, ltb, bit_and, if◌then◌else◌, Bool, true, false, not, ◌&&◌,
  Option, none, some, [], ◌∷◌, ℤ, pos, negsuc, get_elem?, ◌≡◌, refl, ap, arith,
}
use bsp_v3s.Word.{shl32}
use bsp_v3s.Machine.Io.{Io, M, pure, ◌>>=◌}
use bsp_v3s.Mmc.{MmcCmd, MmcData, Sent, stop, sunxi_mmc_send_cmd}
use bsp_v3s.Mmc.Ios.{sunxi_mmc_core_init, sunxi_mmc_set_ios}
use bsp_v3s.Mmc.Cmd.{sunxi_mmc_send_cmd_lem}

-- The fields of the kernel's `struct rt_mmcsd_data` and `struct rt_mmcsd_cmd` that the driver reads;
-- `resp` is resp_type(req), below 16, and `buf` the buffer's address with its words.
pub record ReqData : Type 0 where
  pub buf : ℕ
  pub words : ℕ → ℕ
  pub flags : ℕ
  pub blks : ℕ
  pub blksize : ℕ

pub record ReqCmd : Type 0 where
  pub cmd_code : ℕ
  pub arg : ℕ
  pub resp : ℕ
  pub payload : Option ReqData

-- mmc_resp_idx, whose entries from 9 on are 0, and mmc_flags_idx.
abbrev pub mmc_resp_idx : ℕ → ℕ
mmc_resp_idx n = elim (get_elem? {A = ℕ} (0 ∷ 21 ∷ 29 ∷ 7 ∷ 1 ∷ 1 ∷ 21 ∷ 21 ∷ 21 ∷ []) n) [
  | none ↦ 0
  | some v ↦ v
]

abbrev pub mmc_flags_idx : ℕ → ℕ
mmc_flags_idx n = elim (get_elem? {A = ℕ} (0 ∷ 2 ∷ 1 ∷ 3 ∷ []) n) [ none ↦ 0 | some v ↦ v ]

abbrev pub conv_data : Option ReqData → Option MmcData
conv_data none = none
conv_data (some d) = some (record {
  dest = d.buf;
  src = d.words;
  flags = mmc_flags_idx (bit_and d.flags 0x3);
  blocks = d.blks;
  blocksize = d.blksize;
})

-- The command and the data that are handed to the host.
unfoldable pub mmc_conv_reqtommc : ReqCmd → MmcCmd × Option MmcData
mmc_conv_reqtommc req = (
  record { cmdidx = req.cmd_code % 2 ^ 16; resp_type = mmc_resp_idx req.resp; cmdarg = req.arg },
  conv_data req.payload,
)

-- The count after a command with this result.
abbrev pub count_err : ℤ → ℕ → ℕ
count_err (pos zero) err = 0
count_err (pos (suc n)) err = err + 1
count_err (negsuc n) err = err + 1

-- A command, and the count after it; `fatal_err` is the host's field.
abbrev pub send_req : ℕ → ℕ → ReqCmd → M (Sent × ℕ)
send_req fatal_err err req = do
  sent ← sunxi_mmc_send_cmd fatal_err (mmc_conv_reqtommc req).0 (mmc_conv_reqtommc req).1
  pure (sent, count_err sent.error err)

-- What the command and the stop command return, and the count of errors.
unfoldable pub mmc_mci_request : ℕ → ℕ → ReqCmd → Option ReqCmd → M (Sent × Option Sent × ℕ)
mmc_mci_request fatal_err err cmd none = do r ← send_req fatal_err err cmd; pure (r.0, none, r.1)
mmc_mci_request fatal_err err cmd (some stop) = do
  r ← send_req fatal_err err cmd
  s ← send_req fatal_err r.1 stop
  pure (r.0, some s.0, s.1)

-- `struct mmc_mci`, with the host's fatal_err, and the kernel's configuration.
pub record Mci : Type 0 where
  pub clock : ℕ
  pub bus_width : ℕ
  pub fatal_err : ℕ

pub record IoCfg : Type 0 where
  pub power_off : Bool
  pub clock : ℕ
  pub bus_width : ℕ

module _ (mod_clk : ℕ → Option ℕ) (mclkreg : ℕ) where
  -- The second half: the width of the bus.
  abbrev pub set_width : IoCfg → Mci → M Mci
  set_width c m = elim (c.bus_width == m.bus_width) [
    | true ↦ pure m
    | false ↦ do
      f ← sunxi_mmc_set_ios mod_clk mclkreg m.fatal_err 0 (shl32 1 c.bus_width)
      pure (record m { bus_width = c.bus_width; fatal_err = f })
  ]

  unfoldable pub mmc_mci_set_iocfg : IoCfg → Mci → M Mci
  mmc_mci_set_iocfg c m = elim c.power_off [
    | true ↦ pure m
    | false ↦ elim (c.clock == m.clock) [
      | true ↦ set_width c m
      | false ↦ do
        f ← sunxi_mmc_core_init
        g ← sunxi_mmc_set_ios mod_clk mclkreg f c.clock (shl32 1 c.bus_width)
        set_width c (record { clock = c.clock; bus_width = c.bus_width; fatal_err = g })
    ]
  ]

-- What the monitor keeps.
pub record Monitor : Type 0 where
  pub status : ℕ
  pub plug : ℕ
  pub err : ℕ

-- A round of sd_thread_entry, with whether it asked the kernel for a change: whether there is a card, and
-- what mmcsd_wait_cd_changed answers if it is asked. `pluged` is the kernel's MMCSD_HOST_PLUGED.
unfoldable pub monitor_round : ℕ → Bool → ℕ → Monitor → Bool × Monitor
monitor_round pluged card answer m =
    if not (m.status == pluged) && not card
    then (true, record m { plug = answer; status = if answer == pluged then answer else m.status })
    else if ltb 10 m.err && card
    then (true, record { status = answer; plug = answer; err = 0 })
    else (false, m)

-- A request with a stop command, for a host that has not failed: whatever the host answers, and also
-- where the transfer fails, the count of errors is 0 afterwards, so that a round of the monitor
-- with a card leaves everything as it is.
pub request-monitor :
    (err : ℕ) (cmd end : ReqCmd) (s : Io) (pluged answer status plug : ℕ)
    → end.cmd_code ≡ 12
    → let r = mmc_mci_request 0 err cmd (some end) s in
      let m : Monitor = record { status = status; plug = plug; err = r.0.2 } in
      (r.0.2 ≡ 0) × (monitor_round pluged true answer m ≡ (false, m))
unfolding mmc_mci_request monitor_round mmc_conv_reqtommc
request-monitor err cmd end s pluged answer status plug e =
    let first = send_req 0 err cmd s in
    let quiet =
      (sunxi_mmc_send_cmd_lem 0 (mmc_conv_reqtommc end).0 (mmc_conv_reqtommc end).1 first.1).1 refl
        (omega (arith, e)) in
    let none_left : (mmc_mci_request 0 err cmd (some end) s).0.2 ≡ 0 =
      ap (λ (x : Sent × Io). count_err x.0.error first.0.1) quiet in
    (none_left, rw none_left (ground arith))
