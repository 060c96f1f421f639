-- ===== src/Examples/Network.antt =====
-- The Ethernet controller with concrete frames.
use bsp_v3s.Common.{
  ℕ, ◌+◌, ◌≤◌, ◌<◌, ◌≡◌, refl, arith, List, [], ◌∷◌, ◌++◌, some, Option, length, take, replicate,
  get_elem?, ◌⊎◌,
}
use bsp_v3s.Machine.Io.{Io}
use bsp_v3s.Emac.{Emac, Desc, next_desc, put_desc, emac_rx, no_frame, emac_tx}
use bsp_v3s.Emac.Transmit.{queued, kicked, emac_tx_lem, emac_tx-read_mem}
use bsp_v3s.Machine.Memory.{read_mem, write_mem}
use bsp_v3s.Emac.Ring.{World, Step, deliver, receive, here, later, Covers, concat, after_rx}
use bsp_v3s.Emac.Order.{
  started, calls, rx_descs_init-IsRing, received-delivered, next_received, oversized_calls,
}

abbrev pub silent : Io
silent = record { input = λ n. 0; log = [] }

abbrev pub free_desc : Desc
free_desc = record { status = 0; st = 0; buf_addr = 0; next = 0 }

abbrev pub eth0 : Emac
eth0 = record {
  rx_chain = λ k. free_desc;
  tx_chain = λ k. free_desc;
  mem = λ a. 0;
  rxbuffer = 8192;
  txbuffer = 131072;
  rx_at = 0;
  tx_at = 2048;
  rx_currdescnum = 0;
  tx_currdescnum = 0;
}

-- The shortest frame, and an allocator that gives one pbuf.
abbrev short : List ℕ
short = replicate 64 7

abbrev single : ℕ → Option (List ℕ)
single n = some (n ∷ [])

single-Covers : Covers single
single-Covers n ns e = let got : n ∷ [] ≡ ns = cc in rw (← got) (omega arith)

-- The ring when the frame was delivered.
abbrev filled : World
filled =
    let w = started eth0 silent in
    record {
      dev = record w.dev {
        rx_chain = put_desc w.hw (record (w.dev.rx_chain w.hw) { status = 4194304 }) w.dev.rx_chain;
        mem = write_mem w.dev.mem (w.dev.rx_chain w.hw).buf_addr short;
      };
      hw = next_desc w.hw;
      delivered = w.delivered ++ short ∷ [];
      received = w.received;
    }

filled-Step : Step (started eth0 silent) filled
filled-Step =
    deliver short 4194304 (omega arith, omega arith)
      ((rx_descs_init-IsRing eth0 silent).free 0 (omega arith) (omega arith)) refl refl

abbrev emptied : World
emptied = after_rx (emac_rx single filled.dev) filled

received-delivered_example :
    (emptied.received ≡ take (length emptied.received) emptied.delivered)
    × (length emptied.received ≤ length emptied.delivered)
    × (length emptied.delivered ≤ length emptied.received + 32)
received-delivered_example =
    received-delivered eth0 silent emptied
      (later (later here filled-Step) (receive single single-Covers))

next_received_example :
    (f : List ℕ) × (get_elem? filled.delivered 0 ≡ some f) × (emptied.received ≡ [] ++ f ∷ [])
next_received_example =
    next_received eth0 silent filled (later here filled-Step) single single-Covers (λ n e. cc)
      (omega arith)

-- A descriptor of the driver's that states 2045 bytes.
abbrev too_big : Emac
too_big = record eth0 { rx_chain = λ k. record free_desc { status = 134021120 } }

oversized_calls_example : calls (single ∷ single ∷ []) too_big ≡ (no_frame ∷ no_frame ∷ [], too_big)
oversized_calls_example = oversized_calls (single ∷ single ∷ []) too_big refl (omega arith)

-- A frame in two pieces.
emac_tx_lem_example :
    emac_tx (short ∷ (1 ∷ []) ∷ []) 0 eth0 silent
    ≡ (queued (concat (short ∷ (1 ∷ []) ∷ [])) 0 eth0, kicked silent)
emac_tx_lem_example = emac_tx_lem short ((1 ∷ []) ∷ []) eth0 silent (omega arith)

emac_tx-read_mem_example :
    (read_mem (emac_tx (short ∷ (1 ∷ []) ∷ []) 0 eth0 silent).0.mem 0 65
      ≡ concat (short ∷ (1 ∷ []) ∷ []))
    × ((x : ℕ)
        → (x < 0) ⊎ (0 + 2048 ≤ x)
        → (emac_tx (short ∷ (1 ∷ []) ∷ []) 0 eth0 silent).0.mem x ≡ 0)
emac_tx-read_mem_example = emac_tx-read_mem short ((1 ∷ []) ∷ []) eth0 silent (omega arith)
