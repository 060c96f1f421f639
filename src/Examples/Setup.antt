-- ===== src/Examples/Setup.antt =====
-- The set-up of the Ethernet controller, its MDIO bus, and the division, at concrete values.
use bsp_v3s.Common.{
  ℕ, suc, ◌*◌, ◌<◌, ◌==◌, bit_and, ◌≡◌, ◌≢◌, ◌⊎◌, refl, arith, [], none, some, true, negsuc,
}
use bsp_v3s.Machine.Io.{Io, pure}
use bsp_v3s.Emac.Mac.{sun8i_mdio_read, sun8i_mdio_write, sun8i_emac_eth_init}
use bsp_v3s.Emac.Mdio.{mdio_ends}
use bsp_v3s.Emac.Setup.{Ready, Resetting, sun8i_emac_eth_init_lem}
use bsp_v3s.Div64.{div64_32}
use bsp_v3s.Div64.Quotient.{div64_32_lem}
use bsp_v3s.Examples.Network.{silent, eth0}

-- A device whose successive reads are 5000 apart.
abbrev hurried : Io
hurried = record { input = λ n. n * 5000; log = [] }

mdio_ends_example :
    ((sun8i_mdio_read 0 1 1 2 hurried).0 ≢ none) × ((sun8i_mdio_write 0 1 1 2 7 hurried).0 ≢ none)
mdio_ends_example = mdio_ends 0 1 1 2 7 0 hurried (omega arith) refl

sun8i_emac_eth_init_lem_example :
    Ready
      (pure (true, 100))
      (λ i. i)
      eth0
      silent
      (sun8i_emac_eth_init (pure (true, 100)) (λ i. i) eth0 silent).0
    ⊎ (((sun8i_emac_eth_init (pure (true, 100)) (λ i. i) eth0 silent).0 ≡ (negsuc 0, eth0))
        × ((bit_and 0 1 == 0) ≡ true)
        × ((k : ℕ) → k < 100 → Resetting silent (suc (suc k))))
sun8i_emac_eth_init_lem_example = sun8i_emac_eth_init_lem (pure (true, 100)) (λ i. i) eth0 silent

div64_32_lem_example : div64_32 64 1000000000000 1000 ≡ some (1000000000, 0)
div64_32_lem_example = div64_32_lem 1000000000000 1000 (omega arith) (omega arith) (omega arith)
