-- ===== src/Examples/Link.antt =====
-- The generic PHY, on a device that announces the modes up to 100 Mbit/s.
use bsp_v3s.Common.{◌≡◌, refl, [], true}
use bsp_v3s.Machine.Io.{Io}
use bsp_v3s.Phy.{PhyDevice}
use bsp_v3s.Phy.Link.{genphy_parse_link}
use bsp_v3s.Phy.Choice.{IsBest}
use bsp_v3s.Phy.Best.{mode_of, genphy_parse_link-IsBest}

abbrev partner : Io
partner = record { input = λ n. 0x1e1; log = [] }

abbrev negotiating : PhyDevice
negotiating = record {
  speed = 0;
  duplex = 0;
  link = true;
  advertising = 0x3ff;
  supported = 0x3ff;
  autoneg = true;
  pause = 0;
  asym_pause = 0;
}

genphy_parse_link-IsBest_example :
    ((genphy_parse_link negotiating partner).0.0 ≡ 0)
    × IsBest 0x180 0x1e1 (mode_of (genphy_parse_link negotiating partner).0.1)
genphy_parse_link-IsBest_example = genphy_parse_link-IsBest negotiating partner refl refl refl
