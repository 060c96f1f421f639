-- ===== src/Examples/Registry.antt =====
-- A registry with one bus, whose device answers reads with what the register delivers.
use bsp_v3s.Common.{same_name, ℕ, ◌+◌, ◌≡◌, refl, List, [], ◌∷◌, none, some, ◌⊎◌, ℤ, pos}
use bsp_v3s.Machine.Io.{Io, M, readl, writel}
use bsp_v3s.Miiphy.{
  MiiDev, Mii, put_bus, or_else, mdio_register, mdio_register_seq, miiphy_get_dev_by_name,
  miiphy_get_active_dev,
}
use bsp_v3s.Miiphy.Registry.{IsRegistry}
use bsp_v3s.Miiphy.Lookup.{lookup, Registering, register-insert, active_dev-lookup}
use bsp_v3s.Miiphy.Access.{World, mdio_devad_none, u16_of, miiphy_read}
use bsp_v3s.Miiphy.Read.{used, miiphy_read_lem}

abbrev bus_read : ℕ → ℤ → ℕ → M ℤ
bus_read addr devad reg s = (pos (readl reg s).0, (readl reg s).1)

abbrev bus_write : ℕ → ℤ → ℕ → ℕ → M ℤ
bus_write addr devad reg value s = (pos 0, (writel value reg s).1)

-- "emac"
abbrev emac_name : List ℕ
emac_name = 101 ∷ 109 ∷ 97 ∷ 99 ∷ []

abbrev emac_bus : MiiDev
emac_bus = record { name = emac_name; read = some bus_read; write = some bus_write }

abbrev blank : MiiDev
blank = record { name = []; read = none; write = none }

abbrev filled : Mii
filled = record { bus = λ k. emac_bus; mii_devs = []; current_mii = none }

abbrev ready : Mii
ready = record { bus = λ k. emac_bus; mii_devs = 5 ∷ []; current_mii = some 5 }

ready-IsRegistry : IsRegistry ready
unfolding same_name
ready-IsRegistry = record { unique = (refl, tt); callable = (refl, tt); current = λ p e. e }

empty-IsRegistry : IsRegistry filled
empty-IsRegistry = record { unique = tt; callable = tt; current = λ p e. cc }

abbrev device : Io
device = record { input = λ n. 0x1000 + n; log = [] }

abbrev world : World
world = record { mii = ready; io = device }

register-insert_example : Registering filled 5 (mdio_register (some 5) filled)
register-insert_example = register-insert filled 5

active_dev-lookup_example : miiphy_get_active_dev emac_name ready ≡ (
  lookup ready emac_name,
  record ready { current_mii = or_else (lookup ready emac_name) (some 5) },
)
active_dev-lookup_example = active_dev-lookup ready emac_name ready-IsRegistry

miiphy_read_lem_example :
    ((lookup ready emac_name ≡ none) × (miiphy_read emac_name 1 2 world ≡ some (none, world)))
    ⊎ ((p : ℕ) × (read : ℕ → ℤ → ℕ → M ℤ) × (lookup ready emac_name ≡ some p)
        × ((ready.bus p).read ≡ some read)
        × (miiphy_read emac_name 1 2 world
            ≡ some (
              u16_of (read 1 mdio_devad_none 2 device).0,
              used world p (read 1 mdio_devad_none 2 device).1,
            )))
miiphy_read_lem_example = miiphy_read_lem emac_name 1 2 world ready-IsRegistry

-- A bus that is registered and then named anew by mdio_register_seq with a taken name leaves two buses
-- with one name.
abbrev two : Mii
two = record {
  bus = put_bus 6 (record emac_bus { name = 101 ∷ [] }) (λ k. emac_bus);
  mii_devs = 5 ∷ 6 ∷ [];
  current_mii = some 5;
}

same_twice :
    (((mdio_register_seq (λ seq. (pos 4, emac_name)) 6 (pos 0) two).1.bus 6).name ≡ emac_name)
    × (((mdio_register_seq (λ seq. (pos 4, emac_name)) 6 (pos 0) two).1.bus 5).name ≡ emac_name)
    × ((mdio_register_seq (λ seq. (pos 4, emac_name)) 6 (pos 0) two).1.mii_devs ≡ 5 ∷ 6 ∷ [])
unfolding mdio_register_seq put_bus same_name mdio_register miiphy_get_dev_by_name
same_twice = (refl, refl, refl)
