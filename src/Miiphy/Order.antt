-- ===== src/Miiphy/Order.antt =====
-- Every order of the calls of uboot/miiphyutil.c that change the registry, from miiphy_init on.
use bsp_v3s.Common.{ℕ, refl, List, Option, some, ℤ}
use bsp_v3s.Miiphy.{
  MiiDev, Mii, put_bus, mdio_alloc, mdio_register, mdio_register_seq, mdio_unregister,
  miiphy_set_current_dev, miiphy_get_active_dev,
}
use bsp_v3s.Miiphy.Registry.{
  Registered, Fresh, IsRegistry, put_bus-IsRegistry, register-IsRegistry, unregister-IsRegistry,
  mdio_register_seq-IsRegistry, make_current-IsRegistry, active-IsRegistry,
}

pub data Step (m : Mii) : Mii → Type 0 where
  alloc : (b : ℕ) → Fresh b m.mii_devs → Step m (mdio_alloc (some b) m).1
  fill : (b : ℕ) (d : MiiDev) → Fresh b m.mii_devs → Step m (record m { bus = put_bus b d m.bus })
  register : (b : Option ℕ) → Step m (mdio_register b m).1
  register_seq :
      (snprintf_eth : ℤ → ℤ × List ℕ) (b : ℕ) (seq : ℤ)
      → Fresh b m.mii_devs
      → Step m (mdio_register_seq snprintf_eth b seq m).1
  unregister : (b : ℕ) → Registered m b → Step m (mdio_unregister (some b) m).1
  set_current : (devname : Option (List ℕ)) → Step m (miiphy_set_current_dev devname m).1
  use_active : (devname : List ℕ) → Step m (miiphy_get_active_dev devname m).1

pub data Reach (m : Mii) : Mii → Type 0 where
  here : Reach m m
  later : {n k : Mii} → Reach m n → Step n k → Reach m k

-- Every call keeps the registry well formed.
pub Step-IsRegistry : {m n : Mii} → Step m n → IsRegistry m → IsRegistry n
unfolding mdio_alloc miiphy_set_current_dev
Step-IsRegistry {m} (alloc b f) r = put_bus-IsRegistry m b _ f r
Step-IsRegistry {m} (fill b d f) r = put_bus-IsRegistry m b d f r
Step-IsRegistry {m} (register b) r = register-IsRegistry m b r
Step-IsRegistry {m} (register_seq s b seq f) r = mdio_register_seq-IsRegistry s m b seq f r
Step-IsRegistry {m} (unregister b known) r = unregister-IsRegistry m b r
Step-IsRegistry {m} (set_current devname) r = make_current-IsRegistry m devname _ refl r
Step-IsRegistry {m} (use_active devname) r = active-IsRegistry m devname r
