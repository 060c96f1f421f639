-- ===== src/Miiphy/Read.antt =====
-- Reads and writes by the name of a bus in uboot/miiphyutil.c: they reach the bus that has the name, and
-- no call goes through a null pointer.
use bsp_v3s.Common.{ℕ, true, ◌≡◌, refl, arith, List, Option, none, some, ◌⊎◌, inl, inr, ℤ, pos}
use bsp_v3s.Machine.Io.{Io, M}
use bsp_v3s.Miiphy.{MiiDev, Mii, has_functions, miiphy_get_dev_by_name}
use bsp_v3s.Miiphy.Find.{find-Callable}
use bsp_v3s.Miiphy.Registry.{IsRegistry}
use bsp_v3s.Miiphy.Lookup.{lookup, active_dev-lookup}
use bsp_v3s.Miiphy.Access.{World, mdio_devad_none, u16_of, miiphy_read, miiphy_write}

Functions : MiiDev → Type 0
Functions d =
    (read : ℕ → ℤ → ℕ → M ℤ) × (write : ℕ → ℤ → ℕ → ℕ → M ℤ) × (d.read ≡ some read)
    × (d.write ≡ some write)

has_functions-Functions :
    (d : MiiDev) (r : Option (ℕ → ℤ → ℕ → M ℤ)) (w : Option (ℕ → ℤ → ℕ → ℕ → M ℤ))
    → d.read ≡ r
    → d.write ≡ w
    → has_functions d ≡ true
    → Functions d
unfolding Functions
has_functions-Functions d none w e f h = absurd (ground (arith, e, h))
has_functions-Functions d (some read) none e f h = absurd (ground (arith, e, f, h))
has_functions-Functions d (some read) (some write) e f h = (read, write, e, f)

found-Functions :
    (m : Mii) (n : List ℕ) (p : ℕ) → IsRegistry m → lookup m n ≡ some p → Functions (m.bus p)
unfolding miiphy_get_dev_by_name
found-Functions m n p r e =
    has_functions-Functions (m.bus p) _ _ refl refl
      (find-Callable m.bus n m.mii_devs p r.callable e)

-- The world after a call by the name of bus `p` that leaves the device as `io`.
abbrev pub used : World → ℕ → Io → World
used w p io = record { mii = record w.mii { current_mii = some p }; io = io }

-- In a well-formed registry, a read under a name that no bus has fails, without any access and with
-- nothing changed. Under the name of a bus it is one call of that bus's read function, with the
-- addresses given and no device address; a negative result is a failure, any other gives its low
-- 16 bits, and the bus is the current one afterwards.
pub miiphy_read_lem :
    (devname : List ℕ) (addr reg : ℕ) (w : World)
    → IsRegistry w.mii
    → ((lookup w.mii devname ≡ none) × (miiphy_read devname addr reg w ≡ some (none, w)))
      ⊎ ((p : ℕ) × (read : ℕ → ℤ → ℕ → M ℤ) × (lookup w.mii devname ≡ some p)
          × ((w.mii.bus p).read ≡ some read)
          × (miiphy_read devname addr reg w
              ≡ some (
                u16_of (read addr mdio_devad_none reg w.io).0,
                used w p (read addr mdio_devad_none reg w.io).1,
              )))
unfolding miiphy_read Functions
miiphy_read_lem devname addr reg w r = by_name _ refl
  where
    by_name :
        (o : Option ℕ)
        → lookup w.mii devname ≡ o
        → ((lookup w.mii devname ≡ none) × (miiphy_read devname addr reg w ≡ some (none, w)))
          ⊎ ((p : ℕ) × (read : ℕ → ℤ → ℕ → M ℤ) × (lookup w.mii devname ≡ some p)
              × ((w.mii.bus p).read ≡ some read)
              × (miiphy_read devname addr reg w
                  ≡ some (
                    u16_of (read addr mdio_devad_none reg w.io).0,
                    used w p (read addr mdio_devad_none reg w.io).1,
                  )))
    by_name none e = inl (e, rw (active_dev-lookup w.mii devname r, e) refl)
    by_name (some p) e =
        let (read, write, f, g) = found-Functions w.mii devname p r e in
        inr (p, read, e, f, rw (active_dev-lookup w.mii devname r, e, f) refl)

-- The same for a write, whose result is the bus's, or 1 under a name that no bus has.
pub miiphy_write_lem :
    (devname : List ℕ) (addr reg value : ℕ) (w : World)
    → IsRegistry w.mii
    → ((lookup w.mii devname ≡ none) × (miiphy_write devname addr reg value w ≡ some (pos 1, w)))
      ⊎ ((p : ℕ) × (write : ℕ → ℤ → ℕ → ℕ → M ℤ) × (lookup w.mii devname ≡ some p)
          × ((w.mii.bus p).write ≡ some write)
          × (miiphy_write devname addr reg value w
              ≡ some (
                (write addr mdio_devad_none reg value w.io).0,
                used w p (write addr mdio_devad_none reg value w.io).1,
              )))
unfolding miiphy_write Functions
miiphy_write_lem devname addr reg value w r = by_name _ refl
  where
    by_name :
        (o : Option ℕ)
        → lookup w.mii devname ≡ o
        → ((lookup w.mii devname ≡ none)
            × (miiphy_write devname addr reg value w ≡ some (pos 1, w)))
          ⊎ ((p : ℕ) × (write : ℕ → ℤ → ℕ → ℕ → M ℤ) × (lookup w.mii devname ≡ some p)
              × ((w.mii.bus p).write ≡ some write)
              × (miiphy_write devname addr reg value w
                  ≡ some (
                    (write addr mdio_devad_none reg value w.io).0,
                    used w p (write addr mdio_devad_none reg value w.io).1,
                  )))
    by_name none e = inl (e, rw (active_dev-lookup w.mii devname r, e) refl)
    by_name (some p) e =
        let (read, write, f, g) = found-Functions w.mii devname p r e in
        inr (p, write, e, g, rw (active_dev-lookup w.mii devname r, e, g) refl)
