-- ===== src/Miiphy.antt =====
-- uboot/miiphyutil.c: the registry of the MDIO buses, and the PHY access by a bus's name. A name is the
-- list of its characters' codes, and strcmp the test that two names are equal. Buses are in memory
-- at the addresses that malloc gave; the registry is a list of these addresses. A bus's functions
-- are those of its driver, and whether there is one. Printing is left out.
pub mod Find
pub mod Registry
pub mod Order
pub mod Lookup
pub mod Access
pub mod Read
pub mod Safe
use bsp_v3s.Common.{
  same_name, ℕ, zero, ◌^◌, ◌%◌, Bool, true, false, ◌&&◌, ◌==◌, if◌then◌else◌, List, [], ◌∷◌, ◌++◌,
  Option, none, some, ℤ, pos, negsuc, ◌≡◌, ℕ_discrete,
}
use mathlib.Core.Option
use bsp_v3s.Machine.Io.{M}

-- The fields of `struct mii_dev` that the registry uses. The functions take the address of the PHY,
-- the device address and the register; null is none.
pub record MiiDev : Type 0 where
  pub name : List ℕ
  pub read : Option (ℕ → ℤ → ℕ → M ℤ)
  pub write : Option (ℕ → ℤ → ℕ → ℕ → M ℤ)

-- Memory and the two static variables.
pub record Mii : Type 0 where
  pub bus : ℕ → MiiDev
  pub mii_devs : List ℕ
  pub current_mii : Option ℕ

abbrev pub find : (ℕ → MiiDev) → List ℕ → List ℕ → Option ℕ
find bus devname [] = none
find bus devname (dev ∷ devs) = elim (same_name (bus dev).name devname) [
  | true ↦ some dev
  | false ↦ find bus devname devs
]

unfoldable pub miiphy_get_dev_by_name : Option (List ℕ) → Mii → Option ℕ
miiphy_get_dev_by_name none m = none
miiphy_get_dev_by_name (some devname) m = find m.bus devname m.mii_devs

unfoldable pub miiphy_init : Mii → Mii
miiphy_init m = record m { mii_devs = []; current_mii = none }

unfoldable pub put_bus : ℕ → MiiDev → (ℕ → MiiDev) → ℕ → MiiDev
put_bus b d bus k = if k == b then d else bus k

-- What malloc gave is the first argument.
unfoldable pub mdio_alloc : Option ℕ → Mii → Option ℕ × Mii
mdio_alloc none m = (none, m)
mdio_alloc (some b) m =
    (some b, record m { bus = put_bus b (record { name = []; read = none; write = none }) m.bus })

-- bus->read and bus->write are there
abbrev pub has_functions : MiiDev → Bool
has_functions d = elim d.read [
  | none ↦ false
  | some f ↦ elim d.write [ none ↦ false | some g ↦ true ]
]

abbrev pub or_else : Option ℕ → Option ℕ → Option ℕ
or_else (some a) b = some a
or_else none b = b

-- What mdio_register does once the bus has its functions, with what the search for its name found.
abbrev pub add_bus : ℕ → Option ℕ → Mii → ℤ × Mii
add_bus b (some other) m = (negsuc 0, m)
add_bus b none m = (
  pos 0,
  record m { mii_devs = m.mii_devs ++ b ∷ []; current_mii = or_else m.current_mii (some b) },
)

unfoldable pub mdio_register : Option ℕ → Mii → ℤ × Mii
mdio_register none m = (negsuc 0, m)
mdio_register (some b) m =
    if has_functions (m.bus b)
    then add_bus b (miiphy_get_dev_by_name (some (m.bus b).name) m) m
    else (negsuc 0, m)

-- What mdio_register_seq does with snprintf's result.
abbrev pub register_named : ℤ → ℕ → Mii → ℤ × Mii
register_named (pos n) b m = mdio_register (some b) m
register_named (negsuc n) b m = (negsuc n, m)

-- snprintf(bus->name, MDIO_NAME_LEN, "eth%d", seq) is of the C library: its result, and the name.
module _ (snprintf_eth : ℤ → ℤ × List ℕ) where
  unfoldable pub mdio_register_seq : ℕ → ℤ → Mii → ℤ × Mii
  mdio_register_seq b seq m =
      let (ret, name) = snprintf_eth seq in
      register_named ret b (record m { bus = put_bus b (record (m.bus b) { name = name }) m.bus })

abbrev pub list_del : ℕ → List ℕ → List ℕ
list_del b [] = []
list_del b (p ∷ ps) = elim (ℕ_discrete p b) [ yes e ↦ ps | no n ↦ p ∷ list_del b ps ]

-- `current_mii == bus ? NULL : current_mii`
abbrev pub forget : ℕ → Option ℕ → Option ℕ
forget b none = none
forget b (some p) = elim (ℕ_discrete p b) [ yes e ↦ none | no n ↦ some p ]

unfoldable pub mdio_unregister : Option ℕ → Mii → ℤ × Mii
mdio_unregister none m = (pos 0, m)
mdio_unregister (some b) m =
    (pos 0, record m { mii_devs = list_del b m.mii_devs; current_mii = forget b m.current_mii })

abbrev pub make_current : Option ℕ → Mii → ℤ × Mii
make_current (some dev) m = (pos 0, record m { current_mii = some dev })
make_current none m = (pos 1, m)

unfoldable pub miiphy_set_current_dev : Option (List ℕ) → Mii → ℤ × Mii
miiphy_set_current_dev devname m = make_current (miiphy_get_dev_by_name devname m) m

abbrev pub mdio_get_current_dev : Mii → Option ℕ
mdio_get_current_dev m = m.current_mii

abbrev pub miiphy_get_current_dev : Mii → Option (List ℕ)
miiphy_get_current_dev m = Option.map (λ p. (m.bus p).name) m.current_mii

abbrev pub active_of_set : ℤ × Mii → Option ℕ × Mii
active_of_set (pos zero, m) = (m.current_mii, m)
active_of_set (r, m) = (none, m)

-- From the second step of miiphy_get_active_dev on.
abbrev pub activate : List ℕ → Mii → Option ℕ × Mii
activate devname m = active_of_set (miiphy_set_current_dev (some devname) m)

-- The first step: is the current bus the one that is sought?
abbrev pub active_from : Option ℕ → List ℕ → Mii → Option ℕ × Mii
active_from none devname m = activate devname m
active_from (some p) devname m =
    if same_name (m.bus p).name devname then (some p, m) else activate devname m

unfoldable pub miiphy_get_active_dev : List ℕ → Mii → Option ℕ × Mii
miiphy_get_active_dev devname m = active_from m.current_mii devname m
