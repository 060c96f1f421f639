-- ===== src/Miiphy/Lookup.antt =====
-- The registry of uboot/miiphyutil.c as a map from names to buses: what each call does to the map.
use bsp_v3s.Common.{
  same_name_self, same_name→≡, same_name, ℕ, true, false, ◌≡◌, ◌≢◌, refl, sym, ap, ◌∙◌, List, [],
  ◌∷◌, ◌++◌, Option, none, some, ◌⊎◌, inl, inr, ℤ, pos, negsuc, arith, Bool-cases, if◌then◌else◌,
}
use mathlib.Core.Bool.{true≢false}
use bsp_v3s.Miiphy.{
  MiiDev, Mii, find, list_del, has_functions, add_bus, or_else, forget, make_current, active_from,
  active_of_set, mdio_register, mdio_unregister, miiphy_set_current_dev, miiphy_get_dev_by_name,
  miiphy_get_active_dev,
}
use bsp_v3s.Miiphy.Find.{
  find_here, find_later, find-name, find-snoc_self, find-snoc_ne, find-list_del_ne,
  find-list_del-none, find-list_del_self, list_del-cases,
}
use bsp_v3s.Miiphy.Registry.{Registered, IsRegistry, forget-cases}

abbrev pub lookup : Mii → List ℕ → Option ℕ
lookup m n = miiphy_get_dev_by_name (some n) m

-- A map with a name added, and with a name taken out.
abbrev pub insert : List ℕ → ℕ → (List ℕ → Option ℕ) → List ℕ → Option ℕ
insert n b f k = if same_name n k then some b else f k

abbrev pub remove : List ℕ → (List ℕ → Option ℕ) → List ℕ → Option ℕ
remove n f k = if same_name n k then none else f k

registered :
    (m : Mii) (b : ℕ)
    → has_functions (m.bus b) ≡ true
    → lookup m (m.bus b).name ≡ none
    → mdio_register (some b) m ≡ add_bus b none m
unfolding mdio_register
registered m b h free = rw (h, free) refl

added :
    (m : Mii) (b : ℕ)
    → lookup m (m.bus b).name ≡ none
    → (k : List ℕ) → lookup (add_bus b none m).1 k ≡ insert (m.bus b).name b (lookup m) k
unfolding miiphy_get_dev_by_name
added m b free k = elim (Bool-cases (same_name (m.bus b).name k)) [
  | inl e ↦
      let same = same_name→≡ _ _ e in
      rw e (find-snoc_self m.bus k m.mii_devs b (rw (← same) free) same)
  | inr ne ↦
      rw ne (find-snoc_ne m.bus k m.mii_devs b (λ z. true≢false (cc (z, ne, same_name_self k))))
]

-- What mdio_register makes of bus `b`, by its functions and its name.
abbrev pub Registering : Mii → ℕ → ℤ × Mii → Type 0
Registering m b r =
    ((((m.bus b).read ≡ none) ⊎ ((m.bus b).write ≡ none)) × (r ≡ (negsuc 0, m)))
    ⊎ ((lookup m (m.bus b).name ≢ none) × (r ≡ (negsuc 0, m)))
    ⊎ (((m.bus b).read ≢ none)
        × ((m.bus b).write ≢ none)
        × (lookup m (m.bus b).name ≡ none)
        × (r.0 ≡ pos 0)
        × (r.1.bus ≡ m.bus)
        × ((k : List ℕ) → lookup r.1 k ≡ insert (m.bus b).name b (lookup m) k))

has_functions-no : (d : MiiDev) → has_functions d ≡ false → (d.read ≡ none) ⊎ (d.write ≡ none)
has_functions-no d h = ground arith

has_functions-yes : (d : MiiDev) → has_functions d ≡ true → (d.read ≢ none) × (d.write ≢ none)
has_functions-yes d h = (ground arith, ground arith)

-- mdio_register refuses a bus without a read or without a write function, and one whose name is taken,
-- and changes nothing. It adds a bus only where both functions are there and the name is free: it
-- returns 0, the bus is found under its name, no other name is found otherwise than before, and no
-- bus itself is changed.
pub register-insert : (m : Mii) (b : ℕ) → Registering m b (mdio_register (some b) m)
unfolding mdio_register
register-insert m b = elim (Bool-cases (has_functions (m.bus b))) [
  | inr h ↦ inl (has_functions-no (m.bus b) h, rw h refl)
  | inl h ↦ by_name _ refl h (has_functions-yes (m.bus b) h)
]
  where
    by_name :
        (o : Option ℕ)
        → lookup m (m.bus b).name ≡ o
        → has_functions (m.bus b) ≡ true
        → ((m.bus b).read ≢ none) × ((m.bus b).write ≢ none)
        → Registering m b (mdio_register (some b) m)
    by_name (some p) e h fs = inr (inl (λ z. cc, rw (h, e) refl))
    by_name none e h fs =
        inr (inr (fs.0, fs.1, e, rw (h, e) refl, rw (h, e) refl, λ k. rw (h, e) (added m b e k)))

-- mdio_unregister takes the name of a registered bus out of the map, and changes it nowhere else.
pub unregister-remove :
    (m : Mii) (b : ℕ)
    → IsRegistry m
    → Registered m b
    → (k : List ℕ) → lookup (mdio_unregister (some b) m).1 k ≡ remove (m.bus b).name (lookup m) k
unfolding mdio_unregister miiphy_get_dev_by_name
unregister-remove m b r known k = elim (Bool-cases (same_name (m.bus b).name k)) [
  | inl e ↦
      let same = same_name→≡ _ _ e in
      rw e (find-list_del_self m.bus k m.mii_devs b r.unique (rw same at known))
  | inr ne ↦ rw ne (other (find m.bus k m.mii_devs) refl ne)
]
  where
    other :
        (o : Option ℕ)
        → find m.bus k m.mii_devs ≡ o
        → same_name (m.bus b).name k ≡ false
        → find m.bus k (list_del b m.mii_devs) ≡ find m.bus k m.mii_devs
    other none e ne = find-list_del-none m.bus k m.mii_devs b e ∙ sym e
    other (some p) e ne =
        find-list_del_ne m.bus k m.mii_devs b p
          (λ z. true≢false (cc (z, ne, same_name_self k, find-name m.bus k m.mii_devs p e))) e
        ∙ sym e

list_del-snoc :
    (bus : ℕ → MiiDev) (ps : List ℕ) (b : ℕ)
    → find bus (bus b).name ps ≡ none
    → list_del b (ps ++ b ∷ []) ≡ ps
list_del-snoc bus [] b free = elim (list_del-cases b b []) [
  | inl (e, gone) ↦ gone
  | inr (ne, kept) ↦ absurd (ne refl)
]
list_del-snoc bus (q ∷ ps) b free = elim (Bool-cases (same_name (bus q).name (bus b).name)) [
  | inl e ↦ absurd (cc (find_here bus _ q ps e, free))
  | inr ne ↦ elim (list_del-cases b q (ps ++ b ∷ [])) [
    | inl (e, gone) ↦ absurd (true≢false (cc (e, ne, same_name_self (bus b).name)))
    | inr (other, kept) ↦
        kept
        ∙ ap (λ (zs : List ℕ). q ∷ zs)
            (list_del-snoc bus ps b (sym (find_later bus _ q ps ne) ∙ free))
  ]
]

-- In a well-formed registry, registering a bus with its functions under a name that is free, and then
-- taking it out, both return 0, and leave the registry as it was: the list, in order, and the
-- current bus.
pub unregister-register :
    (m : Mii) (b : ℕ)
    → IsRegistry m
    → has_functions (m.bus b) ≡ true
    → lookup m (m.bus b).name ≡ none
    → ((mdio_register (some b) m).0 ≡ pos 0)
      × (mdio_unregister (some b) (mdio_register (some b) m).1 ≡ (pos 0, m))
unfolding mdio_unregister miiphy_get_dev_by_name
unregister-register m b r h free =
    rw (registered m b h free)
      (refl, rw (list_del-snoc m.bus m.mii_devs b free, restored m.current_mii refl) refl)
  where
    restored :
        (c : Option ℕ)
        → m.current_mii ≡ c
        → forget b (or_else m.current_mii (some b)) ≡ m.current_mii
    restored none e =
        rw e
          (elim (forget-cases b b) [ inl (same, gone) ↦ gone | inr (ne, kept) ↦ absurd (ne refl) ])
    restored (some p) e = rw e (elim (forget-cases b p) [
      | inl (same, gone) ↦ absurd (cc (same, r.current p e, free))
      | inr (ne, kept) ↦ kept
    ])

-- In a well-formed registry, the bus that miiphy_get_active_dev gives is the one that a search of the
-- whole list gives, also where it answers with the current bus without a search; that bus is current
-- afterwards, and where there is none the current bus stays.
pub active_dev-lookup :
    (m : Mii) (devname : List ℕ)
    → IsRegistry m
    → miiphy_get_active_dev devname m
      ≡ (lookup m devname, record m { current_mii = or_else (lookup m devname) m.current_mii })
unfolding miiphy_get_active_dev miiphy_set_current_dev miiphy_get_dev_by_name
active_dev-lookup m devname r = by_current m.current_mii refl
  where
    answer : Option ℕ × Mii
    answer = (lookup m devname, record m { current_mii = or_else (lookup m devname) m.current_mii })

    by_search :
        (o : Option ℕ)
        → active_of_set (make_current o m) ≡ (o, record m { current_mii = or_else o m.current_mii })
    by_search none = refl
    by_search (some p) = refl

    by_current : (c : Option ℕ) → m.current_mii ≡ c → active_from c devname m ≡ answer
    by_current none e = by_search (lookup m devname)
    by_current (some p) e = elim (Bool-cases (same_name (m.bus p).name devname)) [
      | inr ne ↦ rw ne (by_search (lookup m devname))
      | inl same ↦
          let found : lookup m devname ≡ some p = rw (← same_name→≡ _ _ same) (r.current p e) in
          rw (same, found) (ap (λ c. (some p, record m { current_mii = c })) e)
    ]
