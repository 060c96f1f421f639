-- ===== src/Miiphy/Registry.antt =====
-- What makes the registry of uboot/miiphyutil.c well formed, and that each call keeps it so.
use bsp_v3s.Common.{
  same_name, ℕ, true, ◌≡◌, ◌≢◌, refl, sym, ap, ◌∙◌, arith, List, [], ◌∷◌, ◌++◌, Option, none, some,
  ℕ_discrete, ◌⊎◌, inl, inr, ℤ, pos, negsuc, Bool-cases,
}
use bsp_v3s.Miiphy.{
  MiiDev, Mii, find, list_del, put_bus, has_functions, add_bus, or_else, forget, make_current,
  activate, active_of_set, mdio_register, mdio_register_seq, mdio_unregister, register_named,
  active_from, miiphy_set_current_dev, miiphy_get_dev_by_name, miiphy_get_active_dev,
}
use bsp_v3s.Miiphy.Find.{
  Unique, Callable, find_here, find_later, find-name, find-snoc_some, find-snoc_self, Unique-snoc,
  Callable-snoc, find-list_del_ne, Unique-list_del, Callable-list_del,
}

abbrev pub Registered : Mii → ℕ → Type 0
Registered m p = find m.bus (m.bus p).name m.mii_devs ≡ some p

-- The address is that of no registered bus.
abbrev pub Fresh : ℕ → List ℕ → Type 0
Fresh b [] = Unit {0}
Fresh b (p ∷ ps) = (p ≢ b) × Fresh b ps

pub record IsRegistry (m : Mii) : Type 0 where
  pub unique : Unique m.bus m.mii_devs
  pub callable : Callable m.bus m.mii_devs
  pub current : (p : ℕ) → m.current_mii ≡ some p → Registered m p

put_bus_ne : (b p : ℕ) (d : MiiDev) (bus : ℕ → MiiDev) → p ≢ b → put_bus b d bus p ≡ bus p
unfolding put_bus
put_bus_ne b p d bus ne = ground arith

module _ (b : ℕ) (d : MiiDev) (bus : ℕ → MiiDev) where
  -- What is written into a bus that is not registered does not show in the registry.
  find-put_bus :
      (n : List ℕ) (ps : List ℕ) → Fresh b ps → find (put_bus b d bus) n ps ≡ find bus n ps
  find-put_bus n [] f = refl
  find-put_bus n (p ∷ ps) f =
      let same = put_bus_ne b p d bus f.0 in
      elim (Bool-cases (same_name (bus p).name n)) [
        | inl e ↦ find_here (put_bus b d bus) n p ps (rw same e) ∙ sym (find_here bus n p ps e)
        | inr ne ↦
            find_later (put_bus b d bus) n p ps (rw same ne)
            ∙ find-put_bus n ps f.1
            ∙ sym (find_later bus n p ps ne)
      ]

  Unique-put_bus : (ps : List ℕ) → Fresh b ps → Unique bus ps → Unique (put_bus b d bus) ps
  Unique-put_bus [] f u = tt
  Unique-put_bus (p ∷ ps) f u = (
    rw (put_bus_ne b p d bus f.0) (find-put_bus (bus p).name ps f.1 ∙ u.0),
    Unique-put_bus ps f.1 u.1,
  )

  Callable-put_bus : (ps : List ℕ) → Fresh b ps → Callable bus ps → Callable (put_bus b d bus) ps
  Callable-put_bus [] f c = tt
  Callable-put_bus (p ∷ ps) f c = (rw (put_bus_ne b p d bus f.0) c.0, Callable-put_bus ps f.1 c.1)

  Fresh-found : (n : List ℕ) (ps : List ℕ) (p : ℕ) → Fresh b ps → find bus n ps ≡ some p → p ≢ b
  Fresh-found n [] p f h = cc
  Fresh-found n (q ∷ ps) p f h = elim (Bool-cases (same_name (bus q).name n)) [
    | inl e ↦ λ z. f.0 (cc (z, h, e))
    | inr ne ↦ Fresh-found n ps p f.1 (rw (find, ne) at h)
  ]

pub put_bus-IsRegistry :
    (m : Mii) (b : ℕ) (d : MiiDev)
    → Fresh b m.mii_devs
    → IsRegistry m
    → IsRegistry (record m { bus = put_bus b d m.bus })
put_bus-IsRegistry m b d f r = record {
  unique = Unique-put_bus b d m.bus m.mii_devs f r.unique;
  callable = Callable-put_bus b d m.bus m.mii_devs f r.callable;
  current = λ p e.
      let found = r.current p e in
      rw (put_bus_ne b p d m.bus (Fresh-found b d m.bus _ m.mii_devs p f found))
        (find-put_bus b d m.bus _ m.mii_devs f ∙ found);
}

-- Registration: what the record holds afterwards.
pub forget-cases :
    (b q : ℕ) → ((q ≡ b) × (forget b (some q) ≡ none)) ⊎ ((q ≢ b) × (forget b (some q) ≡ some q))
forget-cases b q =
    elim (ℕ_discrete q b)
      as (λ d.
        ((q ≡ b) × (elim d [ yes _ ↦ none | no _ ↦ some q ] ≡ none))
        ⊎ ((q ≢ b) × (elim d [ yes _ ↦ none | no _ ↦ some q ] ≡ some q))) [
          | yes e ↦ inl (e, refl)
          | no n ↦ inr (n, refl)
        ]

add_bus-IsRegistry :
    (m : Mii) (b : ℕ)
    → has_functions (m.bus b) ≡ true
    → find m.bus (m.bus b).name m.mii_devs ≡ none
    → IsRegistry m
    → IsRegistry (add_bus b none m).1
add_bus-IsRegistry m b h free r = record {
  unique = Unique-snoc m.bus m.mii_devs b r.unique free;
  callable = Callable-snoc m.bus m.mii_devs b r.callable h;
  current = λ p e. current_after m.current_mii p refl e;
}
  where
    current_after :
        (c : Option ℕ) (p : ℕ)
        → m.current_mii ≡ c
        → or_else c (some b) ≡ some p
        → find m.bus (m.bus p).name (m.mii_devs ++ b ∷ []) ≡ some p
    current_after none p was e =
        let same : b ≡ p = cc e in rw (← same) (find-snoc_self m.bus _ m.mii_devs b free refl)
    current_after (some q) p was e = find-snoc_some m.bus _ m.mii_devs b p (r.current p (was ∙ e))

pub register-IsRegistry : (m : Mii) (b : Option ℕ) → IsRegistry m → IsRegistry (mdio_register b m).1
unfolding mdio_register miiphy_get_dev_by_name
register-IsRegistry m none r = r
register-IsRegistry m (some b) r = elim (Bool-cases (has_functions (m.bus b))) [
  | inl h ↦ rw h (by_name _ refl h)
  | inr h ↦ rw h r
]
  where
    by_name :
        (o : Option ℕ)
        → miiphy_get_dev_by_name (some (m.bus b).name) m ≡ o
        → has_functions (m.bus b) ≡ true
        → IsRegistry (add_bus b (miiphy_get_dev_by_name (some (m.bus b).name) m) m).1
    by_name none e h = rw e (add_bus-IsRegistry m b h e r)
    by_name (some other) e h = rw e r

pub unregister-IsRegistry :
    (m : Mii) (b : ℕ) → IsRegistry m → IsRegistry (mdio_unregister (some b) m).1
unfolding mdio_unregister
unregister-IsRegistry m b r = record {
  unique = Unique-list_del m.bus m.mii_devs b r.unique;
  callable = Callable-list_del m.bus m.mii_devs b r.callable;
  current = λ p e. current_after m.current_mii p refl e;
}
  where
    current_after :
        (c : Option ℕ) (p : ℕ)
        → m.current_mii ≡ c
        → forget b c ≡ some p
        → find m.bus (m.bus p).name (list_del b m.mii_devs) ≡ some p
    current_after none p was e = cc
    current_after (some q) p was e = elim (forget-cases b q) [
      | inl (same, gone) ↦ cc
      | inr (ne, kept) ↦
          let goal : q ≡ p = cc (kept, e) in
          find-list_del_ne m.bus _ m.mii_devs b p (λ z. ne (goal ∙ sym z))
            (r.current p (was ∙ ap some goal))
    ]

-- Making a registered bus the current one.
pub make_current-IsRegistry :
    (m : Mii) (devname : Option (List ℕ)) (o : Option ℕ)
    → miiphy_get_dev_by_name devname m ≡ o
    → IsRegistry m
    → IsRegistry (make_current o m).1
unfolding miiphy_get_dev_by_name
make_current-IsRegistry m devname none e r = r
make_current-IsRegistry m none (some p) e r = cc
make_current-IsRegistry m (some n) (some p) e r = record {
  unique = r.unique;
  callable = r.callable;
  current = λ q f. let same : p ≡ q = cc f in rw (← same, find-name m.bus n m.mii_devs p e) e;
}

register_named-IsRegistry :
    (ret : ℤ) (b : ℕ) (m : Mii) → IsRegistry m → IsRegistry (register_named ret b m).1
register_named-IsRegistry (pos n) b m r = register-IsRegistry m (some b) r
register_named-IsRegistry (negsuc n) b m r = r

pub mdio_register_seq-IsRegistry :
    (snprintf_eth : ℤ → ℤ × List ℕ) (m : Mii) (b : ℕ) (seq : ℤ)
    → Fresh b m.mii_devs
    → IsRegistry m
    → IsRegistry (mdio_register_seq snprintf_eth b seq m).1
unfolding mdio_register_seq
mdio_register_seq-IsRegistry snprintf_eth m b seq f r =
    register_named-IsRegistry (snprintf_eth seq).0 b _ (put_bus-IsRegistry m b _ f r)

activate-IsRegistry :
    (m : Mii) (devname : List ℕ) → IsRegistry m → IsRegistry (activate devname m).1
unfolding miiphy_set_current_dev
activate-IsRegistry m devname r = by_name (miiphy_get_dev_by_name (some devname) m) refl
  where
    by_name :
        (o : Option ℕ)
        → miiphy_get_dev_by_name (some devname) m ≡ o
        → IsRegistry (active_of_set (make_current o m)).1
    by_name none e = r
    by_name (some p) e = make_current-IsRegistry m (some devname) (some p) e r

active_from-IsRegistry :
    (c : Option ℕ) (m : Mii) (devname : List ℕ)
    → IsRegistry m
    → IsRegistry (active_from c devname m).1
active_from-IsRegistry none m devname r = activate-IsRegistry m devname r
active_from-IsRegistry (some p) m devname r = elim (Bool-cases (same_name (m.bus p).name devname)) [
  | inl e ↦ rw e r
  | inr ne ↦ rw ne (activate-IsRegistry m devname r)
]

pub active-IsRegistry :
    (m : Mii) (devname : List ℕ) → IsRegistry m → IsRegistry (miiphy_get_active_dev devname m).1
unfolding miiphy_get_active_dev
active-IsRegistry m devname r = active_from-IsRegistry m.current_mii m devname r
