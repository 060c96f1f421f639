-- ===== src/Miiphy/Find.antt =====
-- The search for a bus by its name in the list of uboot/miiphyutil.c.
use bsp_v3s.Common.{
  same_name, same_name_self, same_name→≡, same_name_ne, ℕ, Bool-cases, true, false, ◌≡◌, ◌≢◌, refl,
  sym, ap, ◌∙◌, List, [], ◌∷◌, ◌++◌, none, some, ℕ_discrete, ◌⊎◌, inl, inr,
}
use mathlib.Core.Bool.{true≢false}
use mathlib.Core.Path.{subst}
use bsp_v3s.Miiphy.{MiiDev, find, list_del, has_functions}

pub list_del-cases :
    (b q : ℕ) (ps : List ℕ)
    → ((q ≡ b) × (list_del b (q ∷ ps) ≡ ps)) ⊎ ((q ≢ b) × (list_del b (q ∷ ps) ≡ q ∷ list_del b ps))
list_del-cases b q ps =
    elim (ℕ_discrete q b)
      as (λ d.
        ((q ≡ b) × (elim d [ yes _ ↦ ps | no _ ↦ q ∷ list_del b ps ] ≡ ps))
        ⊎ ((q ≢ b) × (elim d [ yes _ ↦ ps | no _ ↦ q ∷ list_del b ps ] ≡ q ∷ list_del b ps))) [
          | yes e ↦ inl (e, refl)
          | no n ↦ inr (n, refl)
        ]

module _ (bus : ℕ → MiiDev) where
  -- No two buses of the list have the same name.
  abbrev pub Unique : List ℕ → Type 0
  Unique [] = Unit {0}
  Unique (p ∷ ps) = (find bus (bus p).name ps ≡ none) × Unique ps

  abbrev pub Callable : List ℕ → Type 0
  Callable [] = Unit {0}
  Callable (p ∷ ps) = (has_functions (bus p) ≡ true) × Callable ps

  pub find_here :
      (n : List ℕ) (p : ℕ) (ps : List ℕ)
      → same_name (bus p).name n ≡ true
      → find bus n (p ∷ ps) ≡ some p
  find_here n p ps e = rw (find, e) refl

  pub find_later :
      (n : List ℕ) (p : ℕ) (ps : List ℕ)
      → same_name (bus p).name n ≡ false
      → find bus n (p ∷ ps) ≡ find bus n ps
  find_later n p ps e = rw (find, e) refl

  -- A bus that is found has the name that was sought.
  pub find-name : (n : List ℕ) (ps : List ℕ) (p : ℕ) → find bus n ps ≡ some p → (bus p).name ≡ n
  find-name n [] p h = cc
  find-name n (q ∷ ps) p h = elim (Bool-cases (same_name (bus q).name n)) [
    | inl e ↦
        let same : q ≡ p = cc (find_here _ q ps e, h) in
        subst (λ z. (bus z).name ≡ n) same (same_name→≡ _ _ e)
    | inr ne ↦ find-name n ps p (sym (find_later _ q ps ne) ∙ h)
  ]

  pub find-snoc_some :
      (n : List ℕ) (ps : List ℕ) (b p : ℕ)
      → find bus n ps ≡ some p
      → find bus n (ps ++ b ∷ []) ≡ some p
  find-snoc_some n [] b p h = cc
  find-snoc_some n (q ∷ ps) b p h = elim (Bool-cases (same_name (bus q).name n)) [
    | inl e ↦ find_here _ q _ e ∙ sym (find_here _ q ps e) ∙ h
    | inr ne ↦ find_later _ q _ ne ∙ find-snoc_some n ps b p (sym (find_later _ q ps ne) ∙ h)
  ]

  -- A bus added at the end is found by its name, where no other was.
  pub find-snoc_self :
      (n : List ℕ) (ps : List ℕ) (b : ℕ)
      → find bus n ps ≡ none
      → (bus b).name ≡ n
      → find bus n (ps ++ b ∷ []) ≡ some b
  find-snoc_self n [] b h e = find_here _ b [] (rw e (same_name_self n))
  find-snoc_self n (q ∷ ps) b h e = elim (Bool-cases (same_name (bus q).name n)) [
    | inl e' ↦ absurd (cc (find_here _ q ps e', h))
    | inr ne ↦ find_later _ q _ ne ∙ find-snoc_self n ps b (sym (find_later _ q ps ne) ∙ h) e
  ]

  -- Under another name, the search finds what it found before.
  pub find-snoc_ne :
      (n : List ℕ) (ps : List ℕ) (b : ℕ)
      → (bus b).name ≢ n
      → find bus n (ps ++ b ∷ []) ≡ find bus n ps
  find-snoc_ne n [] b ne = find_later _ b [] (same_name_ne _ n ne)
  find-snoc_ne n (q ∷ ps) b ne = elim (Bool-cases (same_name (bus q).name n)) [
    | inl e ↦ find_here _ q _ e ∙ sym (find_here _ q ps e)
    | inr ne' ↦ find_later _ q _ ne' ∙ find-snoc_ne n ps b ne ∙ sym (find_later _ q ps ne')
  ]

  pub Unique-snoc :
      (ps : List ℕ) (b : ℕ) → Unique ps → find bus (bus b).name ps ≡ none → Unique (ps ++ b ∷ [])
  Unique-snoc [] b u h = (refl, tt)
  Unique-snoc (q ∷ ps) b u h = elim (Bool-cases (same_name (bus q).name (bus b).name)) [
    | inl e ↦ absurd (cc (find_here _ q ps e, h))
    | inr ne ↦
        let differs : (bus b).name ≢ (bus q).name =
          λ e. true≢false (cc (e, ne, same_name_self (bus b).name)) in
        (
          find-snoc_ne (bus q).name ps b differs ∙ u.0,
          Unique-snoc ps b u.1 (sym (find_later _ q ps ne) ∙ h),
        )
  ]

  pub Callable-snoc :
      (ps : List ℕ) (b : ℕ) → Callable ps → has_functions (bus b) ≡ true → Callable (ps ++ b ∷ [])
  Callable-snoc [] b c h = (h, tt)
  Callable-snoc (q ∷ ps) b c h = (c.0, Callable-snoc ps b c.1 h)

  -- A bus that is found has its functions.
  pub find-Callable :
      (n : List ℕ) (ps : List ℕ) (p : ℕ)
      → Callable ps
      → find bus n ps ≡ some p
      → has_functions (bus p) ≡ true
  find-Callable n [] p c h = cc
  find-Callable n (q ∷ ps) p c h = elim (Bool-cases (same_name (bus q).name n)) [
    | inl e ↦
        let same : q ≡ p = cc (find_here _ q ps e, h) in
        subst (λ z. has_functions (bus z) ≡ true) same c.0
    | inr ne ↦ find-Callable n ps p c.1 (sym (find_later _ q ps ne) ∙ h)
  ]

  -- Removal of a bus. The search for another bus finds it as before.
  pub find-list_del_ne :
      (n : List ℕ) (ps : List ℕ) (b p : ℕ)
      → b ≢ p
      → find bus n ps ≡ some p
      → find bus n (list_del b ps) ≡ some p
  find-list_del_ne n [] b p ne h = cc
  find-list_del_ne n (q ∷ ps) b p ne h = elim (Bool-cases (same_name (bus q).name n)) [
    | inl e ↦
        let same : q ≡ p = cc (find_here _ q ps e, h) in
        elim (list_del-cases b q ps) [
          | inl (f, shorter) ↦ absurd (ne (sym f ∙ same))
          | inr (f, kept) ↦ rw kept (find_here _ q _ e ∙ ap some same)
        ]
    | inr m ↦
        let rest = sym (find_later _ q ps m) ∙ h in
        elim (list_del-cases b q ps) [
          | inl (f, shorter) ↦ rw shorter rest
          | inr (f, kept) ↦ rw kept (find_later _ q _ m ∙ find-list_del_ne n ps b p ne rest)
        ]
  ]

  pub find-list_del-none :
      (n : List ℕ) (ps : List ℕ) (b : ℕ) → find bus n ps ≡ none → find bus n (list_del b ps) ≡ none
  find-list_del-none n [] b h = refl
  find-list_del-none n (q ∷ ps) b h = elim (Bool-cases (same_name (bus q).name n)) [
    | inl e ↦ absurd (cc (find_here _ q ps e, h))
    | inr m ↦
        let rest = sym (find_later _ q ps m) ∙ h in
        elim (list_del-cases b q ps) [
          | inl (f, shorter) ↦ rw shorter rest
          | inr (f, kept) ↦ rw kept (find_later _ q _ m ∙ find-list_del-none n ps b rest)
        ]
  ]

  -- The bus that was found is gone after its removal, as no other has its name.
  pub find-list_del_self :
      (n : List ℕ) (ps : List ℕ) (b : ℕ)
      → Unique ps
      → find bus n ps ≡ some b
      → find bus n (list_del b ps) ≡ none
  find-list_del_self n [] b u h = refl
  find-list_del_self n (q ∷ ps) b u h = elim (Bool-cases (same_name (bus q).name n)) [
    | inl e ↦
        let same : q ≡ b = cc (find_here _ q ps e, h) in
        elim (list_del-cases b q ps) [
          | inl (f, shorter) ↦ rw (shorter, ← same_name→≡ _ _ e) u.0
          | inr (f, kept) ↦ absurd (f same)
        ]
    | inr m ↦
        let rest = sym (find_later _ q ps m) ∙ h in
        elim (list_del-cases b q ps) [
          | inl (f, shorter) ↦
              absurd (true≢false (cc (f, m, same_name_self n, find-name n ps b rest)))
          | inr (f, kept) ↦ rw kept (find_later _ q _ m ∙ find-list_del_self n ps b u.1 rest)
        ]
  ]

  pub Unique-list_del : (ps : List ℕ) (b : ℕ) → Unique ps → Unique (list_del b ps)
  Unique-list_del [] b u = tt
  Unique-list_del (q ∷ ps) b u = elim (list_del-cases b q ps) [
    | inl (f, shorter) ↦ rw shorter u.1
    | inr (f, kept) ↦ rw kept (find-list_del-none (bus q).name ps b u.0, Unique-list_del ps b u.1)
  ]

  pub Callable-list_del : (ps : List ℕ) (b : ℕ) → Callable ps → Callable (list_del b ps)
  Callable-list_del [] b c = tt
  Callable-list_del (q ∷ ps) b c = elim (list_del-cases b q ps) [
    | inl (f, shorter) ↦ rw shorter c.1
    | inr (f, kept) ↦ rw kept (c.0, Callable-list_del ps b c.1)
  ]
