-- ===== src/Miiphy/Safe.antt =====
-- The PHY access of uboot/miiphyutil.c as a whole: in a well-formed registry every function returns.
use bsp_v3s.Common.{
  ℕ, zero, suc, ◌+◌, ◌*◌, ◌/◌, ◌%◌, ◌^◌, ◌<◌, ◌==◌, Bool, true, false, ◌≡◌, refl, arith, List,
  Option, none, some, inl, inr, ℤ, pos, negsuc, bit_or,
}
use bsp_v3s.Word.{shl32}
use bsp_v3s.Word.Pack.{bit_or-disjoint}
use bsp_v3s.Word.Field.{bit_and-low_mask}
use bsp_v3s.Phy.{has, mii_bmcr, mii_bmsr, mii_physid1, mii_physid2, mii_advertise, mii_lpa}
use bsp_v3s.Miiphy.Registry.{IsRegistry, make_current-IsRegistry}
use bsp_v3s.Miiphy.Access.{
  World, Op, pure, ◌>>=◌, udelay, id_fields, miiphy_read, miiphy_write, miiphy_info, miiphy_reset,
  reset_polls, reset_started, by_bmcr, miiphy_speed, miiphy_duplex, miiphy_link,
}
use bsp_v3s.Miiphy.Read.{miiphy_read_lem, miiphy_write_lem}

-- The operation returns from every world with a well-formed registry, and leaves one.
abbrev pub Returns : {A : Type 0} → Op A → World → Type 0
Returns {A} op w = (a : A) × (v : World) × (op w ≡ some (a, v)) × IsRegistry v.mii

Safe : {A : Type 0} → Op A → Type 0
Safe op = (w : World) → IsRegistry w.mii → Returns op w

pure-Safe : {A : Type 0} (a : A) → Safe (pure a)
unfolding Safe
pure-Safe a w r = (a, w, refl, r)

bind-Safe :
    {A B : Type 0} (m : Op A) (f : A → Op B) → Safe m → ((a : A) → Safe (f a)) → Safe (m >>= f)
unfolding Safe
bind-Safe m f sm sf w r =
    let (a, v, e, q) = sm w r in let (b, u, e', q') = sf a v q in (b, u, rw (◌>>=◌, e) e', q')

udelay-Safe : (n : ℕ) → Safe (udelay n)
unfolding Safe
udelay-Safe n w r = (tt, _, refl, r)

read-Safe : (devname : List ℕ) (addr reg : ℕ) → Safe (miiphy_read devname addr reg)
unfolding Safe
read-Safe devname addr reg w r = elim (miiphy_read_lem devname addr reg w r) [
  | inl (missing, e) ↦ (_, _, e, r)
  | inr (p, read, found, f, e) ↦
      (_, _, e, make_current-IsRegistry w.mii (some devname) (some p) found r)
]

write-Safe : (devname : List ℕ) (addr reg value : ℕ) → Safe (miiphy_write devname addr reg value)
unfolding Safe
write-Safe devname addr reg value w r = elim (miiphy_write_lem devname addr reg value w r) [
  | inl (missing, e) ↦ (_, _, e, r)
  | inr (p, write, found, f, e) ↦
      (_, _, e, make_current-IsRegistry w.mii (some devname) (some p) found r)
]

option-Safe :
    {B : Type 0} (o : Option ℕ) (x : Op B) (f : ℕ → Op B)
    → Safe x
    → ((v : ℕ) → Safe (f v))
    → Safe (elim o [ none ↦ x | some v ↦ f v ])
option-Safe none x f sx sf = sx
option-Safe (some v) x f sx sf = sf v

test-Safe :
    {B : Type 0} (t : Bool) (x y : Op B) → Safe x → Safe y → Safe (elim t [ false ↦ x | true ↦ y ])
test-Safe false x y sx sy = sx
test-Safe true x y sx sy = sy

module _ (devname : List ℕ) (addr : ℕ) where
  polls-Safe : (timeout reg : ℕ) → Safe (reset_polls devname addr timeout reg)
  unfolding reset_polls
  polls-Safe zero reg = pure-Safe (some reg)
  polls-Safe (suc timeout) reg = test-Safe (has reg 0x8000) _ _ (pure-Safe (some reg)) (
      bind-Safe _ _ (read-Safe devname addr mii_bmcr) (λ r.
        option-Safe r _ _ (pure-Safe none)
          (λ v. bind-Safe _ _ (udelay-Safe 1000) (λ u. polls-Safe timeout v))))

  started-Safe : (ret : ℤ) → Safe (reset_started devname addr ret)
  started-Safe (pos zero) =
      bind-Safe _ _ (polls-Safe 500 0x8000)
        (λ r. option-Safe r _ _ (pure-Safe (negsuc 0)) (λ v. pure-Safe _))
  started-Safe (pos (suc n)) = pure-Safe (negsuc 0)
  started-Safe (negsuc n) = pure-Safe (negsuc 0)

  reset-Safe : Safe (miiphy_reset devname addr)
  unfolding miiphy_reset
  reset-Safe = bind-Safe _ _ (read-Safe devname addr mii_bmcr) (λ r.
      option-Safe r _ _ (pure-Safe (negsuc 0))
        (λ reg. bind-Safe _ _ (write-Safe devname addr mii_bmcr (bit_or reg 0x8000)) started-Safe))

  info-Safe : Safe (miiphy_info devname addr)
  unfolding miiphy_info
  info-Safe = bind-Safe _ _ (read-Safe devname addr mii_physid2) (λ r.
      option-Safe r _ _ (pure-Safe none) (λ low.
        test-Safe (low == 0xffff) _ _
          (bind-Safe _ _ (read-Safe devname addr mii_physid1)
            (λ q. option-Safe q _ _ (pure-Safe none) (λ high. pure-Safe _)))
          (pure-Safe none)))

  bmcr-Safe :
      (assumed chosen negotiated forced : ℕ)
      → Safe (by_bmcr devname addr assumed chosen negotiated forced)
  unfolding by_bmcr
  bmcr-Safe assumed chosen negotiated forced = bind-Safe _ _ (read-Safe devname addr mii_bmcr) (λ r.
      option-Safe r _ _ (pure-Safe assumed) (λ bmcr. test-Safe (has bmcr 0x1000) _ _ (pure-Safe _) (
        bind-Safe _ _ (read-Safe devname addr mii_lpa) (λ l.
          option-Safe l _ _ (pure-Safe assumed) (λ anlpar.
            bind-Safe _ _ (read-Safe devname addr mii_advertise)
              (λ a. option-Safe a _ _ (pure-Safe assumed) (λ adv. pure-Safe _)))))))

  link-Safe : Safe (miiphy_link devname addr)
  unfolding miiphy_link
  link-Safe = bind-Safe _ _ (read-Safe devname addr mii_bmsr) (λ latch.
      bind-Safe _ _ (read-Safe devname addr mii_bmsr)
        (λ r. option-Safe r _ _ (pure-Safe 0) (λ reg. pure-Safe _)))

-- In a well-formed registry, whatever the name, the bus and the device do, miiphy_reset, miiphy_info,
-- miiphy_speed, miiphy_duplex and miiphy_link return, without a
-- call through a null pointer, and leave the registry well formed.
pub access-Returns :
    (devname : List ℕ) (addr : ℕ) (w : World)
    → IsRegistry w.mii
    → Returns (miiphy_reset devname addr) w
      × Returns (miiphy_info devname addr) w
      × Returns (miiphy_speed devname addr) w
      × Returns (miiphy_duplex devname addr) w
      × Returns (miiphy_link devname addr) w
unfolding Safe
access-Returns devname addr w r = (
  reset-Safe devname addr w r,
  info-Safe devname addr w r,
  bmcr-Safe devname addr 10 100 0x380 0x2000 w r,
  bmcr-Safe devname addr 22 44 0x140 0x100 w r,
  link-Safe devname addr w r,
)

-- The fields that miiphy_info takes from the two identifier registers are in range, and make up the two
-- registers.
pub id_fields-whole :
    (low high : ℕ)
    → low < 2 ^ 16
    → high < 2 ^ 16
    → (oui : ℕ) × (model : ℕ) × (rev : ℕ) × (id_fields (bit_or low (shl32 high 16))
        ≡ (oui, model, rev))
      × (oui < 2 ^ 22)
      × (model < 2 ^ 6)
      × (rev < 2 ^ 4)
      × (oui * 2 ^ 10 + model * 2 ^ 4 + rev ≡ high * 2 ^ 16 + low)
id_fields-whole low high l h =
    let whole : bit_or low (shl32 high 16) ≡ low + high * 2 ^ 16 =
      rw (fits) (bit_or-disjoint 16 low high l) in
    let reg = low + high * 2 ^ 16 in
    (
      reg / 2 ^ 10,
      reg / 2 ^ 4 % 2 ^ 6,
      reg % 2 ^ 4,
      rw (whole, bit_and-low_mask 6 (reg / 2 ^ 4), bit_and-low_mask 4 reg) refl,
      omega arith,
      omega arith,
      omega arith,
      omega arith,
    )
  where
    fits : shl32 high 16 ≡ high * 2 ^ 16
    fits = omega arith
