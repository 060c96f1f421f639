-- ===== src/VideoModes/Text.antt =====
-- The variable video-mode of uboot/videomodes.c, written out and read back.
use bsp_v3s.Common.{
  ℕ, zero, suc, ◌^◌, ◌<◌, ◌==◌, ◌≡◌, refl, ap, ◌∙◌, arith, false, [], ◌∷◌, ◌++◌, Option, none, some,
  get_elem?,
}
use bsp_v3s.Word.{u32}
use bsp_v3s.VideoModes.{Text, ResModes, res_mode_init}
use mathlib.Core.Path.{subst}
use bsp_v3s.VideoModes.Options.{Without}
use bsp_v3s.VideoModes.Find.{
  is_digit, to_digit, strchr, find_mode, next_number, after_colon, choose, in_table,
  video_get_video_mode, video_get_ctfb_res_modes,
}

module _ (strtoul : Text → ℕ × Text) where
  -- A text that starts with a digit, and is read as this number, not 0, up to the character behind it.
  abbrev pub Numeral : Text → ℕ → Type 0
  Numeral d n =
      ((r : Text) → to_digit (d ++ r) ≡ d ++ r)
      × ((c : ℕ) (r : Text) → is_digit c ≡ false → strtoul (d ++ (c ∷ r)) ≡ (n, c ∷ r))
      × (strtoul (d ++ []) ≡ (n, []))
      × (0 < n)
      × (n < 2 ^ 32)

  -- The end of the text: with options, or without.
  abbrev pub rest_of : Option Text → Text
  rest_of none = []
  rest_of (some o) = b',' ∷ o

  number_at :
      (d : Text) (n c : ℕ) (r : Text)
      → Numeral d n
      → is_digit c ≡ false
      → next_number strtoul (d ++ (c ∷ r)) ≡ some (n, c ∷ r)
  number_at d n c r (starts, reads, whole, pos, lt) e =
      let word : u32 n ≡ n = omega arith in
      let nonzero : (n == 0) ≡ false = ground (arith, pos) in
      rw (starts (c ∷ r), reads c r e, word, nonzero) refl

  skipped : (c : ℕ) (p : Text) → is_digit c ≡ false → to_digit (c ∷ p) ≡ to_digit p
  skipped c p e = rw e refl

  strchr-append : (c : ℕ) (t r : Text) → Without c t → strchr c (t ++ (c ∷ r)) ≡ some r
  strchr-append c [] r w = ground arith
  strchr-append c (x ∷ t) r w = ground (arith, w.0, strchr-append c t r w.1)

  next_skip :
      (s : ℕ) (p : Text) → is_digit s ≡ false → next_number strtoul (s ∷ p) ≡ next_number strtoul p
  next_skip s p e = rw (skipped s p e) refl

  last_number :
      (d : Text) (n : ℕ) (o : Option Text)
      → Numeral d n
      → next_number strtoul (d ++ rest_of o) ≡ some (n, rest_of o)
  last_number d n (some o) numeral = number_at d n b',' o numeral refl
  last_number d n none (starts, reads, whole, pos, lt) =
      let word : u32 n ≡ n = omega arith in
      let nonzero : (n == 0) ≡ false = ground (arith, pos) in
      rw (starts [], whole, word, nonzero) refl

  strchr-rest_of : (o : Option Text) → strchr b',' (rest_of o) ≡ o
  strchr-rest_of none = refl
  strchr-rest_of (some o) = refl

  -- name:XxY-D@F,options, the name without a colon
  abbrev pub mode_text : Text → Text → Text → Text → Text → Option Text → Text
  mode_text name dx dy dd df o =
      name ++ (b':' ∷ (dx ++ (b'x' ∷ (dy ++ (b'-' ∷ (dd ++ (b'@' ∷ (df ++ rest_of o))))))))

  module _ (name dx dy dd df : Text) (x y depth freq : ℕ) (o : Option Text)
      (colon : Without b':' name) (nx : Numeral dx x) (ny : Numeral dy y) (nd : Numeral dd depth)
      (nf : Numeral df freq) where
    -- A text name:XxY-D@F, with options behind a comma or without, is read back as its four numbers and
    -- its options, when the name has no colon and the numbers are positive words that strtoul
    -- reads up to the next character.
    pub video_mode-text :
        video_get_video_mode strtoul (some (mode_text name dx dy dd df o))
        ≡ some (record { xres = x; yres = y; depth = depth; freq = freq; options = o })
    unfolding video_get_video_mode
    video_mode-text =
        ap (after_colon strtoul) (strchr-append b':' name _ colon)
        ∙ rw
            (
              number_at dx x b'x' _ nx refl,
              next_skip b'x' (dy ++ (b'-' ∷ (dd ++ (b'@' ∷ (df ++ rest_of o))))) refl,
              number_at dy y b'-' _ ny refl,
              next_skip b'-' (dd ++ (b'@' ∷ (df ++ rest_of o))) refl,
              number_at dd depth b'@' _ nd refl,
              next_skip b'@' (df ++ rest_of o) refl,
              last_number df freq o nf,
              strchr-rest_of o,
            )
            refl

abbrev Finds : ResModes → Type 0
Finds m = find_mode m.xres m.yres m.refresh res_mode_init ≡ some m

some_inj : (a b : ResModes) → some a ≡ some b → a ≡ b
some_inj a b e = cc

found : (a b : ResModes) → some a ≡ some b → Finds a → Finds b
found a b e f = subst Finds (some_inj a b e) f

-- No two modes of the table have the same size and rate.
find_mode_self :
    (i : ℕ) (m : ResModes)
    → get_elem? res_mode_init i ≡ some m
    → find_mode m.xres m.yres m.refresh res_mode_init ≡ some m
find_mode_self zero m e = found _ m e refl
find_mode_self (suc zero) m e = found _ m e refl
find_mode_self (suc (suc zero)) m e = found _ m e refl
find_mode_self (suc (suc (suc zero))) m e = found _ m e refl
find_mode_self (suc (suc (suc (suc zero)))) m e = found _ m e refl
find_mode_self (suc (suc (suc (suc (suc zero))))) m e = found _ m e refl
find_mode_self (suc (suc (suc (suc (suc (suc zero)))))) m e = found _ m e refl
find_mode_self (suc (suc (suc (suc (suc (suc (suc zero))))))) m e = found _ m e refl
find_mode_self (suc (suc (suc (suc (suc (suc (suc (suc zero)))))))) m e = found _ m e refl
find_mode_self (suc (suc (suc (suc (suc (suc (suc (suc (suc zero))))))))) m e = found _ m e refl
find_mode_self (suc (suc (suc (suc (suc (suc (suc (suc (suc (suc i)))))))))) m e = cc

module _ (strtoul : Text → ℕ × Text) where
  -- A text name:XxY-D@F that gives the size and the rate of a mode of the table is answered with that
  -- mode, whatever the default, with the depth of the text and its options.
  pub ctfb_res_modes-text :
      (name dx dy dd df : Text) (i : ℕ) (m : ResModes) (depth : ℕ) (o : Option Text)
      → (default_mode default_depth : ℕ) → get_elem? res_mode_init i ≡ some m
      → Without b':' name
      → Numeral strtoul dx m.xres
      → Numeral strtoul dy m.yres
      → Numeral strtoul dd depth
      → Numeral strtoul df m.refresh
      → video_get_ctfb_res_modes strtoul default_mode default_depth
          (some (mode_text strtoul name dx dy dd df o))
        ≡ record { mode_ret = some m; depth_ret = depth; options = o }
  unfolding video_get_ctfb_res_modes
  ctfb_res_modes-text name dx dy dd df i m depth o default_mode default_depth e colon nx ny nd nf =
      ap (choose strtoul (get_elem? res_mode_init default_mode) default_depth)
        (video_mode-text strtoul name dx dy dd df m.xres m.yres depth m.refresh o colon nx ny nd nf)
      ∙ ap
          (in_table strtoul (get_elem? res_mode_init default_mode) default_depth
            (record { xres = m.xres; yres = m.yres; depth = depth; freq = m.refresh; options = o }))
          (find_mode_self i m e)
