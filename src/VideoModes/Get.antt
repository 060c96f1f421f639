-- ===== src/VideoModes/Get.antt =====
-- What video_get_params of uboot/videomodes.c returns for a text of settings.
use bsp_v3s.Common.{
  ℕ, zero, suc, ◌+◌, ◌^◌, ◌≤◌, ◌<◌, ◌≡◌, refl, ap, ◌∙◌, arith, List, [], ◌∷◌, ◌++◌, Option, none,
  some, length, length-append,
}
use bsp_v3s.Word.{u32}
use bsp_v3s.VideoModes.{Text, after}
use bsp_v3s.VideoModes.Options.{Without}
use bsp_v3s.VideoModes.Values.{StopsAtComma}
use bsp_v3s.VideoModes.Params.{
  Params, Setting, option_name, default_of, video_ctfb, options_start, options_at, c_string,
  search_from, video_search_param, params_from, params_of, chosen, video_get_params,
}
use bsp_v3s.VideoModes.Settings.{
  behind, render, Numbers, settle, last_mode, free→Without, names_fit, params_loop-settle,
  mode_loop-last,
}

length-behind : (os : List (Setting × Text)) → length os ≤ length (behind os)
length-behind [] = omega arith
length-behind ((o, d) ∷ os) = omega (
  arith,
  length-behind os,
  length-append (option_name o) (d ++ behind os),
  length-append d (behind os),
)

length-render : (os : List (Setting × Text)) → length os ≤ length (render os)
length-render [] = omega arith
length-render ((o, d) ∷ os) = omega (
  arith,
  (names_fit o).2,
  length-behind os,
  length-append (option_name o) (d ++ behind os),
  length-append d (behind os),
)

Without-append : (c : ℕ) (t r : Text) → Without c t → Without c r → Without c (t ++ r)
Without-append c [] r wt wr = wr
Without-append c (x ∷ t) r wt wr = (wt.0, Without-append c t r wt.1 wr)

behind_text : (os : List (Setting × Text)) → Numbers os → Without 0 (behind os)
behind_text [] c = tt
behind_text ((o, d) ∷ os) (w, z, c) = (
  omega arith,
  Without-append 0 (option_name o) _ (free→Without 0 _ (names_fit o).1)
      (Without-append 0 d _ z (behind_text os c)),
)

render_text : (os : List (Setting × Text)) → Numbers os → Without 0 (render os)
render_text [] c = tt
render_text ((o, d) ∷ os) c = (behind_text ((o, d) ∷ os) c).1

-- A text ends at the NUL behind it.
c_string-append : (t r : Text) → Without 0 t → c_string (t ++ (0 ∷ r)) ≡ t
c_string-append [] r w = refl
c_string-append (c ∷ t) r w = ground (arith, w.0, c_string-append t r w.1)

search_at_once :
    (n i : ℕ) (param p r : Text) → 0 < n → after param p ≡ some r → search_from n i param p ≡ some i
search_at_once zero i param p r lt e = absurd (omega arith)
search_at_once (suc n) i param p r lt e = rw (search_from, e) refl

start_of_options : (t beyond : Text) → Without 0 t → options_start (video_ctfb ++ t) beyond ≡ t
unfolding video_search_param
start_of_options t beyond w =
    ap (λ (o : Option ℕ). options_at o (video_ctfb ++ t) beyond)
      (search_at_once (length video_ctfb + length (video_ctfb ++ t)) 0 video_ctfb
        (video_ctfb ++ (t ++ (0 ∷ beyond))) (t ++ (0 ∷ beyond)) (omega arith) refl)
    ∙ c_string-append t beyond w

module _ (strtoul : Text → ℕ × Text) (getenv : Text → Option Text) (beyond : Text) where
  -- The settings put over the mode that was found.
  abbrev pub over : List (Setting × Text) → Option Params → Option Params
  over os none = none
  over os (some d) = some (settle strtoul os d)

  -- Let the text, the value of the variable that is named or else the name itself, be video=ctfb: and
  -- then settings name:number, in any order and as often as one likes, with commas between. The
  -- result is the mode of the last `mode:`, or mode 0 without one or with one above 9, and over it
  -- each setting, the last of a name counting; there is none, the table being read out of range,
  -- if the number of the last `mode:` is negative as an int. Numbers are written without a comma,
  -- which ends a number.
  pub video_get_params-over :
      (os : List (Setting × Text)) (penv : Text)
      → StopsAtComma strtoul
      → Numbers os
      → chosen strtoul getenv beyond penv (getenv penv) ≡ video_ctfb ++ render os
      → video_get_params strtoul getenv beyond penv ≡ over os (default_of (last_mode strtoul os 0))
  unfolding video_get_params
  video_get_params-over os penv stops c e =
      ap (λ (t : Text). params_of strtoul (options_start t beyond)) e
      ∙ ap (params_of strtoul) (start_of_options (render os) beyond (render_text os c))
      ∙ read
    where
      found : (o : Option Params) → params_from strtoul (render os) o ≡ over os o
      found none = refl
      found (some d) =
          ap some (params_loop-settle strtoul stops (length (render os)) os d (length-render os) c)

      read : params_of strtoul (render os) ≡ over os (default_of (last_mode strtoul os 0))
      read =
          ap (λ (m : ℕ). params_from strtoul (render os) (default_of m))
            (mode_loop-last strtoul stops (length (render os)) os 0 (length-render os) c)
          ∙ found (default_of (last_mode strtoul os 0))

-- Every variable, written out by `print`.
abbrev pub all_settings : (ℕ → Text) → Params → List (Setting × Text)
all_settings print s =
    (Setting.x, print s.par.xres)
    ∷ (Setting.y, print s.par.yres)
    ∷ (Setting.refresh, print s.par.refresh)
    ∷ (Setting.pclk, print s.par.pixclock)
    ∷ (Setting.pclk_khz, print s.par.pixclock_khz)
    ∷ (Setting.le, print s.par.left_margin)
    ∷ (Setting.ri, print s.par.right_margin)
    ∷ (Setting.up, print s.par.upper_margin)
    ∷ (Setting.lo, print s.par.lower_margin)
    ∷ (Setting.hs, print s.par.hsync_len)
    ∷ (Setting.vs, print s.par.vsync_len)
    ∷ (Setting.sync, print s.par.sync)
    ∷ (Setting.vmode, print s.par.vmode)
    ∷ (Setting.depth, print s.bpp)
    ∷ []

module _ (strtoul : Text → ℕ × Text) (print : ℕ → Text) where
  -- A 32-bit word that strtoul reads back from its text, which has neither a comma nor a NUL.
  abbrev pub Printed : ℕ → Type 0
  Printed n =
      (n < 2 ^ 32) × ((strtoul (print n)).0 ≡ n) × Without b',' (print n) × Without 0 (print n)

  abbrev pub AllPrinted : Params → Type 0
  AllPrinted s =
      Printed s.par.xres
      × Printed s.par.yres
      × Printed s.par.refresh
      × Printed s.par.pixclock
      × Printed s.par.pixclock_khz
      × Printed s.par.left_margin
      × Printed s.par.right_margin
      × Printed s.par.upper_margin
      × Printed s.par.lower_margin
      × Printed s.par.hsync_len
      × Printed s.par.vsync_len
      × Printed s.par.sync
      × Printed s.par.vmode
      × Printed s.bpp

module _ (strtoul : Text → ℕ × Text) (getenv : Text → Option Text) (beyond : Text) where
  -- A mode and a depth that are written out, every variable by its option, are read back the same,
  -- when each is a 32-bit word whose text strtoul reads back.
  pub video_get_params-print :
      (print : ℕ → Text) (s : Params) (penv : Text)
      → StopsAtComma strtoul
      → AllPrinted strtoul print s
      → getenv penv ≡ some (video_ctfb ++ render (all_settings print s))
      → video_get_params strtoul getenv beyond penv ≡ some s
  video_get_params-print print s penv stops
        (p0, p1, p2, p3, p4, p5, p6, p7, p8, p9, p10, p11, p12, p13) e =
      video_get_params-over strtoul getenv beyond (all_settings print s) penv stops
        (also _ _ p0 (
          also _ _ p1 (
            also _ _ p2 (
              also _ _ p3 (
                also _ _ p4 (
                  also _ _ p5 (
                    also _ _ p6 (
                      also _ _ p7 (
                        also _ _ p8 (
                          also _ _ p9
                            (also _ _ p10 (also _ _ p11 (also _ _ p12 (also _ _ p13 tt))))))))))))))
        (ap (chosen strtoul getenv beyond penv) e)
      ∙ rw
          (
            reads _ p0,
            reads _ p1,
            reads _ p2,
            reads _ p3,
            reads _ p4,
            reads _ p5,
            reads _ p6,
            reads _ p7,
            reads _ p8,
            reads _ p9,
            reads _ p10,
            reads _ p11,
            reads _ p12,
            reads _ p13,
          )
          refl
    where
      reads : (n : ℕ) → Printed strtoul print n → u32 (strtoul (print n)).0 ≡ n
      reads n p = ap u32 p.1 ∙ omega (arith, p.0)

      also :
          (n : ℕ) (C : Type 0)
          → Printed strtoul print n
          → C
          → Without b',' (print n) × Without 0 (print n) × C
      also n C p c = (p.2, p.3, c)
