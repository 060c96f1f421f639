-- ===== src/VideoModes/Settings.antt =====
-- video_get_params of uboot/videomodes.c on a text that was made of a list of settings.
use bsp_v3s.Common.{
  ℕ, zero, suc, ◌+◌, ◌≤◌, ◌==◌, ◌≡◌, refl, arith, Bool, true, false, List, [], ◌∷◌, ◌++◌, length,
  length-append, not, ◌&&◌,
}
use mathlib.Core.List.{append-nil, append_assoc}
use bsp_v3s.Word.{u32}
use bsp_v3s.VideoModes.{Text, param_len, skip_sep, advance}
use bsp_v3s.VideoModes.Options.{Without, param_len-append, drop-append}
use bsp_v3s.VideoModes.Values.{StopsAtComma}
use bsp_v3s.VideoModes.Params.{
  Params, Setting, option_name, put, second_loop, get_option, get_options, mode_loop, params_loop,
}

-- name1:digits1,name2:digits2,…
abbrev pub behind : List (Setting × Text) → Text
behind [] = []
behind ((o, d) ∷ os) = b',' ∷ (option_name o ++ (d ++ behind os))

abbrev pub render : List (Setting × Text) → Text
render [] = []
render ((o, d) ∷ os) = option_name o ++ (d ++ behind os)

-- The numbers are written without commas.
abbrev pub Numbers : List (Setting × Text) → Type 0
Numbers [] = Unit {0}
Numbers ((o, d) ∷ os) = Without b',' d × Without 0 d × Numbers os

abbrev pub new_mode : Setting → ℕ → ℕ → ℕ
new_mode Setting.mode v m = v
new_mode o v m = m

module _ (strtoul : Text → ℕ × Text) where
  -- The settings, one after the other: a later one of the same name counts.
  abbrev pub settle : List (Setting × Text) → Params → Params
  settle [] s = s
  settle ((o, d) ∷ os) s = settle os (put o (u32 (strtoul d).0) s)

  -- The last `mode:`, or `m`.
  abbrev pub last_mode : List (Setting × Text) → ℕ → ℕ
  last_mode [] m = m
  last_mode ((o, d) ∷ os) m = last_mode os (new_mode o (u32 (strtoul d).0) m)

  get_options-name :
      (o : Setting) (r : Text) (s : Params)
      → get_options strtoul second_loop (option_name o ++ r) s ≡ put o (u32 (strtoul r).0) s
  get_options-name Setting.x r s = refl
  get_options-name Setting.y r s = refl
  get_options-name Setting.refresh r s = refl
  get_options-name Setting.le r s = refl
  get_options-name Setting.ri r s = refl
  get_options-name Setting.up r s = refl
  get_options-name Setting.lo r s = refl
  get_options-name Setting.hs r s = refl
  get_options-name Setting.vs r s = refl
  get_options-name Setting.sync r s = refl
  get_options-name Setting.vmode r s = refl
  get_options-name Setting.pclk r s = refl
  get_options-name Setting.pclk_khz r s = refl
  get_options-name Setting.depth r s = refl
  get_options-name Setting.mode r s = refl

  get_mode-name :
      (o : Setting) (r : Text) (m : ℕ)
      → get_option strtoul (option_name Setting.mode) (option_name o ++ r) (λ v old. v) m
        ≡ new_mode o (u32 (strtoul r).0) m
  get_mode-name Setting.x r m = refl
  get_mode-name Setting.y r m = refl
  get_mode-name Setting.refresh r m = refl
  get_mode-name Setting.le r m = refl
  get_mode-name Setting.ri r m = refl
  get_mode-name Setting.up r m = refl
  get_mode-name Setting.lo r m = refl
  get_mode-name Setting.hs r m = refl
  get_mode-name Setting.vs r m = refl
  get_mode-name Setting.sync r m = refl
  get_mode-name Setting.vmode r m = refl
  get_mode-name Setting.pclk r m = refl
  get_mode-name Setting.pclk_khz r m = refl
  get_mode-name Setting.depth r m = refl
  get_mode-name Setting.mode r m = refl

-- The text has the character nowhere.
pub free : ℕ → Text → Bool
free c [] = true
free c (x ∷ xs) = not (x == c) && free c xs

pub free→Without : (c : ℕ) (t : Text) → free c t ≡ true → Without c t
unfolding free
free→Without c [] h = tt
free→Without c (x ∷ xs) h = (ground (arith, h), free→Without c xs (ground (arith, h)))

pub names_fit :
    (o : Setting)
    → (free b',' (option_name o) ≡ true)
      × (free 0 (option_name o) ≡ true)
      × (1 ≤ length (option_name o))
unfolding free
names_fit Setting.x = (refl, refl, omega arith)
names_fit Setting.y = (refl, refl, omega arith)
names_fit Setting.refresh = (refl, refl, omega arith)
names_fit Setting.le = (refl, refl, omega arith)
names_fit Setting.ri = (refl, refl, omega arith)
names_fit Setting.up = (refl, refl, omega arith)
names_fit Setting.lo = (refl, refl, omega arith)
names_fit Setting.hs = (refl, refl, omega arith)
names_fit Setting.vs = (refl, refl, omega arith)
names_fit Setting.sync = (refl, refl, omega arith)
names_fit Setting.vmode = (refl, refl, omega arith)
names_fit Setting.pclk = (refl, refl, omega arith)
names_fit Setting.pclk_khz = (refl, refl, omega arith)
names_fit Setting.depth = (refl, refl, omega arith)
names_fit Setting.mode = (refl, refl, omega arith)

item_len :
    (o : Setting) (d : Text) (os : List (Setting × Text))
    → Without b',' d
    → param_len b',' (option_name o ++ (d ++ behind os)) ≡ length (option_name o) + length d
item_len o d os w = omega (
  arith,
  param_len-append (option_name o) (d ++ behind os) (free→Without b',' _ (names_fit o).0),
  param_len-append d (behind os) w,
  ends_here os,
)
  where
    ends_here : (os : List (Setting × Text)) → param_len b',' (behind os) ≡ 0
    ends_here [] = refl
    ends_here ((n, w) ∷ os) = refl

advance_item :
    (o : Setting) (d : Text) (os : List (Setting × Text))
    → advance (length (option_name o) + length d) (option_name o ++ (d ++ behind os)) ≡ render os
advance_item o d os =
    rw
      (← length-append (option_name o) d, ← append_assoc (option_name o) d (behind os), drop-append)
      (skip-behind os)
  where
    skip-behind : (os : List (Setting × Text)) → skip_sep (behind os) ≡ render os
    skip-behind [] = refl
    skip-behind ((n, v) ∷ os) = refl

positive : (o : Setting) (d : Text) → (length (option_name o) + length d == 0) ≡ false
positive o d = ground (arith, (names_fit o).2)

module _ (strtoul : Text → ℕ × Text) (stops : StopsAtComma strtoul) where
  number : (d : Text) (os : List (Setting × Text)) → (strtoul (d ++ behind os)).0 ≡ (strtoul d).0
  number d [] = rw append-nil refl
  number d ((o, e) ∷ os) = stops d _

  pub params_loop-settle :
      (fuel : ℕ) (os : List (Setting × Text)) (s : Params)
      → length os ≤ fuel
      → Numbers os
      → params_loop strtoul fuel (render os) s ≡ settle strtoul os s
  unfolding params_loop
  params_loop-settle zero [] s le c = refl
  params_loop-settle (suc fuel) [] s le c = refl
  params_loop-settle zero (o ∷ os) s le c = absurd (omega arith)
  params_loop-settle (suc fuel) ((o, d) ∷ os) s le (w, z, c) =
      rw
        (
          item_len o d os w,
          positive o d,
          advance_item o d os,
          get_options-name strtoul o (d ++ behind os) s,
          number d os,
        )
        (params_loop-settle fuel os _ (omega arith) c)

  pub mode_loop-last :
      (fuel : ℕ) (os : List (Setting × Text)) (m : ℕ)
      → length os ≤ fuel
      → Numbers os
      → mode_loop strtoul fuel (render os) m ≡ last_mode strtoul os m
  unfolding mode_loop
  mode_loop-last zero [] m le c = refl
  mode_loop-last (suc fuel) [] m le c = refl
  mode_loop-last zero (o ∷ os) m le c = absurd (omega arith)
  mode_loop-last (suc fuel) ((o, d) ∷ os) m le (w, z, c) =
      rw
        (
          item_len o d os w,
          positive o d,
          advance_item o d os,
          get_mode-name strtoul o (d ++ behind os) m,
          number d os,
        )
        (mode_loop-last fuel os _ (omega arith) c)
