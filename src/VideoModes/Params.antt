-- ===== src/VideoModes/Params.antt =====
-- video_get_params of uboot/videomodes.c: a mode, with the settings of a text of options put over it.
-- `getenv` is the environment's, and `beyond` what memory holds behind the text, which
-- video_search_param goes on into.
use bsp_v3s.Common.{
  ℕ, zero, suc, ◌+◌, ◌-◌, ◌*◌, ◌%◌, ◌^◌, ◌==◌, leb, if◌then◌else◌, List, [], ◌∷◌, ◌++◌, Option,
  none, some, length, drop, get_elem?,
}
use bsp_v3s.Word.{u32}
use bsp_v3s.VideoModes.{Text, ResModes, res_mode_init, param_len, after, advance}

-- strlen of the text behind a NUL's place: the text up to the NUL.
abbrev pub c_string : Text → Text
c_string [] = []
c_string (c ∷ cs) = let rest = c_string cs in if c == 0 then [] else c ∷ rest

abbrev pub search_from : ℕ → ℕ → Text → Text → Option ℕ
search_from zero i param p = none
search_from (suc n) i param p =
    let later = search_from n (i + 1) param (drop 1 p) in
    elim (after param p) [ some rest ↦ some i | none ↦ later ]

-- The index, or none for -1.
unfoldable pub video_search_param : Text → Text → Text → Option ℕ
video_search_param start beyond param =
    search_from (length param + length start) 0 param (start ++ (0 ∷ beyond))

-- What the options set: the mode, and the depth.
pub record Params : Type 0 where
  pub par : ResModes
  pub bpp : ℕ

-- The options, in the order of the code, with the one of the first loop.
pub data Setting : Type 0 where
  x : Setting
  y : Setting
  refresh : Setting
  le : Setting
  ri : Setting
  up : Setting
  lo : Setting
  hs : Setting
  vs : Setting
  sync : Setting
  vmode : Setting
  pclk : Setting
  pclk_khz : Setting
  depth : Setting
  mode : Setting

-- `x:`, `y:`, `refresh:`, `le:`, `ri:`, `up:`, `lo:`, `hs:`, `vs:`, `sync:`, `vmode:`, `pclk:`,
-- `pclk_khz:`, `depth:` and `mode:`
abbrev pub option_name : Setting → Text
option_name Setting.x = b'x' ∷ b':' ∷ []
option_name Setting.y = b'y' ∷ b':' ∷ []
option_name Setting.refresh = b'r' ∷ b'e' ∷ b'f' ∷ b'r' ∷ b'e' ∷ b's' ∷ b'h' ∷ b':' ∷ []
option_name Setting.le = b'l' ∷ b'e' ∷ b':' ∷ []
option_name Setting.ri = b'r' ∷ b'i' ∷ b':' ∷ []
option_name Setting.up = b'u' ∷ b'p' ∷ b':' ∷ []
option_name Setting.lo = b'l' ∷ b'o' ∷ b':' ∷ []
option_name Setting.hs = b'h' ∷ b's' ∷ b':' ∷ []
option_name Setting.vs = b'v' ∷ b's' ∷ b':' ∷ []
option_name Setting.sync = b's' ∷ b'y' ∷ b'n' ∷ b'c' ∷ b':' ∷ []
option_name Setting.vmode = b'v' ∷ b'm' ∷ b'o' ∷ b'd' ∷ b'e' ∷ b':' ∷ []
option_name Setting.pclk = b'p' ∷ b'c' ∷ b'l' ∷ b'k' ∷ b':' ∷ []
option_name Setting.pclk_khz = b'p' ∷ b'c' ∷ b'l' ∷ b'k' ∷ b'_' ∷ b'k' ∷ b'h' ∷ b'z' ∷ b':' ∷ []
option_name Setting.depth = b'd' ∷ b'e' ∷ b'p' ∷ b't' ∷ b'h' ∷ b':' ∷ []
option_name Setting.mode = b'm' ∷ b'o' ∷ b'd' ∷ b'e' ∷ b':' ∷ []

-- The variable that an option of the second loop sets; `mode:` is none of them.
abbrev pub put : Setting → ℕ → Params → Params
put Setting.x v s = record s { par = record s.par { xres = v } }
put Setting.y v s = record s { par = record s.par { yres = v } }
put Setting.refresh v s = record s { par = record s.par { refresh = v } }
put Setting.le v s = record s { par = record s.par { left_margin = v } }
put Setting.ri v s = record s { par = record s.par { right_margin = v } }
put Setting.up v s = record s { par = record s.par { upper_margin = v } }
put Setting.lo v s = record s { par = record s.par { lower_margin = v } }
put Setting.hs v s = record s { par = record s.par { hsync_len = v } }
put Setting.vs v s = record s { par = record s.par { vsync_len = v } }
put Setting.sync v s = record s { par = record s.par { sync = v } }
put Setting.vmode v s = record s { par = record s.par { vmode = v } }
put Setting.pclk v s = record s { par = record s.par { pixclock = v } }
put Setting.pclk_khz v s = record s { par = record s.par { pixclock_khz = v } }
put Setting.depth v s = record s { bpp = v }
put Setting.mode v s = s

abbrev pub second_loop : List Setting
second_loop =
    Setting.x ∷ Setting.y ∷ Setting.refresh ∷ Setting.le ∷ Setting.ri ∷ Setting.up ∷ Setting.lo
    ∷ Setting.hs ∷ Setting.vs ∷ Setting.sync ∷ Setting.vmode ∷ Setting.pclk ∷ Setting.pclk_khz
    ∷ Setting.depth ∷ []

-- The mode whose values are the default: none for a negative `mode`, for which the table is read
-- before its start.
abbrev pub default_of : ℕ → Option Params
default_of m =
    let index = if leb 10 m then 0 else m in
    if leb (2 ^ 31) m then none else elim (get_elem? res_mode_init index) [
      | none ↦ none
      | some par ↦ some (record { par = par; bpp = 24 - index % 3 * 8 })
    ]

-- "video=ctfb:"
abbrev pub video_ctfb : Text
video_ctfb = b'v' ∷ b'i' ∷ b'd' ∷ b'e' ∷ b'o' ∷ b'=' ∷ b'c' ∷ b't' ∷ b'f' ∷ b'b' ∷ b':' ∷ []

abbrev pub options_at : Option ℕ → Text → Text → Text
options_at none s beyond = s
options_at (some i) s beyond = c_string (drop (i + 11) (s ++ (0 ∷ beyond)))

-- The text that the options are read from.
abbrev pub options_start : Text → Text → Text
options_start s beyond = options_at (video_search_param s beyond video_ctfb) s beyond

module _ (strtoul : Text → ℕ × Text) where
  -- GET_OPTION
  abbrev pub get_option : {A : Type 0} → Text → Text → (ℕ → A → A) → A → A
  get_option name p set s = elim (after name p) [
    | none ↦ s
    | some val_s ↦ set (u32 (strtoul val_s).0) s
  ]

  unfoldable pub mode_loop : ℕ → Text → ℕ → ℕ
  mode_loop zero p m = m
  mode_loop (suc fuel) p m =
      let i = param_len b',' p in
      let rest =
        mode_loop fuel (advance i p) (get_option (option_name Setting.mode) p (λ v old. v) m) in
      if i == 0 then m else rest

  abbrev pub get_options : List Setting → Text → Params → Params
  get_options [] p s = s
  get_options (o ∷ os) p s = get_options os p (get_option (option_name o) p (put o) s)

  unfoldable pub params_loop : ℕ → Text → Params → Params
  params_loop zero p s = s
  params_loop (suc fuel) p s =
      let i = param_len b',' p in
      let rest = params_loop fuel (advance i p) (get_options second_loop p s) in
      if i == 0 then s else rest

  -- The second loop, over the defaults.
  abbrev pub params_from : Text → Option Params → Option Params
  params_from s none = none
  params_from s (some d) = some (params_loop (length s) s d)

  abbrev pub params_of : Text → Option Params
  params_of s = params_from s (default_of (mode_loop (length s) s 0))

  module _ (getenv : Text → Option Text) (beyond : Text) where
    abbrev pub chosen : Text → Option Text → Text
    chosen penv none = penv
    chosen penv (some p) = p

    -- The mode and the depth; none where the table is read out of its range.
    unfoldable pub video_get_params : Text → Option Params
    video_get_params penv = params_of (options_start (chosen penv (getenv penv)) beyond)
