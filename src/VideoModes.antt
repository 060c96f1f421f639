-- ===== src/VideoModes.antt =====
-- uboot/videomodes.c: the modes of the display, and the options that are read from a text. A text is the
-- list of its characters' codes, none of them 0, without the NUL at its end; a C int is its 32-bit
-- word. `strtoul`, of the C library, gives a number and what is left of the text. The loops over a
-- text have its length as fuel, as each round takes a character or more.
pub mod Options
pub mod Values
pub mod Params
pub mod Settings
pub mod Get
pub mod Find
pub mod Text
pub mod Edid
pub mod Margins
use bsp_v3s.Common.{
  ℕ, zero, suc, ◌+◌, ◌-◌, ◌*◌, ◌%◌, ◌^◌, ◌==◌, leb, min, Bool, true, false, if◌then◌else◌, List, [],
  ◌∷◌, ◌++◌, Option, none, some, length, take, drop, same_name,
}
use bsp_v3s.Word.{u32}

abbrev pub Text : Type 0
Text = List ℕ

-- struct ctfb_res_modes
pub record ResModes : Type 0 where
  pub xres : ℕ
  pub yres : ℕ
  pub refresh : ℕ
  pub pixclock : ℕ
  pub pixclock_khz : ℕ
  pub left_margin : ℕ
  pub right_margin : ℕ
  pub upper_margin : ℕ
  pub lower_margin : ℕ
  pub hsync_len : ℕ
  pub vsync_len : ℕ
  pub sync : ℕ
  pub vmode : ℕ

abbrev pub mode : (xres yres refresh pixclock khz le ri up lo hs vs sync : ℕ) → ResModes
mode xres yres refresh pixclock khz le ri up lo hs vs sync = record {
  xres = xres;
  yres = yres;
  refresh = refresh;
  pixclock = pixclock;
  pixclock_khz = khz;
  left_margin = le;
  right_margin = ri;
  upper_margin = up;
  lower_margin = lo;
  hsync_len = hs;
  vsync_len = vs;
  sync = sync;
  vmode = 0;
}

-- CONFIG_VIDEO_STD_TIMINGS is not defined.
abbrev pub res_mode_init : List ResModes
res_mode_init =
    mode 640 480 60 39721 25180 40 24 32 11 96 2 0
    ∷ mode 800 600 60 27778 36000 64 24 22 1 72 2 0
    ∷ mode 1024 768 60 15384 65000 168 8 29 3 144 4 0
    ∷ mode 960 720 80 13100 76335 160 40 32 8 80 4 0
    ∷ mode 1152 864 60 12004 83300 200 64 32 16 80 4 0
    ∷ mode 1280 1024 60 9090 110000 200 48 26 1 184 3 0
    ∷ mode 1280 720 60 13468 74250 220 110 20 5 40 5 3
    ∷ mode 1360 768 60 11696 85500 256 64 17 3 112 7 0
    ∷ mode 1920 1080 60 6734 148500 148 88 36 4 44 5 3
    ∷ mode 1920 1200 60 6494 154000 80 48 26 3 32 6 1
    ∷ []

-- The characters before the next separator or the end.
abbrev pub param_len : ℕ → Text → ℕ
param_len sep [] = 0
param_len sep (c ∷ cs) = let rest = param_len sep cs in if c == sep then 0 else suc rest

-- strncmp(p, name, strlen(name)) == 0, with p + strlen(name).
abbrev pub after : Text → Text → Option Text
after [] p = some p
after (n ∷ ns) [] = none
after (n ∷ ns) (c ∷ cs) = let rest = after ns cs in if n == c then rest else none

-- if (*p != 0) p++
abbrev pub skip_sep : Text → Text
skip_sep [] = []
skip_sep (c ∷ cs) = cs

abbrev pub advance : ℕ → Text → Text
advance i p = skip_sep (drop i p)

abbrev pub after_equals : Option Text → Option Text
after_equals none = none
after_equals (some []) = none
after_equals (some (c ∷ cs)) = if c == b'=' then some cs else none

-- The text behind `name=`, where the option is this one.
abbrev pub value_of : Text → Text → Option Text
value_of name p = after_equals (after name p)

abbrev pub or_later : ℕ → Option Text → Option (ℕ × Text) → Option (ℕ × Text)
or_later i (some value) later = some (i, value)
or_later i none later = later

-- The loop that both video_get_option_string and video_get_option_int have: the length of the option
-- that was found, and the text behind its `=`.
unfoldable pub find_value : ℕ → Text → Text → Option (ℕ × Text)
find_value zero name p = none
find_value (suc fuel) name p =
    let i = param_len b',' p in
    let later = find_value fuel name (advance i p) in
    if i == 0 then none else or_later i (value_of name p) later

abbrev pub find_option : Option Text → Text → Option (ℕ × Text)
find_option none name = none
find_option (some options) name = find_value (length options) name options

-- What a destination of one byte or more holds, from the value of length `i - (name_len + 1)`. For
-- `dest_len` 0 the source has the length -1, and writes without a bound.
abbrev pub stored : ℕ → ℕ → Text → Text
stored len dest_len value = take (if leb dest_len len then dest_len - 1 else len) value

-- The text in `dest`; the size `dest_len` is 1 or more.
unfoldable pub video_get_option_string : Option Text → Text → ℕ → Text → Text
video_get_option_string options name dest_len def = elim (find_option options name) [
  | none ↦ def
  | some r ↦ stored (r.0 - (length name + 1)) dest_len r.1
]

module _ (strtoul : Text → ℕ × Text) where
  unfoldable pub video_get_option_int : Option Text → Text → ℕ → ℕ
  video_get_option_int options name def = elim (find_option options name) [
    | none ↦ def
    | some r ↦ u32 (strtoul r.1).0
  ]
