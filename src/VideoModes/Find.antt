-- ===== src/VideoModes/Find.antt =====
-- The variable video-mode of uboot/videomodes.c, and the table's mode that it asks for.
use bsp_v3s.Common.{
  ℕ, ◌==◌, leb, Bool, ◌&&◌, if◌then◌else◌, List, [], ◌∷◌, Option, none, some, get_elem?,
}
use bsp_v3s.Word.{u32}
use bsp_v3s.VideoModes.{Text, ResModes, res_mode_init}

-- isdigit
abbrev pub is_digit : ℕ → Bool
is_digit c = leb b'0' c && leb c b'9'

-- while (*p && !isdigit(*p)) p++
abbrev pub to_digit : Text → Text
to_digit [] = []
to_digit (c ∷ cs) = let rest = to_digit cs in if is_digit c then c ∷ cs else rest

-- strchr(p, c), with what is behind that character
abbrev pub strchr : ℕ → Text → Option Text
strchr c [] = none
strchr c (x ∷ xs) = let rest = strchr c xs in if x == c then some xs else rest

pub record VideoMode : Type 0 where
  pub xres : ℕ
  pub yres : ℕ
  pub depth : ℕ
  pub freq : ℕ
  pub options : Option Text

pub record Chosen : Type 0 where
  pub mode_ret : Option ResModes
  pub depth_ret : ℕ
  pub options : Option Text

abbrev pub is_mode : ℕ → ℕ → ℕ → ResModes → Bool
is_mode xres yres refresh m = (m.xres == xres) && (m.yres == yres) && (m.refresh == refresh)

-- The first mode of a table with this size and rate.
abbrev pub find_mode : ℕ → ℕ → ℕ → List ResModes → Option ResModes
find_mode xres yres refresh [] = none
find_mode xres yres refresh (m ∷ ms) =
    let rest = find_mode xres yres refresh ms in
    if is_mode xres yres refresh m then some m else rest

module _ (strtoul : Text → ℕ × Text) where
  -- The next number of the text, 0 being refused, and what is behind it.
  abbrev pub positive_of : ℕ × Text → Option (ℕ × Text)
  positive_of (n, p) = if u32 n == 0 then none else some (u32 n, p)

  abbrev pub next_number : Text → Option (ℕ × Text)
  next_number p = positive_of (strtoul (to_digit p))

  abbrev pub then_number : {A : Type 0} → Option (ℕ × Text) → (ℕ → Text → Option A) → Option A
  then_number none k = none
  then_number (some (n, p)) k = k n p

  -- Behind the colon.
  abbrev pub mode_of : Text → Option VideoMode
  mode_of p = then_number (next_number p) (λ x p. then_number (next_number p) (λ y p.
      then_number (next_number p) (λ depth p. then_number (next_number p) (λ freq p.
        some
          (record { xres = x; yres = y; depth = depth; freq = freq; options = strchr b',' p })))))

  abbrev pub after_colon : Option Text → Option VideoMode
  after_colon none = none
  after_colon (some p) = mode_of p

  -- The value of the variable video-mode is the argument; none for result 0.
  unfoldable pub video_get_video_mode : Option Text → Option VideoMode
  video_get_video_mode none = none
  video_get_video_mode (some p) = after_colon (strchr b':' p)

  abbrev pub in_table : Option ResModes → ℕ → VideoMode → Option ResModes → Chosen
  in_table default default_depth v (some m) = record {
    mode_ret = some m;
    depth_ret = v.depth;
    options = v.options;
  }
  in_table default default_depth v none = record {
    mode_ret = default;
    depth_ret = default_depth;
    options = v.options;
  }

  abbrev pub choose : Option ResModes → ℕ → Option VideoMode → Chosen
  choose default default_depth none = record {
    mode_ret = default;
    depth_ret = default_depth;
    options = none;
  }
  choose default default_depth (some v) =
      in_table default default_depth v (find_mode v.xres v.yres v.freq res_mode_init)

  unfoldable pub video_get_ctfb_res_modes : ℕ → ℕ → Option Text → Chosen
  video_get_ctfb_res_modes default_mode default_depth env =
      choose (get_elem? res_mode_init default_mode) default_depth (video_get_video_mode env)
