-- ===== src/Examples/Modes.antt =====
-- The options and the modes of the display, with a reader of decimal numbers.
use bsp_v3s.Common.{
  ℕ, ◌+◌, ◌<◌, ◌-◌, ◌*◌, ◌≤◌, ◌≡◌, ◌&&◌, leb, if◌then◌else◌, refl, arith, List, [], ◌∷◌, ◌++◌,
  Option, none, some, false, Bool-cases, inl, inr, ◌⊎◌,
}
use bsp_v3s.VideoModes.{Text, ResModes, find_value, video_get_option_string, video_get_option_int}
use bsp_v3s.VideoModes.Options.{render, first}
use bsp_v3s.VideoModes.Values.{string_of, StopsAtComma, video_get_option_string-first}
use bsp_v3s.VideoModes.Params.{
  Params, Setting, default_of, video_get_params, video_ctfb, video_search_param,
}
use bsp_v3s.VideoModes.Settings
use bsp_v3s.VideoModes.Settings.{last_mode}
use bsp_v3s.VideoModes.Get.{over, video_get_params-over, all_settings, video_get_params-print}
use bsp_v3s.VideoModes.Find.{video_get_ctfb_res_modes}
use bsp_v3s.VideoModes.Text.{mode_text, ctfb_res_modes-text}
use bsp_v3s.VideoModes.Edid.{
  Timing, timing_horizontal_blanking, timing_hsync_offset, timing_hsync_pulse_width,
  timing_vertical_blanking, timing_vsync_offset, timing_vsync_pulse_width,
  video_edid_dtd_to_ctfb_res_modes,
}
use bsp_v3s.VideoModes.Margins.{Unusable, Usable, Sums, Positive, Fits, edid-mode}

-- A decimal number, and what is left.
abbrev decimal : ℕ → Text → ℕ × Text
decimal n [] = (n, [])
decimal n (c ∷ cs) =
    let rest = decimal (n * 10 + (c - b'0')) cs in
    if leb b'0' c && leb c b'9' then rest else (n, c ∷ cs)

comma_stops : (n : ℕ) (v r : Text) → (decimal n (v ++ (b',' ∷ r))).0 ≡ (decimal n v).0
comma_stops n [] r = refl
comma_stops n (c ∷ v) r = elim (Bool-cases (leb b'0' c && leb c b'9')) [
  | inl e ↦ rw e (comma_stops (n * 10 + (c - b'0')) v r)
  | inr ne ↦ rw ne refl
]

decimal_stops : StopsAtComma (decimal 0)
decimal_stops v r = comma_stops 0 v r

-- monitor=dvi,hpd=0
abbrev options : List (Text × Text)
options =
    (b'm' ∷ b'o' ∷ b'n' ∷ [], b'd' ∷ b'v' ∷ b'i' ∷ []) ∷ (b'h' ∷ b'p' ∷ b'd' ∷ [], b'0' ∷ []) ∷ []

video_get_option_string-first_example :
    video_get_option_string (some (render options)) (b'm' ∷ b'o' ∷ b'n' ∷ []) 3 (b'x' ∷ [])
    ≡ string_of (first (b'm' ∷ b'o' ∷ b'n' ∷ []) options) 3 (b'x' ∷ [])
video_get_option_string-first_example =
    video_get_option_string-first options (b'm' ∷ b'o' ∷ b'n' ∷ []) 3 (b'x' ∷ []) (omega arith)
      (omega arith, (omega arith, (omega arith, tt)))
      (
        (omega arith, (omega arith, (omega arith, tt))),
        (omega arith, (omega arith, (omega arith, tt))),
        (omega arith, (omega arith, (omega arith, tt))),
        (
          (omega arith, (omega arith, (omega arith, tt))),
          (omega arith, (omega arith, (omega arith, tt))),
          (omega arith, tt),
          tt,
        ),
      )

-- An empty option ends the search: in ",a=1" no option is found.
empty_option :
    video_get_option_int (decimal 0) (some (b',' ∷ b'a' ∷ b'=' ∷ b'1' ∷ [])) (b'a' ∷ []) 7 ≡ 7
unfolding video_get_option_int find_value
empty_option = refl

abbrev settings : List (Setting × Text)
settings = (Setting.mode, b'2' ∷ []) ∷ (Setting.x, b'9' ∷ []) ∷ (Setting.depth, b'8' ∷ []) ∷ []

abbrev env : Text → Option Text
env t = some (video_ctfb ++ Settings.render settings)

video_get_params-over_example :
    video_get_params (decimal 0) env [] [] ≡ over (decimal 0) env [] settings (default_of 2)
video_get_params-over_example =
    video_get_params-over (decimal 0) env [] settings [] decimal_stops
      (
        (omega arith, tt),
        (omega arith, tt),
        ((omega arith, tt), (omega arith, tt), ((omega arith, tt), (omega arith, tt), tt)),
      )
      refl

abbrev small : Params
small = record {
  par = record {
    xres = 8;
    yres = 6;
    refresh = 5;
    pixclock = 4;
    pixclock_khz = 9;
    left_margin = 1;
    right_margin = 2;
    upper_margin = 3;
    lower_margin = 4;
    hsync_len = 5;
    vsync_len = 6;
    sync = 3;
    vmode = 0;
  };
  bpp = 7;
}

abbrev one_digit : ℕ → Text
one_digit n = (b'0' + n) ∷ []

abbrev env_all : Text → Option Text
env_all t = some (video_ctfb ++ Settings.render (all_settings one_digit small))

video_get_params-print_example : video_get_params (decimal 0) env_all [] [] ≡ some small
video_get_params-print_example =
    video_get_params-print (decimal 0) env_all [] one_digit small [] decimal_stops
      (
        (omega arith, refl, (omega arith, tt), (omega arith, tt)),
        (omega arith, refl, (omega arith, tt), (omega arith, tt)),
        (omega arith, refl, (omega arith, tt), (omega arith, tt)),
        (omega arith, refl, (omega arith, tt), (omega arith, tt)),
        (omega arith, refl, (omega arith, tt), (omega arith, tt)),
        (omega arith, refl, (omega arith, tt), (omega arith, tt)),
        (omega arith, refl, (omega arith, tt), (omega arith, tt)),
        (omega arith, refl, (omega arith, tt), (omega arith, tt)),
        (omega arith, refl, (omega arith, tt), (omega arith, tt)),
        (omega arith, refl, (omega arith, tt), (omega arith, tt)),
        (omega arith, refl, (omega arith, tt), (omega arith, tt)),
        (omega arith, refl, (omega arith, tt), (omega arith, tt)),
        (omega arith, refl, (omega arith, tt), (omega arith, tt)),
        (omega arith, refl, (omega arith, tt), (omega arith, tt)),
      )
      refl

-- The search goes on behind the end of the text, here "a", and finds what is in memory there.
found_beyond : video_search_param (b'a' ∷ []) video_ctfb video_ctfb ≡ some 2
unfolding video_search_param
found_beyond = refl

abbrev numeral_text : ℕ → ℕ → ℕ → Text
numeral_text a b c = (b'0' + a) ∷ (b'0' + b) ∷ (b'0' + c) ∷ []

hundreds :
    (n : ℕ) (c : ℕ) (r : Text) → (leb b'0' c && leb c b'9') ≡ false → decimal n (c ∷ r) ≡ (n, c ∷ r)
hundreds n c r e = rw e refl

-- v:640x480-24@60,e
ctfb_res_modes-text_example :
    video_get_ctfb_res_modes (decimal 0) 2 16 (
      some (
        mode_text
          (decimal 0)
          (b'v' ∷ [])
          (numeral_text 6 4 0)
          (numeral_text 4 8 0)
          (b'2' ∷ b'4' ∷ [])
          (b'6' ∷ b'0' ∷ [])
          (some (b'e' ∷ []))))
    ≡ record {
      mode_ret = some (record {
        xres = 640;
        yres = 480;
        refresh = 60;
        pixclock = 39721;
        pixclock_khz = 25180;
        left_margin = 40;
        right_margin = 24;
        upper_margin = 32;
        lower_margin = 11;
        hsync_len = 96;
        vsync_len = 2;
        sync = 0;
        vmode = 0;
      });
      depth_ret = 24;
      options = some (b'e' ∷ []);
    }
ctfb_res_modes-text_example =
    ctfb_res_modes-text (decimal 0) (b'v' ∷ []) (numeral_text 6 4 0) (numeral_text 4 8 0)
      (b'2' ∷ b'4' ∷ []) (b'6' ∷ b'0' ∷ []) 0 _ 24 (some (b'e' ∷ [])) 2 16 refl (omega arith, tt)
      (λ r. refl, hundreds 640, refl, omega arith, omega arith)
      (λ r. refl, hundreds 480, refl, omega arith, omega arith)
      (λ r. refl, hundreds 24, refl, omega arith, omega arith)
      (λ r. refl, hundreds 60, refl, omega arith, omega arith)

-- 640x480 at 60 Hz
abbrev vga : Timing
vga = record {
  pixel_clock_0 = 0xd6;
  pixel_clock_1 = 0x09;
  horizontal_active = 0x80;
  horizontal_blanking = 0xa0;
  horizontal_active_blanking_hi = 0x20;
  vertical_active = 0xe0;
  vertical_blanking = 0x2d;
  vertical_active_blanking_hi = 0x10;
  hsync_offset = 0x10;
  hsync_pulse_width = 0x60;
  vsync_offset_pulse_width = 0xa2;
  hsync_vsync_offset_pulse_width_hi = 0;
  flags = 0x18;
}

edid-mode_example :
    ((video_edid_dtd_to_ctfb_res_modes vga ≡ none)
      × (Unusable vga
          ⊎ (timing_horizontal_blanking vga
              ≤ timing_hsync_offset vga + timing_hsync_pulse_width vga)
          ⊎ (timing_vertical_blanking vga
              ≤ timing_vsync_offset vga + timing_vsync_pulse_width vga)))
    ⊎ ((m : ResModes) × (video_edid_dtd_to_ctfb_res_modes vga ≡ some m)
        × Usable vga
        × (timing_hsync_offset vga + timing_hsync_pulse_width vga < timing_horizontal_blanking vga)
        × (timing_vsync_offset vga + timing_vsync_pulse_width vga < timing_vertical_blanking vga)
        × Sums vga m
        × Positive vga m
        × Fits vga m)
edid-mode_example = edid-mode vga (
  omega arith,
  omega arith,
  omega arith,
  omega arith,
  omega arith,
  omega arith,
  omega arith,
  omega arith,
)
