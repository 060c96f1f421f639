-- ===== src/VideoModes/Edid.antt =====
-- video_edid_dtd_to_ctfb_res_modes of uboot/videomodes.c, and the fields of a detailed timing in
-- include/edid.h, which are bytes.
use bsp_v3s.Common.{
  ℕ, ◌+◌, ◌-◌, ◌*◌, ◌/◌, ◌^◌, ◌==◌, leb, Bool, ◌||◌, not, if◌then◌else◌, Option, none, some,
  bit_and, bit_or,
}
use bsp_v3s.Word.{shr}
use bsp_v3s.VideoModes.{ResModes}

-- struct edid_detailed_timing
pub record Timing : Type 0 where
  pub pixel_clock_0 : ℕ
  pub pixel_clock_1 : ℕ
  pub horizontal_active : ℕ
  pub horizontal_blanking : ℕ
  pub horizontal_active_blanking_hi : ℕ
  pub vertical_active : ℕ
  pub vertical_blanking : ℕ
  pub vertical_active_blanking_hi : ℕ
  pub hsync_offset : ℕ
  pub hsync_pulse_width : ℕ
  pub vsync_offset_pulse_width : ℕ
  pub hsync_vsync_offset_pulse_width_hi : ℕ
  pub flags : ℕ

-- GET_BITS, of `width` bits from bit `lsb` on.
unfoldable pub get_bits : ℕ → ℕ → ℕ → ℕ
get_bits x lsb width = bit_and (shr x lsb) (2 ^ width - 1)

module _ (t : Timing) where
  unfoldable pub timing_pixel_clock : ℕ
  timing_pixel_clock = (t.pixel_clock_1 * 2 ^ 8 + t.pixel_clock_0) * 10000

  unfoldable pub timing_horizontal_active : ℕ
  timing_horizontal_active =
      get_bits t.horizontal_active_blanking_hi 4 4 * 2 ^ 8 + t.horizontal_active

  unfoldable pub timing_horizontal_blanking : ℕ
  timing_horizontal_blanking =
      get_bits t.horizontal_active_blanking_hi 0 4 * 2 ^ 8 + t.horizontal_blanking

  unfoldable pub timing_vertical_active : ℕ
  timing_vertical_active = get_bits t.vertical_active_blanking_hi 4 4 * 2 ^ 8 + t.vertical_active

  unfoldable pub timing_vertical_blanking : ℕ
  timing_vertical_blanking =
      get_bits t.vertical_active_blanking_hi 0 4 * 2 ^ 8 + t.vertical_blanking

  unfoldable pub timing_hsync_offset : ℕ
  timing_hsync_offset = get_bits t.hsync_vsync_offset_pulse_width_hi 6 2 * 2 ^ 8 + t.hsync_offset

  unfoldable pub timing_hsync_pulse_width : ℕ
  timing_hsync_pulse_width =
      get_bits t.hsync_vsync_offset_pulse_width_hi 4 2 * 2 ^ 8 + t.hsync_pulse_width

  unfoldable pub timing_vsync_offset : ℕ
  timing_vsync_offset =
      get_bits t.hsync_vsync_offset_pulse_width_hi 2 2 * 2 ^ 4
      + get_bits t.vsync_offset_pulse_width 4 4

  unfoldable pub timing_vsync_pulse_width : ℕ
  timing_vsync_pulse_width =
      get_bits t.hsync_vsync_offset_pulse_width_hi 0 2 * 2 ^ 4
      + get_bits t.vsync_offset_pulse_width 0 4

  -- The first test: a timing is 0, or the format is one of the 3d ones.
  unfoldable pub refused : Bool
  refused =
      (timing_pixel_clock == 0)
      || (timing_horizontal_active == 0)
      || (timing_horizontal_blanking == 0)
      || (timing_vertical_active == 0)
      || (timing_vertical_blanking == 0)
      || (timing_hsync_offset == 0)
      || (timing_hsync_pulse_width == 0)
      || (timing_vsync_offset == 0)
      || (timing_vsync_pulse_width == 0)
      || not (get_bits t.flags 5 2 == 0)

  -- FB_SYNC_HOR_HIGH_ACT and FB_SYNC_VERT_HIGH_ACT
  unfoldable pub sync_of : ℕ
  sync_of =
      let hor = if get_bits t.flags 1 1 == 0 then 0 else 1 in
      if get_bits t.flags 2 1 == 0 then hor else bit_or hor 2

  -- FB_VMODE_INTERLACED or FB_VMODE_NONINTERLACED
  unfoldable pub vmode_of : ℕ
  vmode_of = if get_bits t.flags 7 1 == 0 then 0 else 1

  -- The mode that is filled in when both margins are positive.
  unfoldable pub converted : ResModes
  converted =
      let h_total = timing_horizontal_active + timing_horizontal_blanking in
      let v_total = timing_vertical_active + timing_vertical_blanking in
      let khz = timing_pixel_clock / 1000 in
      record {
        xres = timing_horizontal_active;
        yres = timing_vertical_active;
        refresh = timing_pixel_clock / (h_total * v_total);
        pixclock = 1000000000 / khz;
        pixclock_khz = khz;
        left_margin = timing_horizontal_blanking - (timing_hsync_offset + timing_hsync_pulse_width);
        right_margin = timing_hsync_offset;
        upper_margin = timing_vertical_blanking - (timing_vsync_offset + timing_vsync_pulse_width);
        lower_margin = timing_vsync_offset;
        hsync_len = timing_hsync_pulse_width;
        vsync_len = timing_vsync_pulse_width;
        sync = sync_of;
        vmode = vmode_of;
      }

  -- The mode for result 0, and none for -EINVAL, after which the caller uses no field of it.
  unfoldable pub video_edid_dtd_to_ctfb_res_modes : Option ResModes
  video_edid_dtd_to_ctfb_res_modes =
      if refused
      then none
      else if leb timing_horizontal_blanking (timing_hsync_offset + timing_hsync_pulse_width)
      then none
      else if leb timing_vertical_blanking (timing_vsync_offset + timing_vsync_pulse_width)
      then none
      else some converted
