-- ===== src/VideoModes/Margins.antt =====
-- The mode that video_edid_dtd_to_ctfb_res_modes of uboot/videomodes.c makes of a detailed timing.
use bsp_v3s.Common.{
  ℕ, ◌+◌, ◌*◌, ◌/◌, ◌%◌, ◌≢◌, ◌^◌, ◌≤◌, ◌<◌, leb, ◌≡◌, refl, arith, Bool-cases, true, false, none,
  some, inl, inr, ◌⊎◌,
}
use native.Mathlib.Nat.{mul-le-mul_right}
use bsp_v3s.Word.Field.{field_lt, bit_and-low_mask}
use bsp_v3s.VideoModes.{ResModes}
use bsp_v3s.VideoModes.Edid.{
  Timing, get_bits, timing_pixel_clock, timing_horizontal_active, timing_horizontal_blanking,
  timing_vertical_active, timing_vertical_blanking, timing_hsync_offset, timing_hsync_pulse_width,
  timing_vsync_offset, timing_vsync_pulse_width, refused, converted,
  video_edid_dtd_to_ctfb_res_modes,
}

-- The fields that the conversion reads are bytes.
abbrev pub IsTiming : Timing → Type 0
IsTiming t =
    (t.pixel_clock_0 < 256)
    × (t.pixel_clock_1 < 256)
    × (t.horizontal_active < 256)
    × (t.horizontal_blanking < 256)
    × (t.vertical_active < 256)
    × (t.vertical_blanking < 256)
    × (t.hsync_offset < 256)
    × (t.hsync_pulse_width < 256)

get_bits_lt : (x lsb width : ℕ) → get_bits x lsb width < 2 ^ width
unfolding get_bits
get_bits_lt x lsb width = field_lt x lsb width

get_bits_lem : (x lsb width : ℕ) → get_bits x lsb width ≡ x / 2 ^ lsb % 2 ^ width
unfolding get_bits
get_bits_lem x lsb width = bit_and-low_mask width (x / 2 ^ lsb)

module _ (t : Timing) where
  -- The ten conditions of the first test: a timing is 0, or the stereo bits of the flags are not 0.
  abbrev pub Unusable : Type 0
  Unusable =
      (timing_pixel_clock t ≡ 0)
      ⊎ (timing_horizontal_active t ≡ 0)
      ⊎ (timing_horizontal_blanking t ≡ 0)
      ⊎ (timing_vertical_active t ≡ 0)
      ⊎ (timing_vertical_blanking t ≡ 0)
      ⊎ (timing_hsync_offset t ≡ 0)
      ⊎ (timing_hsync_pulse_width t ≡ 0)
      ⊎ (timing_vsync_offset t ≡ 0)
      ⊎ (timing_vsync_pulse_width t ≡ 0)
      ⊎ (t.flags / 2 ^ 5 % 4 ≢ 0)

  abbrev pub Usable : Type 0
  Usable =
      (0 < timing_pixel_clock t)
      × (0 < timing_horizontal_active t)
      × (0 < timing_horizontal_blanking t)
      × (0 < timing_vertical_active t)
      × (0 < timing_vertical_blanking t)
      × (0 < timing_hsync_offset t)
      × (0 < timing_hsync_pulse_width t)
      × (0 < timing_vsync_offset t)
      × (0 < timing_vsync_pulse_width t)
      × (t.flags / 2 ^ 5 % 4 ≡ 0)

  refused-Unusable : refused t ≡ true → Unusable
  unfolding refused
  refused-Unusable h = ground (arith, h, get_bits_lem t.flags 5 2)

  refused-Usable : refused t ≡ false → Usable
  unfolding refused
  refused-Usable h = (
    ground (arith, h),
    ground (arith, h),
    ground (arith, h),
    ground (arith, h),
    ground (arith, h),
    ground (arith, h),
    ground (arith, h),
    ground (arith, h),
    ground (arith, h),
    ground (arith, h, get_bits_lem t.flags 5 2),
  )

  timings-bounded :
      IsTiming t
      → (timing_pixel_clock t ≤ 655350000)
        × (timing_horizontal_active t < 4096)
        × (timing_horizontal_blanking t < 4096)
        × (timing_vertical_active t < 4096)
        × (timing_vertical_blanking t < 4096)
  unfolding timing_pixel_clock timing_horizontal_active timing_horizontal_blanking
      timing_vertical_active timing_vertical_blanking
  timings-bounded (c0, c1, ha, hb, va, vb, ho, hp) = (
    omega arith,
    omega (arith, get_bits_lt t.horizontal_active_blanking_hi 4 4),
    omega (arith, get_bits_lt t.horizontal_active_blanking_hi 0 4),
    omega (arith, get_bits_lt t.vertical_active_blanking_hi 4 4),
    omega (arith, get_bits_lt t.vertical_active_blanking_hi 0 4),
  )

  -- The sums of a mode that was converted.
  abbrev pub Sums : ResModes → Type 0
  Sums m =
      (m.xres + m.left_margin + m.right_margin + m.hsync_len
        ≡ timing_horizontal_active t + timing_horizontal_blanking t)
      × (m.yres + m.upper_margin + m.lower_margin + m.vsync_len
          ≡ timing_vertical_active t + timing_vertical_blanking t)

  abbrev pub Positive : ResModes → Type 0
  Positive m =
      (0 < m.xres)
      × (0 < m.yres)
      × (0 < m.left_margin)
      × (0 < m.right_margin)
      × (0 < m.hsync_len)
      × (0 < m.upper_margin)
      × (0 < m.lower_margin)
      × (0 < m.vsync_len)

  -- The divisors of the conversion are positive, and no product exceeds an int.
  abbrev pub Fits : ResModes → Type 0
  Fits m =
      (0 < m.pixclock_khz)
      × (timing_pixel_clock t < 2 ^ 31)
      × (0
          < (timing_horizontal_active t + timing_horizontal_blanking t)
            * (timing_vertical_active t + timing_vertical_blanking t))
      × ((timing_horizontal_active t + timing_horizontal_blanking t)
            * (timing_vertical_active t + timing_vertical_blanking t)
          < 2 ^ 31)

  positive_clock : 0 < timing_pixel_clock t → 10 ≤ timing_pixel_clock t / 1000
  unfolding timing_pixel_clock
  positive_clock h = omega arith

  product_bound : (a b : ℕ) → 0 < a → 0 < b → a < 8192 → b < 8192 → (0 < a * b) × (a * b < 2 ^ 31)
  product_bound a b pa pb la lb =
      let low : 1 * b ≤ a * b = mul-le-mul_right b (omega arith) in
      let high : a * b ≤ 8192 * b = mul-le-mul_right b (omega arith) in (omega arith, omega arith)

  -- A detailed timing whose fields are bytes is refused exactly where its pixel clock, or an active
  -- size, a blanking, an offset or a pulse width of either direction is 0, where bits 5 and 6 of its
  -- flags are not 0, which is a 3d format, or where a blanking has no room for its offset and its
  -- pulse. Otherwise the mode has margins that are positive, as are its size and its pulses, and
  -- which with the pulse fill the blanking exactly; the divisors of the conversion are positive, and
  -- its products fit an int.
  pub edid-mode :
      IsTiming t
      → ((video_edid_dtd_to_ctfb_res_modes t ≡ none)
          × (Unusable
              ⊎ (timing_horizontal_blanking t ≤ timing_hsync_offset t + timing_hsync_pulse_width t)
              ⊎ (timing_vertical_blanking t ≤ timing_vsync_offset t + timing_vsync_pulse_width t)))
        ⊎ ((m : ResModes) × (video_edid_dtd_to_ctfb_res_modes t ≡ some m)
            × Usable
            × (timing_hsync_offset t + timing_hsync_pulse_width t < timing_horizontal_blanking t)
            × (timing_vsync_offset t + timing_vsync_pulse_width t < timing_vertical_blanking t)
            × Sums m
            × Positive m
            × Fits m)
  unfolding video_edid_dtd_to_ctfb_res_modes converted
  edid-mode bytes = elim (Bool-cases (refused t)) [
    | inl r ↦ inl (rw r refl, inl (refused-Unusable r))
    | inr ok ↦ elim (Bool-cases (leb hb (ho + hp))) [
      | inl h ↦ inl (rw (ok, h) refl, inr (inl (ground (arith, h))))
      | inr h ↦ elim (Bool-cases (leb vb (vo + vp))) [
        | inl v ↦ inl (rw (ok, h, v) refl, inr (inr (ground (arith, v))))
        | inr v ↦
            let (s, p, f) = fits ok (ground (arith, h)) (ground (arith, v)) in
            inr (
              converted t,
              rw (ok, h, v) refl,
              refused-Usable ok,
              ground (arith, h),
              ground (arith, v),
              s,
              p,
              f,
            )
      ]
    ]
  ]
    where
      hb : ℕ
      hb = timing_horizontal_blanking t

      ho : ℕ
      ho = timing_hsync_offset t

      hp : ℕ
      hp = timing_hsync_pulse_width t

      vb : ℕ
      vb = timing_vertical_blanking t

      vo : ℕ
      vo = timing_vsync_offset t

      vp : ℕ
      vp = timing_vsync_pulse_width t

      fits :
          refused t ≡ false
          → ho + hp < hb
          → vo + vp < vb
          → Sums (converted t) × Positive (converted t) × Fits (converted t)
      fits ok h v =
          let (clock, ha0, hb0, va0, vb0, ho0, hp0, vo0, vp0, plain) = refused-Usable ok in
          let (clock_max, ha1, hb1, va1, vb1) = timings-bounded bytes in
          let khz = positive_clock clock in
          let total =
            product_bound (timing_horizontal_active t + hb) (timing_vertical_active t + vb)
              (omega arith) (omega arith) (omega arith) (omega arith) in
          (
            (omega arith, omega arith),
            (ha0, va0, omega arith, ho0, hp0, omega arith, vo0, vp0),
            (omega arith, omega arith, total.0, total.1),
          )
