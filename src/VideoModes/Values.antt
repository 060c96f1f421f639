-- ===== src/VideoModes/Values.antt =====
-- The values of the named options of uboot/videomodes.c: what video_get_option_string stores and
-- video_get_option_int returns.
use bsp_v3s.Common.{
  ℕ, zero, suc, ◌+◌, ◌-◌, ◌≤◌, leb, ◌≡◌, refl, sym, ap, ◌∙◌, arith, Bool-cases, List, [], ◌∷◌, ◌++◌,
  Option, none, some, length, take, inl, inr, length-append,
}
use mathlib.Core.List.{append-nil}
use bsp_v3s.Word.{u32}
use bsp_v3s.VideoModes.Options.{
  Without, Clean, render, behind, first, find_value-first, take-append,
}
use bsp_v3s.VideoModes.{Text, stored, video_get_option_string, video_get_option_int}

length-render : (os : List (Text × Text)) → length os ≤ length (render os)
length-render [] = omega arith
length-render ((n, v) ∷ os) = omega (
  arith,
  length-behind os,
  length-append n (b'=' ∷ (v ++ behind os)),
  length-append v (behind os),
)
  where
    length-behind : (os : List (Text × Text)) → length os ≤ length (behind os)
    length-behind [] = omega arith
    length-behind ((n, v) ∷ os) = omega (
      arith,
      length-behind os,
      length-append n (b'=' ∷ (v ++ behind os)),
      length-append v (behind os),
    )

take-prefix : (v r : Text) (k : ℕ) → k ≤ length v → take k (v ++ r) ≡ take k v
take-prefix v r zero h = refl
take-prefix [] r (suc k) h = absurd (omega arith)
take-prefix (c ∷ v) r (suc k) h = ap (λ (z : Text). c ∷ z) (take-prefix v r k (omega arith))

take-whole : (v : Text) (k : ℕ) → length v ≤ k → take k v ≡ v
take-whole [] zero h = refl
take-whole [] (suc k) h = refl
take-whole (c ∷ v) zero h = absurd (omega arith)
take-whole (c ∷ v) (suc k) h = ap (λ (z : Text). c ∷ z) (take-whole v k (omega arith))

stored-take :
    (name_len dest_len : ℕ) (v r : Text)
    → stored (suc (name_len + length v) - (name_len + 1)) dest_len (v ++ r) ≡ take (dest_len - 1) v
stored-take name_len dest_len v r = elim (Bool-cases (leb dest_len (length v))) [
  | inl fits ↦
      let short : dest_len - 1 ≤ length v = ground (arith, fits) in
      rw (same_len, fits) (take-prefix v r (dest_len - 1) short)
  | inr big ↦
      let long : length v ≤ dest_len - 1 = ground (arith, big) in
      rw (same_len, big) (take-append v r ∙ sym (take-whole v (dest_len - 1) long))
]
  where
    same_len : suc (name_len + length v) - (name_len + 1) ≡ length v
    same_len = omega arith

-- The destination of video_get_option_string: from the value of the first option of the name, cut to
-- one character less than the destination's size, or else the default.
abbrev pub string_of : Option Text → ℕ → Text → Text
string_of none dest_len def = def
string_of (some v) dest_len def = take (dest_len - 1) v

-- In a text of options name=value, with commas between, and for a destination of one byte or more,
-- video_get_option_string finds the first option of the name, whatever the others are, and stores
-- its value, or as much of it as the destination takes with the NUL; where no option has the name it stores the default. Names have neither a
-- comma nor an equals sign, and values no comma.
pub video_get_option_string-first :
    (os : List (Text × Text)) (name : Text) (dest_len : ℕ) (def : Text)
    → 1 ≤ dest_len
    → Without b'=' name
    → Clean os
    → video_get_option_string (some (render os)) name dest_len def
      ≡ string_of (first name os) dest_len def
unfolding video_get_option_string
video_get_option_string-first os name dest_len def room w c =
    elim (find_value-first (length (render os)) name os (length-render os) w c) [
      | inl (missing, e) ↦ rw (video_get_option_string, e, missing) refl
      | inr (v, later, found, e) ↦
          rw (video_get_option_string, e, found)
            (stored-take (length name) dest_len v (behind later))
    ]

module _ (strtoul : Text → ℕ × Text) where
  -- A comma ends a number.
  abbrev pub StopsAtComma : Type 0
  StopsAtComma = (v r : Text) → (strtoul (v ++ (b',' ∷ r))).0 ≡ (strtoul v).0

  abbrev pub int_of : Option Text → ℕ → ℕ
  int_of none def = def
  int_of (some v) def = u32 (strtoul v).0

  -- In such a text video_get_option_int returns the number that the value of the first option of the
  -- name is, or the default where no option has the name.
  pub video_get_option_int-first :
      (os : List (Text × Text)) (name : Text) (def : ℕ)
      → Without b'=' name
      → Clean os
      → StopsAtComma
      → video_get_option_int strtoul (some (render os)) name def ≡ int_of (first name os) def
  unfolding video_get_option_int
  video_get_option_int-first os name def w c stops =
      elim (find_value-first (length (render os)) name os (length-render os) w c) [
        | inl (missing, e) ↦ rw (video_get_option_int, e, missing) refl
        | inr (v, later, found, e) ↦ rw (video_get_option_int, e, found) (ap u32 (number v later))
      ]
    where
      number :
          (v : Text) (later : List (Text × Text)) → (strtoul (v ++ behind later)).0 ≡ (strtoul v).0
      number v [] = rw append-nil refl
      number v ((n, u) ∷ os) = stops v _
