-- ===== src/VideoModes/Options.antt =====
-- The named options of uboot/videomodes.c: what is found in a text that was made of a list of names and
-- values.
use bsp_v3s.Common.{
  ℕ, zero, suc, ◌+◌, ◌≤◌, ◌==◌, ◌≡◌, ◌≢◌, refl, ap, ◌∙◌, arith, Bool-cases, false, if◌then◌else◌,
  List, [], ◌∷◌, ◌++◌, Option, none, some, length, take, drop, inl, inr, ◌⊎◌, same_name,
  same_name→≡,
}
use bsp_v3s.VideoModes.{Text, param_len, skip_sep, value_of, or_later, find_value}

-- No character of the text is `c`.
abbrev pub Without : ℕ → Text → Type 0
Without c [] = Unit {0}
Without c (x ∷ xs) = (x ≢ c) × Without c xs

-- n1=v1,n2=v2,…
abbrev pub behind : List (Text × Text) → Text
behind [] = []
behind ((n, v) ∷ os) = b',' ∷ (n ++ (b'=' ∷ (v ++ behind os)))

abbrev pub render : List (Text × Text) → Text
render [] = []
render ((n, v) ∷ os) = n ++ (b'=' ∷ (v ++ behind os))

-- Names have neither a comma nor an equals sign, values have no comma.
abbrev pub Clean : List (Text × Text) → Type 0
Clean [] = Unit {0}
Clean ((n, v) ∷ os) = Without b',' n × Without b'=' n × Without b',' v × Clean os

-- The value of the first option of the name.
abbrev pub first : Text → List (Text × Text) → Option Text
first name [] = none
first name ((n, v) ∷ os) = let rest = first name os in if same_name name n then some v else rest

pub param_len-append :
    (t r : Text) → Without b',' t → param_len b',' (t ++ r) ≡ length t + param_len b',' r
param_len-append [] r w = omega arith
param_len-append (c ∷ t) r w = ground (arith, w.0, param_len-append t r w.1)

pub drop-append : (t r : Text) → drop (length t) (t ++ r) ≡ r
drop-append [] r = refl
drop-append (c ∷ t) r = drop-append t r

pub take-append : (t r : Text) → take (length t) (t ++ r) ≡ t
take-append [] r = refl
take-append (c ∷ t) r = ap (λ (z : Text). c ∷ z) (take-append t r)

-- An option has a name if it is the whole of what stands before its `=`.
value_of-name :
    (name n r : Text)
    → Without b'=' name
    → Without b'=' n
    → value_of name (n ++ (b'=' ∷ r)) ≡ (if same_name name n then some r else none)
unfolding same_name
value_of-name [] [] r w u = refl
value_of-name [] (c ∷ n) r w u = ground (arith, u.0)
value_of-name (x ∷ name) [] r w u = ground (arith, w.0)
value_of-name (x ∷ name) (c ∷ n) r w u = elim (Bool-cases (x == c)) [
  | inl e ↦ rw e (value_of-name name n r w.1 u.1)
  | inr ne ↦ rw ne refl
]

item_len :
    (n v : Text) (os : List (Text × Text))
    → Without b',' n
    → Without b',' v
    → param_len b',' (n ++ (b'=' ∷ (v ++ behind os))) ≡ suc (length n + length v)
item_len n v os wn wv = omega (
  arith,
  param_len-append n (b'=' ∷ (v ++ behind os)) wn,
  param_len-append v (behind os) wv,
  ends_here os,
)
  where
    ends_here : (os : List (Text × Text)) → param_len b',' (behind os) ≡ 0
    ends_here [] = refl
    ends_here ((n, w) ∷ os) = refl

drop_item : (n r : Text) (k : ℕ) → drop (suc (length n + k)) (n ++ (b'=' ∷ r)) ≡ drop k r
drop_item [] r k = ap (λ (j : ℕ). drop j r) (add_zero k)
  where
    add_zero : (k : ℕ) → 0 + k ≡ k
    add_zero k = omega arith
drop_item (c ∷ n) r k =
    ap (λ (j : ℕ). drop j (n ++ (b'=' ∷ r))) (add_suc (length n) k) ∙ drop_item n r k
  where
    add_suc : (m k : ℕ) → suc m + k ≡ suc (m + k)
    add_suc m k = omega arith

skip-behind : (os : List (Text × Text)) → skip_sep (behind os) ≡ render os
skip-behind [] = refl
skip-behind ((n, v) ∷ os) = refl

suc_positive : (k : ℕ) → (suc k == 0) ≡ false
suc_positive k = ground arith

find_value-step :
    (fuel : ℕ) (name n v : Text) (os : List (Text × Text))
    → Without b'=' name
    → Clean ((n, v) ∷ os)
    → find_value (suc fuel) name (render ((n, v) ∷ os))
      ≡ or_later
          (suc (length n + length v))
          (if same_name name n then some (v ++ behind os) else none)
          (find_value fuel name (render os))
unfolding find_value
find_value-step fuel name n v os w (wn, un, wv, rest) =
    rw
      (
        item_len n v os wn wv,
        drop_item n (v ++ behind os) (length v),
        drop-append v (behind os),
        skip-behind os,
        value_of-name name n (v ++ behind os) w un,
        suc_positive (length n + length v),
      )
      refl

-- The option that is found is the first of its name, with its length, and its value with what is behind.
pub find_value-first :
    (fuel : ℕ) (name : Text) (os : List (Text × Text))
    → length os ≤ fuel
    → Without b'=' name
    → Clean os
    → ((first name os ≡ none) × (find_value fuel name (render os) ≡ none))
      ⊎ ((v : Text) × (later : List (Text × Text)) × (first name os ≡ some v)
          × (find_value fuel name (render os)
              ≡ some (suc (length name + length v), v ++ behind later)))
unfolding find_value
find_value-first zero name [] le w c = inl (refl, refl)
find_value-first (suc fuel) name [] le w c = inl (refl, refl)
find_value-first zero name (o ∷ os) le w c = absurd (omega arith)
find_value-first (suc fuel) name ((n, v) ∷ os) le w c = elim (Bool-cases (same_name name n)) [
  | inl e ↦
      let same : name ≡ n = same_name→≡ name n e in
      inr (v, os, rw e refl, find_value-step fuel name n v os w c ∙ rw (e, same) refl)
  | inr ne ↦
      let step =
        find_value-step fuel name n v os w c
        ∙ ap
            (λ t.
              or_later (suc (length n + length v)) (if t then some (v ++ behind os) else none)
                (find_value fuel name (render os)))
            ne in
      elim (find_value-first fuel name os (omega arith) w c.3) [
        | inl (missing, e) ↦ inl (rw ne missing, step ∙ e)
        | inr (v', later, found, e) ↦ inr (v', later, rw ne found, step ∙ e)
      ]
]
