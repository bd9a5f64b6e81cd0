-- ===== src/Conf/Print.antt =====
-- src/common/conf_file.cpp: what the parser makes of a heading and an option that were printed.
use mavlink_router.Prelude.{
  ℕ, ◌+◌, ◌≤◌, ◌≡◌, refl, ap, ◌∙◌, true, false, ◌||◌, some, [], ◌∷◌, ◌++◌, arith, ◌==◌, length, All,
  get_or, le→ltb,
}
use mavlink_router.Text.{Bytes, last_or, is_space, split_at, trim, trim_front, trim_end}
use mavlink_router.Text.Trim.{IsTrimmed}
use mavlink_router.Conf.{max_section_name, int_max, section_name, single_spaced}
use mavlink_router.Conf.Spec.{heading, setting, heading_of, setting_of, statement_of, statement}

abbrev pub IsAbsent : ℕ → Bytes → Type 0
IsAbsent d s = All (λ c. (c == d) ≡ false) s

-- A name that can stand in a heading.
pub record IsName (name : Bytes) : Type 0 where
  pub open_inside : IsAbsent b']' name
  pub one_line : IsAbsent b'\n' name
  pub spaced : single_spaced false name ≡ true
  pub front : is_space (get_or name 0 b']') ≡ false
  pub back : is_space (last_or name b'[') ≡ false
  pub short : length name ≤ max_section_name

-- A key and a value that can stand in a line.
pub record IsSetting (key value : Bytes) : Type 0 where
  pub key_trimmed : IsTrimmed key
  pub value_trimmed : IsTrimmed value
  pub key_plain : IsAbsent b'=' key
  pub key_line : IsAbsent b'\n' key
  pub value_line : IsAbsent b'\n' value
  pub no_comment : (get_or key 0 0 == b';' || get_or key 0 0 == b'#') ≡ false
  pub no_heading : (get_or key 0 0 == b'[') ≡ false
  pub short : length (key ++ b'=' ∷ value) ≤ int_max

trim_front_same : (s : Bytes) → is_space (get_or s 0 0) ≡ false → trim_front s ≡ s
unfolding trim_front
trim_front_same [] h = refl
trim_front_same (c ∷ s) h = rw h refl

trim_end_same : (c : ℕ) (s : Bytes) → is_space (last_or s c) ≡ false → trim_end (c ∷ s) ≡ c ∷ s
unfolding trim_end
trim_end_same c [] h = rw h refl
trim_end_same c (d ∷ s) h = rw (trim_end_same d s h) refl

trim_same :
    (c : ℕ) (s : Bytes) → is_space c ≡ false → is_space (last_or s c) ≡ false → trim (c ∷ s) ≡ c ∷ s
unfolding trim
trim_same c s f b = rw (trim_front_same (c ∷ s) f) (trim_end_same c s b)

split_at_front :
    (d : ℕ) (s rest : Bytes) → IsAbsent d s → split_at d (s ++ d ∷ rest) ≡ some (s, rest)
unfolding split_at
split_at_front d [] rest v = ground arith
split_at_front d (c ∷ s) rest v = rw (v.0, split_at_front d s rest v.1) refl

last_or-append : (s : Bytes) (c d : ℕ) (t : Bytes) → last_or (s ++ c ∷ t) d ≡ last_or t c
last_or-append [] c d t = refl
last_or-append (x ∷ s) c d t = last_or-append s c x t

abbrev pub heading_line : Bytes → Bytes
heading_line name = b'[' ∷ name ++ (b']' ∷ [])

abbrev pub setting_line : Bytes → Bytes → Bytes
setting_line key value = key ++ b'=' ∷ value

section_name_same : (name : Bytes) → IsName name → section_name (name ++ (b']' ∷ [])) ≡ some name
unfolding section_name
section_name_same name v =
    rw (section_name, split_at_front b']' name [] v.open_inside)
      (rw (v.back, v.front, v.spaced) refl)

length-bracketed : (name : Bytes) → length (name ++ (b']' ∷ [])) ≡ length name + 1
length-bracketed [] = refl
length-bracketed (c ∷ s) = omega (arith, length-bracketed s)

pub statement-heading_line :
    (name : Bytes) → IsName name → statement (heading_line name) ≡ heading name
unfolding statement statement_of heading_of is_space
statement-heading_line name v =
    rw
      (
        le→ltb int_max (length (heading_line name)) (omega (arith, v.short, length-bracketed name)),
        trim_same b'[' (name ++ (b']' ∷ [])) refl (ap is_space (last_or-append name b']' b'[' [])),
        section_name_same name v,
        le→ltb max_section_name (length name) v.short,
      )
      refl

pub statement-setting_line :
    (key value : Bytes)
    → IsSetting key value
    → statement (setting_line key value) ≡ setting key value
unfolding statement statement_of setting_of
statement-setting_line [] value v = let empty : true ≡ false = v.key_trimmed.filled in cc
statement-setting_line (c ∷ key) [] v = let empty : true ≡ false = v.value_trimmed.filled in cc
statement-setting_line (c ∷ key) (d ∷ value) v =
    rw
      (
        le→ltb int_max (length (setting_line (c ∷ key) (d ∷ value))) v.short,
        trim_same c (key ++ b'=' ∷ d ∷ value) v.key_trimmed.front
            (ap is_space (last_or-append key b'=' c (d ∷ value)) ∙ v.value_trimmed.back),
        v.no_comment,
        v.no_heading,
        split_at_front b'=' (c ∷ key) (d ∷ value) v.key_plain,
        trim_same c key v.key_trimmed.front v.key_trimmed.back,
        trim_same d value v.value_trimmed.front v.value_trimmed.back,
      )
      refl
