-- ===== src/Conf/Tests.antt =====
-- Configuration files at concrete inputs.
use mavlink_router.Prelude.{
  ℕ, zero, suc, ◌+◌, ◌-◌, ◌<◌, ◌≡◌, refl, Bool, true, none, List, [], ◌∷◌, map, arith, length,
  if◌then◌else◌,
}
use mavlink_router.Os.{count, failed, einval}
use mavlink_router.Text.{Bytes, memcaseeq, is_space}
use mavlink_router.Text.Trim.{IsTrimmed}
use mavlink_router.Conf.{Section, parse_file, lines_of, single_spaced}
use mavlink_router.Conf.Lookup.{value_in}
use mavlink_router.Conf.Spec.{statement, assignments, last_value}
use mavlink_router.Conf.Meaning.{parse_file-Means}
use mavlink_router.Conf.Invariant.{AreSections, parse_file-AreSections}
use mavlink_router.Conf.Options.{
  OptionsTable, extract_options, Extraction, extract_options-Extraction,
}
use mavlink_router.Conf.Values.{IsToken}
use mavlink_router.Conf.Print.{IsName, IsSetting}
use mavlink_router.Conf.RoundTrip.{
  IsPart, Part, print_parts, unlines, assigned, parse_file-print_parts,
}

abbrev filename : Bytes
filename = b'f' ∷ []

abbrev text : Bytes
text =
    b'[' ∷ b'a' ∷ b']' ∷ b'\n' ∷ b'k' ∷ b'=' ∷ b'1' ∷ b'\n' ∷ b'K' ∷ b' ' ∷ b'=' ∷ b'2' ∷ b'\n'
    ∷ b'x' ∷ b'\n' ∷ []

parse_file-Means_example :
    ((parse_file filename text []).0 ≡ (
      if (assignments none (map statement (lines_of [] text))).1 then count 0 else failed einval))
    × ((s k : Bytes)
        → value_in s k (parse_file filename text []).1
          ≡ last_value s k
              (assignments none (map statement (lines_of [] text))).0
              (value_in s k []))
parse_file-Means_example = parse_file-Means filename text [] tt

parse_file-AreSections_example : AreSections (parse_file filename text []).1
parse_file-AreSections_example = parse_file-AreSections filename text [] tt

-- A table of one required option, whose value is stored as it stands.
abbrev table : List (OptionsTable Bytes)
table =
    record { key = b'k' ∷ []; required = true; parser_func = λ value storage. (count 0, value) }
    ∷ []

extract_options-Extraction_example :
    Extraction
      (λ key.
        last_value (b'a' ∷ []) key (assignments none (map statement (lines_of [] text))).0 none)
      table
      []
      (extract_options (b'a' ∷ []) table (parse_file filename text []).1 [])
extract_options-Extraction_example = extract_options-Extraction filename text (b'a' ∷ []) table []

abbrev is_uart : Bytes → Bool
is_uart name = memcaseeq (b'u' ∷ []) name

abbrev sections : List Section
sections =
    record { name = b'u' ∷ []; configs = [] } ∷ record { name = b't' ∷ []; configs = [] } ∷ []

abbrev document : List Part
document = record { name = b'a' ∷ []; settings = (b'k' ∷ [], b'1' ∷ []) ∷ [] } ∷ []

key-IsTrimmed : IsTrimmed (b'k' ∷ [])
unfolding is_space
key-IsTrimmed = record { filled = refl; front = refl; back = refl }

value-IsTrimmed : IsTrimmed (b'1' ∷ [])
unfolding is_space
value-IsTrimmed = record { filled = refl; front = refl; back = refl }

a-IsName : IsName (b'a' ∷ [])
unfolding is_space single_spaced
a-IsName = record {
  open_inside = (refl, tt);
  one_line = (refl, tt);
  spaced = refl;
  front = refl;
  back = refl;
  short = omega arith;
}

a-IsSetting : IsSetting (b'k' ∷ []) (b'1' ∷ [])
a-IsSetting = record {
  key_trimmed = key-IsTrimmed;
  value_trimmed = value-IsTrimmed;
  key_plain = (refl, tt);
  key_line = (refl, tt);
  value_line = (refl, tt);
  no_comment = refl;
  no_heading = refl;
  short = omega arith;
}

a-IsPart : IsPart (record { name = b'a' ∷ []; settings = (b'k' ∷ [], b'1' ∷ []) ∷ [] })
a-IsPart = record { named = a-IsName; holds = (a-IsSetting, tt) }

parse_file-print_parts_example :
    ((parse_file filename (unlines (print_parts document)) []).0 ≡ count 0)
    × ((section key : Bytes)
        → value_in section key (parse_file filename (unlines (print_parts document)) []).1
          ≡ last_value section key (assigned document) none)
parse_file-print_parts_example = parse_file-print_parts filename document (a-IsPart, tt)

-- A number as so many digits, and one more.
strokes : ℕ → Bytes
strokes zero = b'1' ∷ []
strokes (suc n) = b'1' ∷ strokes n

strokes-IsToken : (n : ℕ) → IsToken (strokes n)
unfolding strokes
strokes-IsToken zero = record { filled = refl; plain = ((refl, refl), tt) }
strokes-IsToken (suc n) = record {
  filled = refl;
  plain = ((refl, refl), (strokes-IsToken n).plain);
}

abbrev strokes_value : Bytes → ℕ
strokes_value t = length t - 1

length-strokes : (n : ℕ) → length (strokes n) ≡ n + 1
unfolding strokes
length-strokes zero = refl
length-strokes (suc n) = omega (arith, length-strokes n)

strokes_read : (n : ℕ) → n < 256 → strokes_value (strokes n) ≡ n
strokes_read n h = omega (arith, length-strokes n)
