-- ===== src/Conf/RoundTrip.antt =====
-- src/common/conf_file.cpp, `ConfFile::_parse_file`, on a file that was printed.
use mavlink_router.Prelude.{
  ℕ, ◌≡◌, refl, ap, ◌∙◌, Bool, true, Option, none, some, List, [], ◌∷◌, ◌++◌, map, append-nil,
  append_assoc, All,
}
use mavlink_router.Os.{count}
use mavlink_router.Text.{Bytes}
use mavlink_router.Conf.{find_section, parse_file, lines_of}
use mavlink_router.Conf.Lookup.{value_in}
use mavlink_router.Conf.Spec.{statement, Assignment, assignments, last_value}
use mavlink_router.Conf.Meaning.{parse_file-Means}
use mavlink_router.Conf.Print.{
  IsAbsent, IsName, IsSetting, heading_line, setting_line, statement-heading_line,
  statement-setting_line,
}

-- A section of a document: its name, and the keys and values in it.
pub record Part : Type 0 where
  pub name : Bytes
  pub settings : List (Bytes × Bytes)

pub print_settings : List (Bytes × Bytes) → List Bytes
print_settings [] = []
print_settings ((key, value) ∷ rest) = setting_line key value ∷ print_settings rest

pub print_parts : List Part → List Bytes
print_parts [] = []
print_parts (part ∷ parts) =
    heading_line part.name ∷ print_settings part.settings ++ print_parts parts

-- Lines, each with its newline.
pub unlines : List Bytes → Bytes
unlines [] = []
unlines (line ∷ lines) = line ++ b'\n' ∷ unlines lines

pub assigned_in : Bytes → List (Bytes × Bytes) → List Assignment
assigned_in name [] = []
assigned_in name ((key, value) ∷ rest) =
    record { section = name; key = key; value = value } ∷ assigned_in name rest

-- All that a document sets.
pub assigned : List Part → List Assignment
assigned [] = []
assigned (part ∷ parts) = assigned_in part.name part.settings ++ assigned parts

abbrev AreSettings : List (Bytes × Bytes) → Type 0
AreSettings settings = All (λ kv. IsSetting kv.0 kv.1) settings

pub record IsPart (part : Part) : Type 0 where
  pub named : IsName part.name
  pub holds : AreSettings part.settings

lines_of_front :
    (before line rest : Bytes)
    → IsAbsent b'\n' line
    → lines_of before (line ++ b'\n' ∷ rest) ≡ (before ++ line) ∷ lines_of [] rest
unfolding lines_of
lines_of_front before [] rest v = rw (append-nil before) refl
lines_of_front before (c ∷ line) rest v =
    rw (v.0, lines_of_front (before ++ (c ∷ [])) line rest v.1, append_assoc before (c ∷ []) line)
      refl

lines_of-unlines :
    (lines : List Bytes) → All (IsAbsent b'\n') lines → lines_of [] (unlines lines) ≡ lines
unfolding unlines lines_of
lines_of-unlines [] v = refl
lines_of-unlines (line ∷ lines) v =
    lines_of_front [] line (unlines lines) v.0 ∙ ap (λ ls. line ∷ ls) (lines_of-unlines lines v.1)

lines_append :
    (xs ys : List Bytes)
    → All (IsAbsent b'\n') xs
    → All (IsAbsent b'\n') ys
    → All (IsAbsent b'\n') (xs ++ ys)
lines_append [] ys v w = w
lines_append (x ∷ xs) ys v w = (v.0, lines_append xs ys v.1 w)

IsAbsent-append : (d : ℕ) (s t : Bytes) → IsAbsent d s → IsAbsent d t → IsAbsent d (s ++ t)
IsAbsent-append d [] t v w = w
IsAbsent-append d (x ∷ s) t v w = (v.0, IsAbsent-append d s t v.1 w)

print_settings-lines :
    (settings : List (Bytes × Bytes))
    → AreSettings settings
    → All (IsAbsent b'\n') (print_settings settings)
unfolding print_settings
print_settings-lines [] v = tt
print_settings-lines ((key, value) ∷ rest) v = (
  IsAbsent-append b'\n' key (b'=' ∷ value) v.0.key_line (refl, v.0.value_line),
  print_settings-lines rest v.1,
)

print_parts-lines :
    (parts : List Part) → All IsPart parts → All (IsAbsent b'\n') (print_parts parts)
unfolding print_parts
print_parts-lines [] v = tt
print_parts-lines (part ∷ parts) v = (
  (refl, IsAbsent-append b'\n' part.name (b']' ∷ []) v.0.named.one_line (refl, tt)),
  lines_append (print_settings part.settings) (print_parts parts)
      (print_settings-lines part.settings v.0.holds) (print_parts-lines parts v.1),
)

assignments-print_settings :
    (name : Bytes) (settings : List (Bytes × Bytes)) (lines : List Bytes) (sets : List Assignment)
    (whole : Bool)
    → AreSettings settings
    → assignments (some name) (map statement lines) ≡ (sets, whole)
    → assignments (some name) (map statement (print_settings settings ++ lines))
      ≡ (assigned_in name settings ++ sets, whole)
unfolding print_settings assigned_in assignments
assignments-print_settings name [] lines sets whole v e = e
assignments-print_settings name ((key, value) ∷ rest) lines sets whole v e =
    rw
      (
        statement-setting_line key value v.0,
        assignments-print_settings name rest lines sets whole v.1 e,
      )
      refl

assignments-print_parts :
    (current : Option Bytes) (parts : List Part)
    → All IsPart parts
    → assignments current (map statement (print_parts parts)) ≡ (assigned parts, true)
unfolding print_parts assigned assignments
assignments-print_parts current [] v = refl
assignments-print_parts current (part ∷ parts) v = rw (statement-heading_line part.name v.0.named) (
    assignments-print_settings part.name part.settings (print_parts parts) (assigned parts) true
      v.0.holds (assignments-print_parts (some part.name) parts v.1))

-- A document that is printed, a line `[name]` for each section and a line `key=value` for each option, and
-- is read by `_parse_file` into an empty `ConfFile`, gives the document back: the result is 0, and an
-- option has the last value that the document sets for it, if it sets one. Names must be such as a
-- heading can hold; keys and values must be trimmed, not empty and without newlines, and a key must not
-- hold `=` or look like a comment or a heading.
pub parse_file-print_parts :
    (filename : Bytes) (parts : List Part)
    → All IsPart parts
    → let out = parse_file filename (unlines (print_parts parts)) [] in
      (out.0 ≡ count 0)
      × ((section key : Bytes)
          → value_in section key out.1 ≡ last_value section key (assigned parts) none)
unfolding value_in find_section
parse_file-print_parts filename parts v =
    let (result, values) = parse_file-Means filename (unlines (print_parts parts)) [] tt in
    let lines = lines_of-unlines (print_parts parts) (print_parts-lines parts v) in
    let means = assignments-print_parts none parts v in
    (rw (lines, means) at result, λ section key. rw (lines, means) at (values section key))
