-- ===== src/Conf/Options.antt =====
-- src/common/conf_file.cpp, `ConfFile::extract_options` and `get_sections`: what the rest of the program
-- takes out of the sections.
use mavlink_router.Prelude.{
  ℕ, ◌≡◌, refl, sym, ap, ◌∙◌, inl, inr, zero, suc, ◌<◌, Bool, true, false, Option, none, some, List,
  [], ◌∷◌, ◌++◌, map, arith, if◌then◌else◌, Bool-cases, Option-cases, length,
}
use mavlink_router.Os.{enoent, Ret, count, failed, is_failure}
use mavlink_router.Text.{Bytes}
use mavlink_router.Conf.{Section, find_config, find_section, parse_file, lines_of}
use mavlink_router.Conf.Lookup.{value_of, value_in, value_in_section}
use mavlink_router.Conf.Spec.{statement, assignments, last_value}
use mavlink_router.Conf.Meaning.{parse_file-Means}

-- `OptionsTable`; the function that parses a value works on the whole of the data that the offset and
-- the length of `storage` point into.
pub record OptionsTable (A : Type 0) : Type 0 where
  pub key : Bytes
  pub required : Bool
  pub parser_func : Bytes → A → Ret × A

-- `_extract_options_from_section`
pub extract_options_from_section : {A : Type 0} → List (OptionsTable A) → Section → A → Ret × A
extract_options_from_section [] s a = (count 0, a)
extract_options_from_section (t ∷ table) s a = elim (find_config t.key s.configs) [
  | none ↦ if t.required then (failed enoent, a) else extract_options_from_section table s a
  | some c ↦
      let (ret, b) = t.parser_func c.value a in
      if is_failure ret then (ret, b) else extract_options_from_section table s b
]

-- The loop of `extract_options` where there is no such section.
pub extract_none : {A : Type 0} → List (OptionsTable A) → A → Ret × A
extract_none [] a = (count 0, a)
extract_none (t ∷ table) a = if t.required then (failed enoent, a) else extract_none table a

-- `extract_options`
pub extract_options : {A : Type 0} → Bytes → List (OptionsTable A) → List Section → A → Ret × A
unfolding extract_options_from_section extract_none
extract_options name table ss a = elim (find_section name ss) [
  | none ↦ extract_none table a
  | some s ↦ extract_options_from_section table s a
]

-- The sections behind the one that the iterator points to, from which `get_sections` goes on.
unfoldable pub from_section : (Bytes → Bool) → List Section → Option (Section × List Section)
from_section fnmatch [] = none
from_section fnmatch (s ∷ ss) = if fnmatch s.name then some (s, ss) else from_section fnmatch ss

-- The loop of a caller of `get_sections`, which calls it until it returns -ENOENT; the pattern is in the test.
unfoldable pub get_each_section : (Bytes → Bool) → ℕ → List Section → Option (List Section)
get_each_section fnmatch zero ss = none
get_each_section fnmatch (suc fuel) ss = elim (from_section fnmatch ss) [
  | none ↦ some []
  | some (s, further) ↦ elim (get_each_section fnmatch fuel further) [
    | none ↦ none
    | some rest ↦ some (s ∷ rest)
  ]
]

-- The sections whose names match.
matching : (Bytes → Bool) → List Section → List Section
matching fnmatch [] = []
matching fnmatch (s ∷ ss) = if fnmatch s.name then s ∷ matching fnmatch ss else matching fnmatch ss

data Found (fnmatch : Bytes → Bool) (ss : List Section)
    : Option (Section × List Section) → Type 0 where
  nowhere : matching fnmatch ss ≡ [] → Found fnmatch ss none
  here :
      (s : Section) (further : List Section)
      → matching fnmatch ss ≡ s ∷ matching fnmatch further
      → length further < length ss
      → Found fnmatch ss (some (s, further))

from_section-Found :
    (fnmatch : Bytes → Bool) (ss : List Section) → Found fnmatch ss (from_section fnmatch ss)
unfolding from_section matching
from_section-Found fnmatch [] = nowhere refl
from_section-Found fnmatch (s ∷ ss) = elim (Bool-cases (fnmatch s.name)) [
  | inl e ↦ rw e (here s ss (rw e refl) (omega arith))
  | inr n ↦ rw n (behind _ (from_section-Found fnmatch ss) n)
]
  where
    behind :
        (o : Option (Section × List Section))
        → Found fnmatch ss o
        → fnmatch s.name ≡ false
        → Found fnmatch (s ∷ ss) o
    behind _ (nowhere f) n = nowhere (rw n f)
    behind _ (here t further f short) n = here t further (rw n f) (omega (arith, short))

-- A caller that goes on calling `get_sections` until it returns -ENOENT gets the sections whose names match
-- the pattern, each once and in the order of the list, and has made at most one call for each section and one.
get_each_section-matching :
    (fnmatch : Bytes → Bool) (fuel : ℕ) (ss : List Section)
    → length ss < fuel
    → get_each_section fnmatch fuel ss ≡ some (matching fnmatch ss)
unfolding get_each_section
get_each_section-matching fnmatch zero ss h = absurd (omega (arith, h))
get_each_section-matching fnmatch (suc fuel) ss h =
    next _ refl (from_section-Found fnmatch ss) (get_each_section-matching fnmatch fuel)
  where
    next :
        (o : Option (Section × List Section))
        → from_section fnmatch ss ≡ o
        → Found fnmatch ss o
        → ((ts : List Section)
            → length ts < fuel
            → get_each_section fnmatch fuel ts ≡ some (matching fnmatch ts))
        → get_each_section fnmatch (suc fuel) ss ≡ some (matching fnmatch ss)
    next _ e (nowhere f) ih = rw (get_each_section, e, f) refl
    next _ e (here s further f short) ih =
        rw (get_each_section, e, f, ih further (omega (arith, h, short))) refl

-- The options of a part of the table, taken one after the other, where a missing one is not required.
pub data Passes {A : Type 0} (look : Bytes → Option Bytes)
    : List (OptionsTable A) → A → A → Type 0 where
  done : (a : A) → Passes look [] a a
  skip :
      (t : OptionsTable A) (table : List (OptionsTable A)) (a b : A)
      → look t.key ≡ none
      → t.required ≡ false
      → Passes look table a b
      → Passes look (t ∷ table) a b
  take :
      (t : OptionsTable A) (table : List (OptionsTable A)) (value : Bytes) (a b : A)
      → look t.key ≡ some value
      → is_failure (t.parser_func value a).0 ≡ false
      → Passes look table (t.parser_func value a).1 b
      → Passes look (t ∷ table) a b

-- The whole table passes, or some row of it is the first that does not.
pub data Extraction {A : Type 0} (look : Bytes → Option Bytes) (table : List (OptionsTable A))
    (a : A) : Ret × A → Type 0 where
  extracted : (b : A) → Passes look table a b → Extraction look table a (count 0, b)
  missing :
      (before behind : List (OptionsTable A)) (t : OptionsTable A) (b : A)
      → table ≡ before ++ t ∷ behind
      → Passes look before a b
      → look t.key ≡ none
      → t.required ≡ true
      → Extraction look table a (failed enoent, b)
  invalid :
      (before behind : List (OptionsTable A)) (t : OptionsTable A) (value : Bytes) (b : A)
      → table ≡ before ++ t ∷ behind
      → Passes look before a b
      → look t.key ≡ some value
      → is_failure (t.parser_func value b).0 ≡ true
      → Extraction look table a (t.parser_func value b)

Extraction-behind :
    {A : Type 0} (look : Bytes → Option Bytes) (t : OptionsTable A) (table : List (OptionsTable A))
    (a b : A)
    → ((before : List (OptionsTable A)) (c : A)
        → Passes look before b c
        → Passes look (t ∷ before) a c)
    → (out : Ret × A) → Extraction look table b out
    → Extraction look (t ∷ table) a out
Extraction-behind look t table a b on _ (extracted c p) = extracted c (on table c p)
Extraction-behind look t table a b on _ (missing before behind u c e p n r) =
    missing (t ∷ before) behind u c (ap (λ ts. t ∷ ts) e) (on before c p) n r
Extraction-behind look t table a b on _ (invalid before behind u value c e p n r) =
    invalid (t ∷ before) behind u value c (ap (λ ts. t ∷ ts) e) (on before c p) n r

extract_none-Extraction :
    {A : Type 0} (look : Bytes → Option Bytes) (table : List (OptionsTable A)) (a : A)
    → ((key : Bytes) → look key ≡ none)
    → Extraction look table a (extract_none table a)
unfolding extract_none
extract_none-Extraction look [] a empty = extracted a (done a)
extract_none-Extraction look (t ∷ table) a empty = elim (Bool-cases t.required) [
  | inl r ↦ simp r (missing [] table t a refl (done a) (empty t.key) r)
  | inr r ↦ simp r (
      Extraction-behind look t table a a (λ before c. skip t before a c (empty t.key) r) _
        (extract_none-Extraction look table a empty))
]

section-Extraction :
    {A : Type 0} (look : Bytes → Option Bytes) (table : List (OptionsTable A)) (s : Section) (a : A)
    → ((key : Bytes) → look key ≡ value_of (find_config key s.configs))
    → Extraction look table a (extract_options_from_section table s a)
unfolding extract_options_from_section
section-Extraction look [] s a same = extracted a (done a)
section-Extraction look (t ∷ table) s a same = elim (Option-cases (find_config t.key s.configs)) [
  | inl e ↦
      let absent : look t.key ≡ none = same t.key ∙ ap value_of e in
      rw (extract_options_from_section, e)
        (elim (Bool-cases t.required) [
          | inl r ↦ simp r (missing [] table t a refl (done a) absent r)
          | inr r ↦ simp r (
              Extraction-behind look t table a a (λ before c. skip t before a c absent r) _
                (section-Extraction look table s a same))
        ])
  | inr (c, e) ↦
      let found : look t.key ≡ some c.value = same t.key ∙ ap value_of e in
      rw (extract_options_from_section, e)
        (elim (Bool-cases (is_failure (t.parser_func c.value a).0)) [
          | inl bad ↦ rw bad (invalid [] table t c.value a refl (done a) found bad)
          | inr good ↦ rw good (
              Extraction-behind look t table a (t.parser_func c.value a).1
                (λ before d. take t before c.value a d found good) _
                (section-Extraction look table s (t.parser_func c.value a).1 same))
        ])
]

extract_options_lem :
    {A : Type 0} (look : Bytes → Option Bytes) (name : Bytes) (table : List (OptionsTable A))
    (ss : List Section) (a : A)
    → ((key : Bytes) → look key ≡ value_in name key ss)
    → Extraction look table a (extract_options name table ss a)
unfolding extract_options value_in
extract_options_lem look name table ss a same = elim (Option-cases (find_section name ss)) [
  | inl e ↦
      rw (extract_options, e)
        (extract_none-Extraction look table a (λ key. same key ∙ ap (value_in_section key) e))
  | inr (s, e) ↦
      rw (extract_options, e)
        (section-Extraction look table s a (λ key. same key ∙ ap (value_in_section key) e))
]

-- `extract_options` after `_parse_file` on an empty `ConfFile`, where the values are those that the lines of
-- the file up to the first wrong one set last. Row by row of the table, a value that is set is handed to the
-- function of the row, and one that is not set is passed over. The result is 0 when the whole table has
-- passed; it is -ENOENT at the first required option that is not set, and the error of the function
-- at the first value that it refuses, and then the data holds what the rows before, and the function that
-- failed, have stored. A section that is missing is as one without options.
pub extract_options-Extraction :
    {A : Type 0} (filename text name : Bytes) (table : List (OptionsTable A)) (a : A)
    → let ss = (parse_file filename text []).1 in
      let means = assignments none (map statement (lines_of [] text)) in
      Extraction (λ key. last_value name key means.0 none) table a (extract_options name table ss a)
unfolding value_in find_section
extract_options-Extraction filename text name table a =
    extract_options_lem _ name table (parse_file filename text []).1 a
      (λ key. sym ((parse_file-Means filename text [] tt).1 name key))
