-- ===== src/Conf/Invariant.antt =====
-- src/common/conf_file.cpp, `ConfFile::_parse_file`: which sections and options it can build.
use mavlink_router.Prelude.{
  ℕ, ◌+◌, ◌≤◌, ◌≡◌, refl, inl, inr, false, ◌||◌, Option, none, some, List, [], ◌∷◌, arith, ltb,
  ◌==◌, Bool-cases, is_some, length,
}
use mavlink_router.Os.{einval, Ret, failed}
use mavlink_router.Throttle.{is_empty}
use mavlink_router.Text.{Bytes, memcaseeq, trim}
use mavlink_router.Text.Trim.{IsTrimmed, trim-IsTrimmed}
use mavlink_router.Conf.{
  Config, Section, Parser, find_section, add_config, add_section, config_in, option_line,
  max_section_name, int_max, trimmed_line, parse_line, parse_lines, parse_file, lines_of,
}
use mavlink_router.Conf.Lookup.{Opens, malformed, too_long, reopened, opened, add_section-Opens}
use mavlink_router.Conf.Configs.{AreConfigs, IfSome, some-none, add_config-AreConfigs}

-- The sections: no two names are alike, none is too long, and each has well-formed options.
abbrev pub AreSections : List Section → Type 0
AreSections [] = Unit
AreSections (s ∷ ss) =
    (find_section s.name ss ≡ none)
    × (length s.name ≤ max_section_name)
    × AreConfigs s.configs
    × AreSections ss

find_section-config_in :
    (name filename : Bytes) (line : ℕ) (entry at : Bytes) (ss : List Section)
    → IfSome
        (λ ss'. is_some (find_section name ss') ≡ is_some (find_section name ss))
        (config_in filename line entry at ss)
unfolding config_in find_section
find_section-config_in name filename line entry at [] = tt
find_section-config_in name filename line entry at (s ∷ ss) =
    elim (Bool-cases (memcaseeq at s.name)) [
      | inl e ↦ rw e (here (add_config filename line entry s.configs))
      | inr n ↦ rw n (
          further (config_in filename line entry at ss)
            (find_section-config_in name filename line entry at ss))
    ]
  where
    here :
        (o : Option (List Config))
        → IfSome
            (λ ss'. is_some (find_section name ss') ≡ is_some (find_section name (s ∷ ss)))
            (elim o [ none ↦ none | some configs ↦ some (record s { configs = configs } ∷ ss) ])
    here none = tt
    here (some cs) = ground arith

    further :
        (o : Option (List Section))
        → IfSome (λ ss'. is_some (find_section name ss') ≡ is_some (find_section name ss)) o
        → IfSome
            (λ ss'. is_some (find_section name ss') ≡ is_some (find_section name (s ∷ ss)))
            (elim o [ none ↦ none | some ss' ↦ some (s ∷ ss') ])
    further none i = tt
    further (some ss') i = ground arith

config_in-AreSections :
    (filename : Bytes) (line : ℕ) (entry at : Bytes) (ss : List Section)
    → IsTrimmed entry
    → AreSections ss
    → IfSome AreSections (config_in filename line entry at ss)
unfolding config_in
config_in-AreSections filename line entry at [] t v = tt
config_in-AreSections filename line entry at (s ∷ ss) t (new, short, cs, v) =
    elim (Bool-cases (memcaseeq at s.name)) [
      | inl e ↦ rw e (
          here (add_config filename line entry s.configs)
            (add_config-AreConfigs filename line entry s.configs t cs))
      | inr n ↦ rw n (
          further (config_in filename line entry at ss)
            (config_in-AreSections filename line entry at ss t v)
            (find_section-config_in s.name filename line entry at ss))
    ]
  where
    here :
        (o : Option (List Config))
        → IfSome AreConfigs o
        → IfSome AreSections
            (elim o [ none ↦ none | some configs ↦ some (record s { configs = configs } ∷ ss) ])
    here none i = tt
    here (some configs) i = (new, short, i, v)

    further :
        (o : Option (List Section))
        → IfSome AreSections o
        → IfSome (λ ss'. is_some (find_section s.name ss') ≡ is_some (find_section s.name ss)) o
        → IfSome AreSections (elim o [ none ↦ none | some ss' ↦ some (s ∷ ss') ])
    further none i j = tt
    further (some ss') i j = (some-none _ _ j new, short, cs, i)

abbrev AreParsed : Parser → Type 0
AreParsed p = AreSections p.sections

heading-AreSections :
    (body : Bytes) (ss : List Section) (o : Option (Bytes × List Section))
    → Opens body ss o
    → AreSections ss
    → IfSome AreParsed (elim o [
      | none ↦ none
      | some (name, sections) ↦ some (record { sections = sections; current = some name })
    ])
heading-AreSections body ss _ (malformed e) v = tt
heading-AreSections body ss _ (too_long name e new long) v = tt
heading-AreSections body ss _ (reopened name s e f) v = v
heading-AreSections body ss _ (opened name e new short) v = (new, short, tt, v)

option_line-AreSections :
    (filename : Bytes) (line : ℕ) (entry : Bytes) (at : Option Bytes) (ss : List Section)
    → IsTrimmed entry
    → AreSections ss
    → IfSome AreParsed (option_line filename line entry at ss)
unfolding option_line
option_line-AreSections filename line entry none ss t v = tt
option_line-AreSections filename line entry (some name) ss t v =
    within (config_in filename line entry name ss)
      (config_in-AreSections filename line entry name ss t v)
  where
    within :
        (o : Option (List Section))
        → IfSome AreSections o
        → IfSome AreParsed (elim o [
          | none ↦ none
          | some ss' ↦ some (record { sections = ss'; current = some name })
        ])
    within none i = tt
    within (some ss') i = i

trimmed_line-AreSections :
    (filename : Bytes) (line : ℕ) (text : Bytes) (p : Parser)
    → (is_empty text ≡ false → IsTrimmed text)
    → AreSections p.sections
    → IfSome AreParsed (trimmed_line filename line text p)
unfolding trimmed_line
trimmed_line-AreSections filename line [] p t v = v
trimmed_line-AreSections filename line (c ∷ cs) p t v = elim (Bool-cases (c == b';' || c == b'#')) [
  | inl e ↦ rw e v
  | inr n ↦ rw n (elim (Bool-cases (c == b'[')) [
    | inl h ↦ rw h (
        heading-AreSections cs p.sections (add_section cs p.sections)
          (add_section-Opens cs p.sections) v)
    | inr m ↦ rw m (option_line-AreSections filename line (c ∷ cs) p.current p.sections (t refl) v)
  ])
]

parse_line-AreSections :
    (filename : Bytes) (line : ℕ) (text : Bytes) (p : Parser)
    → AreSections p.sections
    → IfSome AreParsed (parse_line filename line text p)
unfolding parse_line
parse_line-AreSections filename line text p v = elim (Bool-cases (ltb int_max (length text))) [
  | inl e ↦ rw e tt
  | inr n ↦ rw n (trimmed_line-AreSections filename line (trim text) p (trim-IsTrimmed text) v)
]

parse_lines-AreSections :
    (filename : Bytes) (line : ℕ) (texts : List Bytes) (p : Parser)
    → AreSections p.sections
    → AreSections (parse_lines filename line texts p).1.sections
unfolding parse_lines
parse_lines-AreSections filename line [] p v = v
parse_lines-AreSections filename line (text ∷ texts) p v =
    after (parse_line filename (line + 1) text p)
      (parse_line-AreSections filename (line + 1) text p v)
      (λ p'. parse_lines-AreSections filename (line + 1) texts p')
  where
    after :
        (o : Option Parser)
        → IfSome AreParsed o
        → ((p' : Parser)
            → AreSections p'.sections
            → AreSections (parse_lines filename (line + 1) texts p').1.sections)
        → let out : Ret × Parser = elim o [
          | none ↦ (failed einval, p)
          | some p' ↦ parse_lines filename (line + 1) texts p'
        ] in
          AreSections out.1.sections
    after none i ih = v
    after (some p') i ih = ih p' i

-- `_parse_file`, whatever stands in the file and whatever it returns, keeps the sections well formed: no
-- two of them have names alike, no name is longer than 100 bytes, no two options of a section have
-- keys alike, and keys and values are not empty and do not begin or end with white space.
pub parse_file-AreSections :
    (filename text : Bytes) (ss : List Section)
    → AreSections ss
    → AreSections (parse_file filename text ss).1
unfolding parse_file
parse_file-AreSections filename text ss v =
    parse_lines-AreSections filename 0 (lines_of [] text) (record { sections = ss; current = none })
      v
