-- ===== src/Conf.antt =====
-- src/common/conf_file.cpp: the parser of configuration files, and the lookup of sections and options.
pub mod Lookup
pub mod Spec
pub mod Refine
pub mod Meaning
pub mod Configs
pub mod Invariant
pub mod Options
pub mod Values
pub mod Print
pub mod RoundTrip
mod Tests
use mavlink_router.Prelude.{
  ℕ, zero, suc, ◌+◌, ◌-◌, ◌^◌, Bool, true, false, ◌&&◌, ◌||◌, not, Option, none, some, List, [],
  ◌∷◌, ◌++◌, ltb, ◌==◌, if◌then◌else◌, length, get_or, is_some,
}
use mavlink_router.Os.{Errno, einval, enoent, Ret, count, failed, is_failure}
use mavlink_router.Throttle.{is_empty}
use mavlink_router.Text.{Bytes, last_or, is_space, memcaseeq, split_at, trim}

abbrev pub max_section_name : ℕ
max_section_name = 100

abbrev pub int_max : ℕ
int_max = 2 ^ 31 - 1

-- `struct config` and `struct section`; the links are lists, the newest entry first.
pub record Config : Type 0 where
  pub key : Bytes
  pub value : Bytes
  pub filename : Bytes
  pub line : ℕ

pub record Section : Type 0 where
  pub name : Bytes
  pub configs : List Config

unfoldable pub find_config : Bytes → List Config → Option Config
find_config key [] = none
find_config key (c ∷ cs) = if memcaseeq key c.key then some c else find_config key cs

unfoldable pub find_section : Bytes → List Section → Option Section
find_section name [] = none
find_section name (s ∷ ss) = if memcaseeq name s.name then some s else find_section name ss

-- The new value of the option that `_find_config` finds.
pub set_config : Bytes → Bytes → Bytes → ℕ → List Config → List Config
set_config key value filename line [] = []
set_config key value filename line (c ∷ cs) =
    if memcaseeq key c.key
    then record c { value = value; filename = filename; line = line } ∷ cs
    else c ∷ set_config key value filename line cs

-- The end of `_add_config`, after the key and the value are known.
pub put_config : Bytes → Bytes → Bytes → ℕ → List Config → List Config
unfolding set_config
put_config key value filename line cs =
    if is_some (find_config key cs)
    then set_config key value filename line cs
    else record { key = key; value = value; filename = filename; line = line } ∷ cs

-- `_add_config`; `none` stands for -EINVAL.
unfoldable pub add_config : Bytes → ℕ → Bytes → List Config → Option (List Config)
add_config filename line entry cs = elim (split_at b'=' entry) [
  | none ↦ none
  | some (key, value) ↦
      if is_empty key
      then none
      else if is_empty value
      then none
      else some (put_config (trim key) (trim value) filename line cs)
]

-- The loop of `_add_section` over the name, where the flag is `spaces`: whether it may pass.
pub single_spaced : Bool → Bytes → Bool
single_spaced spaces [] = true
single_spaced spaces (c ∷ cs) =
    if is_space c then c == b' ' && not spaces && single_spaced true cs else single_spaced spaces cs

-- The name in a line that begins with `[`, from behind this on. `none` where the line is refused.
pub section_name : Bytes → Option Bytes
unfolding single_spaced
section_name body = elim (split_at b']' body) [
  | none ↦ none
  | some (name, behind) ↦
      if not (is_empty behind)
      then none
      else if is_space (last_or name b'[') || is_space (get_or name 0 b']')
      then none
      else if not (single_spaced false name)
      then none
      else some name
]

-- `_add_section`: the name of the section that it returns, and the sections after it.
pub add_section : Bytes → List Section → Option (Bytes × List Section)
add_section body ss = elim (section_name body) [
  | none ↦ none
  | some name ↦ elim (find_section name ss) [
    | some s ↦ some (s.name, ss)
    | none ↦
        if ltb max_section_name (length name)
        then none
        else some (name, record { name = name; configs = [] } ∷ ss)
  ]
]

-- What `_parse_file` keeps from line to line. The pointer `s` to a section is the name of the section.
pub record Parser : Type 0 where
  pub sections : List Section
  pub current : Option Bytes

-- `_add_config` in the section of this name.
unfoldable pub config_in : Bytes → ℕ → Bytes → Bytes → List Section → Option (List Section)
config_in filename line entry name [] = none
config_in filename line entry name (s ∷ ss) =
    let here : Option (List Section) = elim (add_config filename line entry s.configs) [
      | none ↦ none
      | some configs ↦ some (record s { configs = configs } ∷ ss)
    ] in
    let further : Option (List Section) = elim (config_in filename line entry name ss) [
      | none ↦ none
      | some ss' ↦ some (s ∷ ss')
    ] in
    if memcaseeq name s.name then here else further

-- The `default` case: an option, in the section that was opened last.
unfoldable pub option_line : Bytes → ℕ → Bytes → Option Bytes → List Section → Option Parser
option_line filename line entry none ss = none
option_line filename line entry (some name) ss = elim (config_in filename line entry name ss) [
  | none ↦ none
  | some ss' ↦ some (record { sections = ss'; current = some name })
]

-- A trimmed line, by its first byte.
unfoldable pub trimmed_line : Bytes → ℕ → Bytes → Parser → Option Parser
trimmed_line filename line [] p = some p
trimmed_line filename line (c ∷ cs) p =
    let heading : Option Parser = elim (add_section cs p.sections) [
      | none ↦ none
      | some (name, sections) ↦ some (record { sections = sections; current = some name })
    ] in
    if c == b';' || c == b'#'
    then some p
    else if c == b'['
    then heading
    else option_line filename line (c ∷ cs) p.current p.sections

-- One turn of the loop of `_parse_file`; `none` stands for its return of -EINVAL.
unfoldable pub parse_line : Bytes → ℕ → Bytes → Parser → Option Parser
unfolding trimmed_line
parse_line filename line text p =
    if ltb int_max (length text) then none else trimmed_line filename line (trim text) p

-- The lines that end in a newline, as the calls of `memchr` find them; what is behind the last newline
-- is no line.
pub lines_of : Bytes → Bytes → List Bytes
lines_of line [] = []
lines_of line (c ∷ cs) =
    if c == b'\n' then line ∷ lines_of [] cs else lines_of (line ++ (c ∷ [])) cs

-- The loop: its result, and what has been parsed at the time that it returns.
pub parse_lines : Bytes → ℕ → List Bytes → Parser → Ret × Parser
parse_lines filename line [] p = (count 0, p)
parse_lines filename line (text ∷ texts) p = elim (parse_line filename (line + 1) text p) [
  | none ↦ (failed einval, p)
  | some p' ↦ parse_lines filename (line + 1) texts p'
]

-- `_parse_file`
pub parse_file : Bytes → Bytes → List Section → Ret × List Section
unfolding parse_lines lines_of
parse_file filename text ss =
    let (ret, p) =
      parse_lines filename 0 (lines_of [] text) (record { sections = ss; current = none }) in
    (ret, p.sections)
