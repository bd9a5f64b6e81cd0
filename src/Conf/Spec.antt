-- ===== src/Conf/Spec.antt =====
-- src/common/conf_file.cpp, `ConfFile::_parse_file`: what a file means, and that this is what the parser
-- makes of it.
use mavlink_router.Prelude.{
  Bool, true, false, ◌&&◌, ◌||◌, Option, none, some, List, [], ◌∷◌, ltb, ◌==◌, if◌then◌else◌,
  length,
}
use mavlink_router.Throttle.{is_empty}
use mavlink_router.Text.{Bytes, memcaseeq, split_at, trim}
use mavlink_router.Conf.{section_name, max_section_name, int_max}

-- What one line says.
pub data Statement : Type 0 where
  blank wrong : Statement
  heading : Bytes → Statement
  setting : Bytes → Bytes → Statement

unfoldable pub heading_of : Option Bytes → Statement
heading_of none = wrong
heading_of (some name) = if ltb max_section_name (length name) then wrong else heading name

unfoldable pub setting_of : Option (Bytes × Bytes) → Statement
setting_of none = wrong
setting_of (some (key, value)) =
    if is_empty key || is_empty value then wrong else setting (trim key) (trim value)

unfoldable pub statement_of : Bytes → Statement
unfolding heading_of setting_of
statement_of [] = blank
statement_of (c ∷ cs) =
    if c == b';' || c == b'#'
    then blank
    else if c == b'['
    then heading_of (section_name cs)
    else setting_of (split_at b'=' (c ∷ cs))

unfoldable pub statement : Bytes → Statement
unfolding statement_of
statement text = if ltb int_max (length text) then wrong else statement_of (trim text)

-- A value that is set for a key in a section.
pub record Assignment : Type 0 where
  pub section : Bytes
  pub key : Bytes
  pub value : Bytes

-- What a sequence of statements sets, up to the first that is wrong or that sets a key before any
-- heading; and whether there is no such one.
unfoldable pub assignments : Option Bytes → List Statement → List Assignment × Bool
assignments current [] = ([], true)
assignments current (blank ∷ ss) = assignments current ss
assignments current (heading name ∷ ss) = assignments (some name) ss
assignments current (wrong ∷ ss) = ([], false)
assignments none (setting key value ∷ ss) = ([], false)
assignments (some name) (setting key value ∷ ss) =
    let (rest, whole) = assignments (some name) ss in
    (record { section = name; key = key; value = value } ∷ rest, whole)

-- The last value for a key in a section, where names are compared without regard to case.
unfoldable pub last_value : Bytes → Bytes → List Assignment → Option Bytes → Option Bytes
last_value section key [] before = before
last_value section key (a ∷ rest) before =
    last_value section key rest
      (if memcaseeq section a.section && memcaseeq key a.key then some a.value else before)
