-- ===== src/Conf/Lookup.antt =====
-- src/common/conf_file.cpp: what the operations of the parser change for the lookup of an option.
use mavlink_router.Prelude.{
  ℕ, ◌≤◌, ◌<◌, ◌≡◌, refl, inl, inr, true, ◌&&◌, Option, none, some, List, [], ◌∷◌, arith, ltb,
  if◌then◌else◌, Bool-cases, Option-cases, is_some, length,
}
use mavlink_router.Text.{Bytes, memcaseeq}
use mavlink_router.Text.Fold.{
  fold, memcaseeq_right, memcaseeq_left, memcaseeq_alike, memcaseeq_apart,
}
use mavlink_router.Conf.{
  Config, Section, find_config, find_section, set_config, put_config, add_config, add_section,
  section_name, config_in, max_section_name,
}

abbrev pub value_of : Option Config → Option Bytes
value_of none = none
value_of (some c) = some c.value

abbrev pub value_in_section : Bytes → Option Section → Option Bytes
value_in_section key none = none
value_in_section key (some s) = value_of (find_config key s.configs)

-- The value of an option in a section, if it has been set.
unfoldable pub value_in : Bytes → Bytes → List Section → Option Bytes
value_in section key ss = value_in_section key (find_section section ss)

find_config-set_config :
    (j key value filename : Bytes) (line : ℕ) (cs : List Config)
    → is_some (find_config key cs) ≡ true
    → value_of (find_config j (set_config key value filename line cs))
      ≡ (if memcaseeq j key then some value else value_of (find_config j cs))
unfolding find_config set_config
find_config-set_config j key value filename line [] h = cc
find_config-set_config j key value filename line (c ∷ cs) h =
    elim (Bool-cases (memcaseeq key c.key)) [
      | inl e ↦ ground (arith, e, memcaseeq_right j key c.key (memcaseeq_alike key c.key e))
      | inr n ↦ ground (
        arith,
        n,
        memcaseeq_apart key j c.key n,
        find_config-set_config j key value filename line cs,
      )
    ]

find_config-put_config :
    (j key value filename : Bytes) (line : ℕ) (cs : List Config)
    → value_of (find_config j (put_config key value filename line cs))
      ≡ (if memcaseeq j key then some value else value_of (find_config j cs))
unfolding put_config find_config
find_config-put_config j key value filename line cs =
    elim (Bool-cases (is_some (find_config key cs))) [
      | inl e ↦ rw e (find_config-set_config j key value filename line cs e)
      | inr n ↦ rw n (ground arith)
    ]

pub find_section_alike :
    (a b : Bytes) (ss : List Section) → fold a ≡ fold b → find_section a ss ≡ find_section b ss
unfolding find_section
find_section_alike a b [] e = refl
find_section_alike a b (s ∷ ss) e =
    ground (arith, memcaseeq_left a b s.name e, find_section_alike a b ss e)

-- What `add_section` returns, and when.
pub data Opens (body : Bytes) (ss : List Section) : Option (Bytes × List Section) → Type 0 where
  malformed : section_name body ≡ none → Opens body ss none
  too_long :
      (name : Bytes)
      → section_name body ≡ some name
      → find_section name ss ≡ none
      → max_section_name < length name
      → Opens body ss none
  reopened :
      (name : Bytes) (s : Section)
      → section_name body ≡ some name
      → find_section name ss ≡ some s
      → Opens body ss (some (s.name, ss))
  opened :
      (name : Bytes)
      → section_name body ≡ some name
      → find_section name ss ≡ none
      → length name ≤ max_section_name
      → Opens body ss (some (name, record { name = name; configs = [] } ∷ ss))

pub add_section-Opens : (body : Bytes) (ss : List Section) → Opens body ss (add_section body ss)
unfolding add_section
add_section-Opens body ss = elim (Option-cases (section_name body)) [
  | inl e ↦ rw (add_section, e) (malformed e)
  | inr (name, e) ↦ elim (Option-cases (find_section name ss)) [
    | inr (s, f) ↦ rw (add_section, e, f) (reopened name s e f)
    | inl f ↦
        rw (add_section, e, f)
          (elim (Bool-cases (ltb max_section_name (length name))) [
            | inl long ↦ rw long (too_long name e f (ground arith))
            | inr short ↦ rw short (opened name e f (ground arith))
          ])
  ]
]

-- A new section has no options.
pub value_in-opened :
    (section key name : Bytes) (ss : List Section)
    → find_section name ss ≡ none
    → value_in section key (record { name = name; configs = [] } ∷ ss) ≡ value_in section key ss
unfolding value_in find_section find_config
value_in-opened section key name ss new = elim (Bool-cases (memcaseeq section name)) [
  | inl e ↦ rw (e, find_section_alike section name ss (memcaseeq_alike section name e), new) refl
  | inr n ↦ rw n refl
]

-- An option set in a section, where it is known that it can be.
unfoldable pub put_in : Bytes → Bytes → Bytes → ℕ → Bytes → List Section → List Section
put_in key value filename line name [] = []
put_in key value filename line name (s ∷ ss) =
    if memcaseeq name s.name
    then record s { configs = put_config key value filename line s.configs } ∷ ss
    else s ∷ put_in key value filename line name ss

pub value_in-put_in :
    (section j key value filename : Bytes) (line : ℕ) (name : Bytes) (ss : List Section)
    → is_some (find_section name ss) ≡ true
    → value_in section j (put_in key value filename line name ss)
      ≡ (if memcaseeq section name && memcaseeq j key then some value else value_in section j ss)
unfolding value_in put_in find_section
value_in-put_in section j key value filename line name [] h = cc
value_in-put_in section j key value filename line name (s ∷ ss) h =
    elim (Bool-cases (memcaseeq name s.name)) [
      | inl e ↦ ground (
        arith,
        e,
        memcaseeq_right section name s.name (memcaseeq_alike name s.name e),
        find_config-put_config j key value filename line s.configs,
      )
      | inr n ↦ ground (
        arith,
        n,
        memcaseeq_apart name section s.name n,
        value_in-put_in section j key value filename line name ss,
      )
    ]

pub config_in-put_in :
    (key value filename : Bytes) (line : ℕ) (entry name : Bytes) (ss : List Section)
    → ((cs : List Config)
        → add_config filename line entry cs ≡ some (put_config key value filename line cs))
    → is_some (find_section name ss) ≡ true
    → config_in filename line entry name ss ≡ some (put_in key value filename line name ss)
unfolding config_in put_in find_section
config_in-put_in key value filename line entry name [] put h = cc
config_in-put_in key value filename line entry name (s ∷ ss) put h =
    elim (Bool-cases (memcaseeq name s.name)) [
      | inl e ↦ ground (arith, e, put s.configs)
      | inr n ↦ ground (arith, n, config_in-put_in key value filename line entry name ss put)
    ]

pub config_in-none :
    (filename : Bytes) (line : ℕ) (entry name : Bytes) (ss : List Section)
    → ((cs : List Config) → add_config filename line entry cs ≡ none)
    → config_in filename line entry name ss ≡ none
unfolding config_in
config_in-none filename line entry name [] bad = refl
config_in-none filename line entry name (s ∷ ss) bad =
    ground (arith, bad s.configs, config_in-none filename line entry name ss bad)

-- Sections keep their names.
pub find_section-put_in :
    (section key value filename : Bytes) (line : ℕ) (name : Bytes) (ss : List Section)
    → is_some (find_section section (put_in key value filename line name ss))
      ≡ is_some (find_section section ss)
unfolding put_in find_section
find_section-put_in section key value filename line name [] = refl
find_section-put_in section key value filename line name (s ∷ ss) =
    ground (arith, find_section-put_in section key value filename line name ss)
