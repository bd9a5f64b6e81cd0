-- ===== src/Conf/Refine.antt =====
-- src/common/conf_file.cpp, `ConfFile::_parse_file`: what the parser makes of a file, against the
-- meaning of its lines.
use mavlink_router.Prelude.{
  ℕ, ◌≤◌, ◌≡◌, refl, sym, ap, ◌∙◌, inl, inr, true, ◌&&◌, ◌||◌, Option, none, some, List, [], ◌∷◌,
  arith, ltb, ◌==◌, lt→ltb, le→ltb, if◌then◌else◌, Bool-cases, is_some, length, All,
}
use mavlink_router.Throttle.{is_empty}
use mavlink_router.Text.{Bytes, memcaseeq, split_at, trim}
use mavlink_router.Text.Fold.{fold, memcaseeq_right, memcaseeq_refl, memcaseeq_alike, length-fold}
use mavlink_router.Conf.{
  Config, Section, Parser, find_section, put_config, add_config, add_section, section_name,
  option_line, max_section_name, int_max, trimmed_line, parse_line,
}
use mavlink_router.Conf.Lookup.{
  value_in, find_section_alike, Opens, malformed, too_long, reopened, opened, add_section-Opens,
  value_in-opened, put_in, value_in-put_in, config_in-put_in, config_in-none, find_section-put_in,
}
use mavlink_router.Conf.Spec.{
  Statement, blank, wrong, heading, setting, heading_of, setting_of, statement_of, statement,
}

abbrev pub Relates : Option Bytes → Option Bytes → List Section → Type 0
Relates none none ss = Unit
Relates none (some b) ss = ⊥
Relates (some a) none ss = ⊥
Relates (some a) (some b) ss = (fold a ≡ fold b) × (is_some (find_section a ss) ≡ true)

-- The parser stands in the section `current`, and no section name is too long.
pub record InStep (current : Option Bytes) (p : Parser) : Type 0 where
  pub relates : Relates p.current current p.sections
  pub short : All (λ s. length s.name ≤ max_section_name) p.sections

pub data Effect (current : Option Bytes) (p : Parser) : Statement → Option Parser → Type 0 where
  skips : Effect current p blank (some p)
  opens :
      (name : Bytes) (p' : Parser)
      → InStep (some name) p'
      → ((s k : Bytes) → value_in s k p'.sections ≡ value_in s k p.sections)
      → Effect current p (heading name) (some p')
  sets :
      (name key value : Bytes) (p' : Parser)
      → current ≡ some name
      → InStep current p'
      → ((s k : Bytes)
          → value_in s k p'.sections
            ≡ (if memcaseeq s name && memcaseeq k key then some value else value_in s k p.sections))
      → Effect current p (setting key value) (some p')
  homeless : (key value : Bytes) → current ≡ none → Effect current p (setting key value) none
  refuses : Effect current p wrong none

find_section-short :
    (name : Bytes) (s : Section) (ss : List Section)
    → All (λ s. length s.name ≤ max_section_name) ss
    → find_section name ss ≡ some s
    → (fold name ≡ fold s.name) × (length name ≤ max_section_name)
unfolding find_section
find_section-short name s [] short h = cc
find_section-short name s (t ∷ ss) short h = elim (Bool-cases (memcaseeq name t.name)) [
  | inl e ↦
      let same : t ≡ s = ground (arith, h, e) in
      let alike = memcaseeq_alike name t.name e in
      (
        rw (← same) alike,
        omega (arith, short.0, ap length alike, length-fold name, length-fold t.name),
      )
  | inr n ↦ find_section-short name s ss short.1 (rw n at h)
]

find_section_first :
    (name : Bytes) (ss : List Section)
    → is_some (find_section name (record { name = name; configs = [] } ∷ ss)) ≡ true
unfolding find_section
find_section_first name ss = rw (memcaseeq_refl name) refl

heading-Effect :
    (current : Option Bytes) (body : Bytes) (p : Parser)
    → InStep current p
    → (o : Option (Bytes × List Section)) → Opens body p.sections o
    → Effect current p (heading_of (section_name body)) (elim o [
      | none ↦ none
      | some (name, sections) ↦ some (record { sections = sections; current = some name })
    ])
unfolding heading_of
heading-Effect current body p v _ (malformed e) = rw e refuses
heading-Effect current body p v _ (too_long name e new long) =
    rw (e, heading_of, lt→ltb max_section_name (length name) long) refuses
heading-Effect current body p v _ (reopened name s e f) =
    let (alike, short) = find_section-short name s p.sections v.short f in
    rw (e, heading_of, le→ltb max_section_name (length name) short)
      (opens name (record { sections = p.sections; current = some s.name })
        (record {
          relates =
              (sym alike, ap is_some (find_section_alike s.name name p.sections (sym alike) ∙ f));
          short = v.short;
        })
        (λ s k. refl))
heading-Effect current body p v _ (opened name e new short) =
    rw (e, heading_of, le→ltb max_section_name (length name) short)
      (opens name
        (record {
          sections = record { name = name; configs = [] } ∷ p.sections;
          current = some name;
        })
        (record { relates = (refl, find_section_first name p.sections); short = (short, v.short) })
        (λ s k. value_in-opened s k name p.sections new))

short-put_in :
    (key value filename : Bytes) (line : ℕ) (name : Bytes) (ss : List Section)
    → All (λ s. length s.name ≤ max_section_name) ss
    → All (λ s. length s.name ≤ max_section_name) (put_in key value filename line name ss)
unfolding put_in
short-put_in key value filename line name [] v = tt
short-put_in key value filename line name (s ∷ ss) v = elim (Bool-cases (memcaseeq name s.name)) [
  | inl e ↦ rw e (v.0, v.1)
  | inr n ↦ rw n (v.0, short-put_in key value filename line name ss v.1)
]

put-Effect :
    (current at : Option Bytes) (ss : List Section) (filename : Bytes) (line : ℕ)
    (entry key value : Bytes)
    → InStep current (record { sections = ss; current = at })
    → ((cs : List Config)
        → add_config filename line entry cs ≡ some (put_config key value filename line cs))
    → Effect current
        (record { sections = ss; current = at })
        (setting key value)
        (option_line filename line entry at ss)
unfolding option_line
put-Effect none none ss filename line entry key value v put = homeless key value refl
put-Effect (some b) none ss filename line entry key value v put = absurd v.relates
put-Effect none (some a) ss filename line entry key value v put = absurd v.relates
put-Effect (some b) (some a) ss filename line entry key value v put =
    let (alike, found) = v.relates in
    let ss' = put_in key value filename line a ss in
    rw (option_line, config_in-put_in key value filename line entry a ss put found)
      (sets b key value (record { sections = ss'; current = some a }) refl
        (record {
          relates = (alike, find_section-put_in a key value filename line a ss ∙ found);
          short = short-put_in key value filename line a ss v.short;
        })
        (λ s k.
          value_in-put_in s k key value filename line a ss found
          ∙ ap (λ t. if t && memcaseeq k key then some value else value_in s k ss)
              (memcaseeq_right s a b alike)))

wrong-Effect :
    (current at : Option Bytes) (ss : List Section) (filename : Bytes) (line : ℕ) (entry : Bytes)
    → ((cs : List Config) → add_config filename line entry cs ≡ none)
    → Effect current
        (record { sections = ss; current = at })
        wrong
        (option_line filename line entry at ss)
unfolding option_line
wrong-Effect current none ss filename line entry bad = refuses
wrong-Effect current (some a) ss filename line entry bad =
    rw (option_line, config_in-none filename line entry a ss bad) refuses

setting-Effect :
    (current at : Option Bytes) (ss : List Section) (filename : Bytes) (line : ℕ) (entry : Bytes)
    (o : Option (Bytes × Bytes))
    → split_at b'=' entry ≡ o
    → InStep current (record { sections = ss; current = at })
    → Effect current
        (record { sections = ss; current = at })
        (setting_of o)
        (option_line filename line entry at ss)
unfolding setting_of add_config
setting-Effect current at ss filename line entry none e v =
    wrong-Effect current at ss filename line entry (λ cs. rw (add_config, e) refl)
setting-Effect current at ss filename line entry (some (key, value)) e v =
    elim (Bool-cases (is_empty key || is_empty value)) [
      | inl bad ↦ rw bad (
          wrong-Effect current at ss filename line entry
            (λ cs. rw (add_config, e) (ground (arith, bad))))
      | inr good ↦ rw good (
          put-Effect current at ss filename line entry (trim key) (trim value) v
            (λ cs. rw (add_config, e) (ground (arith, good))))
    ]

trimmed_line-Effect :
    (current : Option Bytes) (filename : Bytes) (line : ℕ) (text : Bytes) (p : Parser)
    → InStep current p
    → Effect current p (statement_of text) (trimmed_line filename line text p)
unfolding trimmed_line statement_of
trimmed_line-Effect current filename line [] p v = skips
trimmed_line-Effect current filename line (c ∷ cs) p v =
    elim (Bool-cases (c == b';' || c == b'#')) [
      | inl e ↦ rw e skips
      | inr n ↦ rw n (elim (Bool-cases (c == b'[')) [
        | inl h ↦ rw h (
            heading-Effect current cs p v (add_section cs p.sections)
              (add_section-Opens cs p.sections))
        | inr m ↦ rw m (
            setting-Effect current p.current p.sections filename line (c ∷ cs)
              (split_at b'=' (c ∷ cs)) refl v)
      ])
    ]

pub parse_line-Effect :
    (current : Option Bytes) (filename : Bytes) (line : ℕ) (text : Bytes) (p : Parser)
    → InStep current p
    → Effect current p (statement text) (parse_line filename line text p)
unfolding parse_line statement
parse_line-Effect current filename line text p v = elim (Bool-cases (ltb int_max (length text))) [
  | inl e ↦ rw e refuses
  | inr n ↦ rw n (trimmed_line-Effect current filename line (trim text) p v)
]
