-- ===== src/Conf/Meaning.antt =====
-- src/common/conf_file.cpp, `ConfFile::_parse_file`: what the parser makes of a file, against the
-- meaning of its lines.
use mavlink_router.Prelude.{
  ℕ, ◌+◌, ◌≤◌, ◌≡◌, refl, ap, ◌∙◌, Option, none, some, List, [], ◌∷◌, map, if◌then◌else◌, length,
  All,
}
use mavlink_router.Os.{einval, Ret, count, failed}
use mavlink_router.Text.{Bytes}
use mavlink_router.Conf.{
  Section, Parser, max_section_name, parse_line, parse_lines, parse_file, lines_of,
}
use mavlink_router.Conf.Lookup.{value_in}
use mavlink_router.Conf.Spec.{Statement, statement, assignments, last_value}
use mavlink_router.Conf.Refine.{
  InStep, Effect, skips, opens, sets, homeless, refuses, parse_line-Effect,
}

-- What the loop has done when it returns.
record Means (current : Option Bytes) (texts : List Bytes) (p : Parser) (out : Ret × Parser)
    : Type 0 where
  result :
      out.0 ≡ (if (assignments current (map statement texts)).1 then count 0 else failed einval)
  values :
      (s k : Bytes)
      → value_in s k out.1.sections
        ≡ last_value s k (assignments current (map statement texts)).0 (value_in s k p.sections)

Means-step :
    (current : Option Bytes) (filename : Bytes) (line : ℕ) (text : Bytes) (texts : List Bytes)
    (p : Parser) (st : Statement) (o : Option Parser)
    → ((c : Option Bytes) (p' : Parser)
        → InStep c p'
        → Means c texts p' (parse_lines filename (line + 1) texts p'))
    → InStep current p
    → statement text ≡ st
    → parse_line filename (line + 1) text p ≡ o
    → Effect current p st o
    → Means current (text ∷ texts) p (parse_lines filename line (text ∷ texts) p)
unfolding parse_lines assignments last_value
Means-step current filename line text texts p st o ih v se oe skips =
    let m = ih current p v in
    rw (parse_lines, oe) (record { result = rw se m.result; values = rw se m.values })
Means-step current filename line text texts p st o ih v se oe (opens name p' v' same) =
    let m = ih (some name) p' v' in
    rw (parse_lines, oe)
      (record { result = rw se m.result; values = λ s k. rw (se, ← same s k) (m.values s k) })
Means-step current filename line text texts p st o ih v se oe
      (sets name key value p' stands v' set) =
    let m = ih current p' v' in
    rw (parse_lines, oe)
      (record {
        result = rw (se, stands) (rw stands at m.result);
        values = λ s k.
            rw (se, stands)
              (rw stands at (m.values s k)
                ∙ ap (last_value s k (assignments (some name) (map statement texts)).0) (set s k));
      })
Means-step current filename line text texts p st o ih v se oe (homeless key value stands) =
    rw (parse_lines, oe)
      (record { result = rw (se, stands) refl; values = λ s k. rw (se, stands) refl })
Means-step current filename line text texts p st o ih v se oe refuses =
    rw (parse_lines, oe) (record { result = rw se refl; values = λ s k. rw se refl })

parse_lines-Means :
    (current : Option Bytes) (filename : Bytes) (line : ℕ) (texts : List Bytes) (p : Parser)
    → InStep current p
    → Means current texts p (parse_lines filename line texts p)
unfolding parse_lines assignments last_value
parse_lines-Means current filename line [] p v = record { result = refl; values = λ s k. refl }
parse_lines-Means current filename line (text ∷ texts) p v =
    Means-step current filename line text texts p (statement text)
      (parse_line filename (line + 1) text p)
      (λ c p'. parse_lines-Means c filename (line + 1) texts p') v refl refl
      (parse_line-Effect current filename (line + 1) text p v)

-- `_parse_file`, from sections whose names are not too long. It returns 0 if every line of the file is
-- well formed, and -EINVAL if not. Either way, after it an option of a section has the last value that
-- the lines before the first wrong one give it, by any case of the names, or else the value that it had.
-- What stands behind the last newline is no line.
pub parse_file-Means :
    (filename text : Bytes) (ss : List Section)
    → All (λ s. length s.name ≤ max_section_name) ss
    → let means = assignments none (map statement (lines_of [] text)) in
      let out = parse_file filename text ss in
      (out.0 ≡ (if means.1 then count 0 else failed einval))
      × ((s k : Bytes) → value_in s k out.1 ≡ last_value s k means.0 (value_in s k ss))
unfolding parse_file
parse_file-Means filename text ss short =
    let m =
      parse_lines-Means none filename 0 (lines_of [] text)
        (record { sections = ss; current = none }) (record { relates = tt; short = short }) in
    (m.result, m.values)
