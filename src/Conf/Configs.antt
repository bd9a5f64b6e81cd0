-- ===== src/Conf/Configs.antt =====
-- src/common/conf_file.cpp, `ConfFile::_add_config`: which options a section can have.
use mavlink_router.Prelude.{
  ℕ, ◌≡◌, refl, inl, inr, false, Option, none, some, List, [], ◌∷◌, arith, Bool-cases, Option-cases,
  is_some,
}
use mavlink_router.Throttle.{is_empty}
use mavlink_router.Text.{Bytes, memcaseeq, split_at, trim}
use mavlink_router.Text.Trim.{IsTrimmed, split_at-IsTrimmed}
use mavlink_router.Conf.{Config, find_config, set_config, put_config, add_config}

-- The options of a section: no two keys are alike, and keys and values are trimmed and not empty.
abbrev pub AreConfigs : List Config → Type 0
AreConfigs [] = Unit
AreConfigs (c ∷ cs) =
    (find_config c.key cs ≡ none) × IsTrimmed c.key × IsTrimmed c.value × AreConfigs cs

find_config-set_config_none :
    (j key value filename : Bytes) (line : ℕ) (cs : List Config)
    → is_some (find_config j (set_config key value filename line cs)) ≡ is_some (find_config j cs)
unfolding find_config set_config
find_config-set_config_none j key value filename line [] = refl
find_config-set_config_none j key value filename line (c ∷ cs) =
    ground (arith, find_config-set_config_none j key value filename line cs)

pub none_of : {A : Type 0} (o : Option A) → is_some o ≡ false → o ≡ none
none_of none h = refl
none_of (some a) h = cc

pub some-none : {A : Type 0} (o p : Option A) → is_some o ≡ is_some p → p ≡ none → o ≡ none
some-none o p e n = none_of o (rw (e, n) refl)

set_config-AreConfigs :
    (key value filename : Bytes) (line : ℕ) (cs : List Config)
    → IsTrimmed value
    → AreConfigs cs
    → AreConfigs (set_config key value filename line cs)
unfolding set_config
set_config-AreConfigs key value filename line [] t v = tt
set_config-AreConfigs key value filename line (c ∷ cs) t (new, k, w, v) =
    elim (Bool-cases (memcaseeq key c.key)) [
      | inl e ↦ rw e (new, k, t, v)
      | inr n ↦ rw n (
        some-none _ _ (find_config-set_config_none c.key key value filename line cs) new,
        k,
        w,
        set_config-AreConfigs key value filename line cs t v,
      )
    ]

put_config-AreConfigs :
    (key value filename : Bytes) (line : ℕ) (cs : List Config)
    → IsTrimmed key
    → IsTrimmed value
    → AreConfigs cs
    → AreConfigs (put_config key value filename line cs)
unfolding put_config
put_config-AreConfigs key value filename line cs k t v =
    elim (Bool-cases (is_some (find_config key cs))) [
      | inl e ↦ rw e (set_config-AreConfigs key value filename line cs t v)
      | inr n ↦ rw n (none_of _ n, k, t, v)
    ]

-- The predicate holds of the result, if there is one.
abbrev pub IfSome : {A : Type 0} → (A → Type 0) → Option A → Type 0
IfSome P none = Unit
IfSome P (some a) = P a

pub add_config-AreConfigs :
    (filename : Bytes) (line : ℕ) (entry : Bytes) (cs : List Config)
    → IsTrimmed entry
    → AreConfigs cs
    → IfSome AreConfigs (add_config filename line entry cs)
unfolding add_config
add_config-AreConfigs filename line entry cs t v = elim (Option-cases (split_at b'=' entry)) [
  | inl e ↦ rw (add_config, e) tt
  | inr ((key, value), e) ↦
      rw (add_config, e)
        (elim (Bool-cases (is_empty key)) [
          | inl k ↦ rw k tt
          | inr k ↦ rw k (elim (Bool-cases (is_empty value)) [
            | inl w ↦ rw w tt
            | inr w ↦
                let (trimmed_key, trimmed_value) =
                  split_at-IsTrimmed b'=' entry key value t e k w in
                rw w (
                  put_config-AreConfigs (trim key) (trim value) filename line cs trimmed_key
                    trimmed_value v)
          ])
        ])
]
