-- ===== src/Conf/Values.antt =====
-- src/common/conf_file.cpp, `ConfFile::parse_str_buf` to `parse_bool`, and `safe_atoi` of src/common/util.cpp:
-- the functions that read a value. What the C library makes of a number is a parameter; an `int` is a word
-- of 32 bits.
use mavlink_router.Prelude.{
  ℕ, ◌-◌, ◌%◌, ◌^◌, ◌<◌, ◌≡◌, refl, ap, ◌∙◌, Bool, true, false, ◌||◌, not, Option, none, some, List,
  [], ◌∷◌, ◌++◌, map, append-nil, arith, ltb, leb, ◌==◌, if◌then◌else◌, length, All,
}
use mavlink_router.Os.{Errno, einval, enobufs, erange, other, Ret, count, failed}
use mavlink_router.Throttle.{is_empty}
use mavlink_router.Text.{Bytes, memcaseeq}

-- The text that C sees of a value, by `strndupa`.
unfoldable pub c_string : Bytes → Bytes
c_string [] = []
c_string (c ∷ cs) = if c == 0 then [] else c ∷ c_string cs

-- A byte of a token added to the first of the tokens behind it, which may not have begun.
abbrev pub add_to_first : ℕ → List Bytes → List Bytes
add_to_first c [] = (c ∷ []) ∷ []
add_to_first c (t ∷ ts) = (c ∷ t) ∷ ts

-- The tokens of `strtok`: what stands between delimiters, less what is empty. The flag says whether the
-- byte before was part of a token.
unfoldable pub strtok : ℕ → Bytes → List Bytes
strtok d [] = []
strtok d (c ∷ cs) =
    let rest = strtok d cs in
    let joins : Bool = elim cs [ [] ↦ false | next ∷ more ↦ not (next == d) ] in
    if c == d then rest else if joins then add_to_first c rest else (c ∷ []) ∷ rest

-- `parse_str_buf`, where the text that is stored ends in a 0.
unfoldable pub parse_str_buf : ℕ → Bytes → Bytes → Ret × Bytes
parse_str_buf storage_len val storage =
    if ltb (storage_len - 1) (length val)
    then (failed enobufs, storage)
    else (count 0, val ++ (0 ∷ []))

-- `parse_uint8_vector` and `parse_uint32_vector`; the size of a vector always fits its storage.
unfoldable pub parse_uint8_vector : (Bytes → ℕ) → Bytes → List ℕ → Ret × List ℕ
parse_uint8_vector atoi val target =
    (count 0, target ++ map (λ token. atoi token % 2 ^ 8) (strtok b',' (c_string val)))

unfoldable pub parse_uint32_vector : (Bytes → ℕ) → Bytes → List ℕ → Ret × List ℕ
parse_uint32_vector atol val target =
    (count 0, target ++ map (λ token. atol token % 2 ^ 32) (strtok b',' (c_string val)))

-- What a turn of the loop of `parse_pair_vector` makes of a token: a pair, the return of -1, or a call
-- of `atof` on a null pointer.
pub data Pair (F : Type 0) : Type 0 where
  pair : F → F → Pair F
  no_second crash : Pair F

unfoldable pub pair_of : {F : Type 0} → (Bytes → F) → List Bytes → Pair F
pair_of atof [] = crash
pair_of atof (first ∷ []) = no_second
pair_of atof (first ∷ second ∷ more) = pair (atof first) (atof second)

-- The loop; `none` stands for the call on a null pointer.
unfoldable pub parse_pairs :
    {F : Type 0} → (Bytes → F) → List Bytes → List (F × F) → Option (Ret × List (F × F))
unfolding pair_of
parse_pairs atof [] target = some (count 0, target)
parse_pairs atof (token ∷ tokens) target = elim (pair_of atof (strtok b',' token)) [
  | pair first second ↦ parse_pairs atof tokens (target ++ ((first, second) ∷ []))
  | no_second ↦ some (failed (other 1), target)
  | crash ↦ none
]

-- `parse_pair_vector`
unfoldable pub parse_pair_vector :
    {F : Type 0} → (Bytes → F) → Bytes → List (F × F) → Option (Ret × List (F × F))
unfolding parse_pairs
parse_pair_vector atof val target = parse_pairs atof (strtok b';' (c_string val)) target

-- What `strtol` says of a text: the value as a 64-bit word, what it has left of the text, whether it has
-- read anything, and `errno`.
pub record Strtol : Type 0 where
  pub value : ℕ
  pub rest : Bytes
  pub consumed : Bool
  pub error : Option Errno

-- `(long)(int)l == l`, for 64-bit words.
pub fits_int : ℕ → Bool
fits_int l = ltb l (2 ^ 31) || leb (2 ^ 64 - 2 ^ 31) l

-- `safe_atoi`
pub safe_atoi : (Bytes → Strtol) → Bytes → Ret × Option ℕ
unfolding fits_int
safe_atoi strtol s =
    let l = strtol s in
    elim l.error [
      | some e ↦ (failed e, none)
      | none ↦
          if not l.consumed || not (is_empty l.rest)
          then (failed einval, none)
          else if fits_int l.value
          then (count 0, some (l.value % 2 ^ 32))
          else (failed erange, none)
    ]

abbrev pub true_word : Bytes
true_word = b't' ∷ b'r' ∷ b'u' ∷ b'e' ∷ []

abbrev pub false_word : Bytes
false_word = b'f' ∷ b'a' ∷ b'l' ∷ b's' ∷ b'e' ∷ []

-- `parse_bool`
pub parse_bool : (Bytes → Strtol) → Bytes → Bool → Ret × Bool
unfolding safe_atoi
parse_bool strtol val target =
    let (ret, ival) = safe_atoi strtol (c_string val) in
    if memcaseeq true_word val
    then (count 0, true)
    else if memcaseeq false_word val
    then (count 0, false)
    else elim ival [ none ↦ (ret, target) | some i ↦ (ret, not (i == 0)) ]

-- The texts with a comma between each two.
comma_separated : List Bytes → Bytes
comma_separated [] = []
comma_separated (t ∷ []) = t
comma_separated (t ∷ u ∷ us) = t ++ b',' ∷ comma_separated (u ∷ us)

-- A text that can be a token: it is not empty and has neither a comma nor a byte 0.
pub record IsToken (t : Bytes) : Type 0 where
  pub filled : is_empty t ≡ false
  pub plain : All (λ c. ((c == b',') ≡ false) × ((c == 0) ≡ false)) t

strtok_behind : (t rest : Bytes) → IsToken t → strtok b',' (t ++ b',' ∷ rest) ≡ t ∷ strtok b',' rest
unfolding strtok
strtok_behind [] rest v = let empty : true ≡ false = v.filled in cc
strtok_behind (c ∷ []) rest v = rw v.plain.0.0 refl
strtok_behind (c ∷ e ∷ t) rest v =
    rw
      (
        v.plain.0.0,
        strtok_behind (e ∷ t) rest (record { filled = refl; plain = v.plain.1 }),
        v.plain.1.0.0,
      )
      refl

strtok_alone : (t : Bytes) → IsToken t → strtok b',' t ≡ t ∷ []
unfolding strtok
strtok_alone [] v = let empty : true ≡ false = v.filled in cc
strtok_alone (c ∷ []) v = rw v.plain.0.0 refl
strtok_alone (c ∷ e ∷ t) v =
    rw
      (
        v.plain.0.0,
        strtok_alone (e ∷ t) (record { filled = refl; plain = v.plain.1 }),
        v.plain.1.0.0,
      )
      refl

strtok-comma_separated : (ts : List Bytes) → All IsToken ts → strtok b',' (comma_separated ts) ≡ ts
unfolding comma_separated strtok
strtok-comma_separated [] v = refl
strtok-comma_separated (t ∷ []) v = strtok_alone t v.0
strtok-comma_separated (t ∷ u ∷ us) v =
    strtok_behind t (comma_separated (u ∷ us)) v.0
    ∙ ap (λ ts. t ∷ ts) (strtok-comma_separated (u ∷ us) v.1)

c_string_behind :
    (t rest : Bytes)
    → All (λ c. ((c == b',') ≡ false) × ((c == 0) ≡ false)) t
    → c_string (t ++ rest) ≡ t ++ c_string rest
unfolding c_string
c_string_behind [] rest v = refl
c_string_behind (c ∷ t) rest v = rw (v.0.1, c_string_behind t rest v.1) refl

c_string-comma_separated :
    (ts : List Bytes) → All IsToken ts → c_string (comma_separated ts) ≡ comma_separated ts
unfolding comma_separated c_string
c_string-comma_separated [] v = refl
c_string-comma_separated (t ∷ []) v = rw⁻¹ (append-nil t) (c_string_behind t [] v.0.plain)
c_string-comma_separated (t ∷ u ∷ us) v =
    c_string_behind t (b',' ∷ comma_separated (u ∷ us)) v.0.plain
    ∙ ap (λ ts. t ++ b',' ∷ ts) (c_string-comma_separated (u ∷ us) v.1)

read-print :
    (print : ℕ → Bytes) (atoi : Bytes → ℕ)
    → ((n : ℕ) → IsToken (print n))
    → ((n : ℕ) → n < 2 ^ 8 → atoi (print n) ≡ n)
    → (ns : List ℕ) → All (λ n. n < 2 ^ 8) ns
    → (map (λ token. atoi token % 2 ^ 8) (map print ns) ≡ ns) × All IsToken (map print ns)
read-print print atoi token value [] v = (refl, tt)
read-print print atoi token value (n ∷ ns) v =
    let (rest, tokens) = read-print print atoi token value ns v.1 in
    let this : n % 2 ^ 8 ≡ n = omega (arith, v.0) in
    (rw (value n v.0, this, rest) refl, (token n, tokens))

-- `parse_uint8_vector` reads back a list of bytes that is printed with commas between the numbers, and
-- appends it to what the vector held, for any way to print a number that `atoi` reads back and that uses
-- neither commas nor bytes 0.
parse_uint8_vector-comma_separated :
    (print : ℕ → Bytes) (atoi : Bytes → ℕ)
    → ((n : ℕ) → IsToken (print n))
    → ((n : ℕ) → n < 2 ^ 8 → atoi (print n) ≡ n)
    → (ns target : List ℕ) → All (λ n. n < 2 ^ 8) ns
    → parse_uint8_vector atoi (comma_separated (map print ns)) target ≡ (count 0, target ++ ns)
unfolding parse_uint8_vector
parse_uint8_vector-comma_separated print atoi token value ns target v =
    let (same, tokens) = read-print print atoi token value ns v in
    rw
      (
        c_string-comma_separated (map print ns) tokens,
        strtok-comma_separated (map print ns) tokens,
        same,
      )
      refl
