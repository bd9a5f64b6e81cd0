-- ===== src/Text.antt =====
-- src/common/util.h and the functions of the C library that src/common/conf_file.cpp calls on text, in
-- the C locale. A text with its length is a list of bytes.
pub mod Fold
pub mod Trim
use mavlink_router.Prelude.{
  ℕ, zero, suc, ◌+◌, ◌-◌, Bool, true, false, ◌&&◌, ◌||◌, not, Option, none, some, List, [], ◌∷◌,
  ◌++◌, leb, ◌==◌, if◌then◌else◌, length,
}
use mavlink_router.Throttle.{is_empty}

abbrev pub Bytes : Type 0
Bytes = List ℕ

-- The last byte of a text, or `d` if it is empty.
abbrev pub last_or : Bytes → ℕ → ℕ
last_or [] d = d
last_or (x ∷ xs) d = last_or xs x

-- `isspace`
unfoldable pub is_space : ℕ → Bool
is_space c = c == b' ' || (leb 9 c && leb c 13)

-- `tolower`
unfoldable pub lower : ℕ → ℕ
lower c = if leb b'A' c && leb c b'Z' then c + 32 else c

-- `strncaseeq` over all of two texts of one length: it stops at a byte 0.
unfoldable pub strncaseeq : Bytes → Bytes → Bool
unfolding lower
strncaseeq [] ys = true
strncaseeq (x ∷ xs) [] = false
strncaseeq (x ∷ xs) (y ∷ ys) = lower x == lower y && (x == 0 || strncaseeq xs ys)

-- `memcaseeq`
unfoldable pub memcaseeq : Bytes → Bytes → Bool
unfolding strncaseeq
memcaseeq a b = length a == length b && strncaseeq a b

-- `memchr`, with what stands before the byte and behind it.
unfoldable pub split_at : ℕ → Bytes → Option (Bytes × Bytes)
split_at c [] = none
split_at c (x ∷ xs) =
    if x == c
    then some ([], xs)
    else elim (split_at c xs) [ none ↦ none | some (before, behind) ↦ some (x ∷ before, behind) ]

-- The two loops of `ConfFile::_trim`.
unfoldable pub trim_front : Bytes → Bytes
unfolding is_space
trim_front [] = []
trim_front (x ∷ xs) = if is_space x then trim_front xs else x ∷ xs

unfoldable pub trim_end : Bytes → Bytes
unfolding is_space
trim_end [] = []
trim_end (x ∷ xs) = let rest = trim_end xs in if is_empty rest && is_space x then [] else x ∷ rest

unfoldable pub trim : Bytes → Bytes
unfolding trim_front trim_end
trim s = trim_end (trim_front s)
