-- ===== src/Cli/Address.antt =====
-- src/endpoint.cpp, `validate_ipv4`, `validate_ipv6` and `validate_ip`: what the regular expressions match.
use mavlink_router.Prelude.{
  ℕ, Bool, true, false, ◌&&◌, ◌||◌, not, List, [], ◌∷◌, leb, ◌==◌, if◌then◌else◌, length,
}
use mavlink_router.Text.{Bytes, last_or}
use mavlink_router.Throttle.{is_empty}

-- The parts of a text between the bytes `d`; there is at least one.
unfoldable pub first_part : ℕ → Bytes → Bytes
first_part d [] = []
first_part d (c ∷ cs) = if c == d then [] else c ∷ first_part d cs

unfoldable pub other_parts : ℕ → Bytes → List Bytes
other_parts d [] = []
other_parts d (c ∷ cs) = if c == d then first_part d cs ∷ other_parts d cs else other_parts d cs

unfoldable pub every : (Bytes → Bool) → List Bytes → Bool
every p [] = true
every p (t ∷ ts) = p t && every p ts

unfoldable pub all_bytes : (ℕ → Bool) → Bytes → Bool
all_bytes p [] = true
all_bytes p (c ∷ cs) = p c && all_bytes p cs

-- `\d` and `[a-f\d]`
unfoldable pub is_digit : ℕ → Bool
is_digit c = leb b'0' c && leb c b'9'

unfoldable pub is_hex : ℕ → Bool
is_hex c = is_digit c || (leb b'a' c && leb c b'f')

-- `\d{1,3}` and `[a-f\d]{0,4}`
unfoldable pub is_octet : Bytes → Bool
is_octet t = leb 1 (length t) && (leb (length t) 3 && all_bytes is_digit t)

unfoldable pub is_hextet : Bytes → Bool
is_hextet t = leb (length t) 4 && all_bytes is_hex t

-- `\d{1,3}\.\d{1,3}\.\d{1,3}\.\d{1,3}`
unfoldable pub validate_ipv4 : Bytes → Bool
validate_ipv4 ip =
    is_octet (first_part b'.' ip)
    && (length (other_parts b'.' ip) == 3 && every is_octet (other_parts b'.' ip))

-- The text less its last byte.
unfoldable pub but_last : Bytes → Bytes
but_last [] = []
but_last (c ∷ []) = []
but_last (c ∷ e ∷ cs) = c ∷ but_last (e ∷ cs)

-- `\[(([a-f\d]{0,4}:)+[a-f\d]{0,4})\]`
unfoldable pub validate_ipv6 : Bytes → Bool
validate_ipv6 [] = false
validate_ipv6 (c ∷ cs) =
    let body = but_last cs in
    (c == b'[' && last_or cs 0 == b']')
    && (is_hextet (first_part b':' body)
        && (not (is_empty (other_parts b':' body)) && every is_hextet (other_parts b':' body)))

unfoldable pub validate_ip : Bytes → Bool
validate_ip ip = validate_ipv4 ip || validate_ipv6 ip
