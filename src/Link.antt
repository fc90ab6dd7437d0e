-- ===== src/Link.antt =====
-- crates/guinea-router/src/link.rs: what a deep link may carry, and how one capture is written
-- into a path segment. A `String` is the list of its bytes, and `is_utf8` says which lists of
-- bytes are one, as `String::from_utf8` decides it.
pub mod Utf8
pub mod RoundTrip
mod Tests
use guinea.Base.{
  ℕ, ◌+◌, ◌-◌, ◌*◌, ◌/◌, ◌%◌, Bool, true, false, ◌&&◌, ◌||◌, Option, none, some, List, [], ◌∷◌,
  Text, ◌==◌, leb, ltb, if◌then◌else◌, same_text, codes,
}
use guinea.Link.Utf8.{is_utf8}

-- `u8::is_ascii_alphanumeric`.
abbrev is_alphanumeric : ℕ → Bool
is_alphanumeric b =
    (leb b'0' b && leb b b'9') || (leb b'A' b && leb b b'Z') || (leb b'a' b && leb b b'z')

-- `unreserved`
abbrev pub unreserved : ℕ → Bool
unreserved b = is_alphanumeric b || b == b'-' || b == b'.' || b == b'_' || b == b'~'

-- `char::from_digit(_, 16)`, in upper case.
abbrev pub hex_digit : ℕ → ℕ
hex_digit d = if ltb d 10 then b'0' + d else b'A' + (d - 10)

-- The loop of `escape`, byte by byte.
unfoldable pub escape : Text → Text
escape [] = []
escape (b ∷ rest) =
    if unreserved b
    then b ∷ escape rest
    else b'%' ∷ hex_digit (b / 16) ∷ hex_digit (b % 16) ∷ escape rest

-- One digit of `u8::from_str_radix(_, 16)`.
abbrev pub digit_value : ℕ → Option ℕ
digit_value c =
    if leb b'0' c && leb c b'9'
    then some (c - b'0')
    else if leb b'A' c && leb c b'F'
    then some (c - b'A' + 10)
    else if leb b'a' c && leb c b'f'
    then some (c - b'a' + 10)
    else none

abbrev join_digits : Option ℕ → Option ℕ → Option ℕ
join_digits (some hi) (some lo) = some (hi * 16 + lo)
join_digits _ _ = none

-- `u8::from_str_radix` of two bytes: it takes a leading `+` and one digit too.
abbrev pub hex_byte : ℕ → ℕ → Option ℕ
hex_byte a b = if a == b'+' then digit_value b else join_digits (digit_value a) (digit_value b)

abbrev pub prepend : Option ℕ → Option Text → Option Text
prepend (some b) (some rest) = some (b ∷ rest)
prepend _ _ = none

-- The `while` loop of `unescape`, over the bytes that are left. Where the two bytes after a `%`
-- do not end at a character, one of them is no digit, and both readings give `None`.
unfoldable pub unescape_bytes : Text → Option Text
unescape_bytes [] = some []
unescape_bytes (c ∷ []) = if c == b'%' then none else some (c ∷ [])
unescape_bytes (c ∷ a ∷ []) = if c == b'%' then none else prepend (some c) (unescape_bytes (a ∷ []))
unescape_bytes (c ∷ a ∷ b ∷ rest) =
    if c == b'%'
    then prepend (hex_byte a b) (unescape_bytes rest)
    else prepend (some c) (unescape_bytes (a ∷ b ∷ rest))

-- `String::from_utf8(_).ok()`
abbrev pub from_utf8 : Option Text → Option Text
from_utf8 none = none
from_utf8 (some bytes) = if is_utf8 bytes then some bytes else none

-- `unescape`
unfoldable pub unescape : Text → Option Text
unescape segment = from_utf8 (unescape_bytes segment)

-- `bool` as a link value.
unfoldable pub encode_bool : Bool → Text
encode_bool true = codes "true"
encode_bool false = codes "false"

unfoldable pub decode_bool : Text → Option Bool
decode_bool segment =
    if same_text segment (codes "true")
    then some true
    else if same_text segment (codes "false")
    then some false
    else none
