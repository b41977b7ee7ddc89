-- ===== src/Url.antt =====
-- src/zk_urlEncode.c: the percent-encoding that turns a server's URL into one znode name.
-- A `char` is its byte, 0 to 255, and a C string is the list of its bytes before the terminator.
-- `encode` and `decode` give what the loops write before the final NUL.
pub mod RoundTrip
pub mod Buffer
use ua_rate_throttling.Common.{
  ℕ, ◌+◌, ◌-◌, ◌*◌, ◌/◌, ◌%◌, ◌≡◌, refl, Bool, true, false, ◌||◌, [], ◌∷◌, ◌++◌, bit_or, bit_and,
  Bytes, codes, get_or, ltb, ◌==◌, if◌then◌else◌, isdigit, isalnum, tolower,
}

-- The `char` that is returned is the low byte of the `int` that is computed.
from_hex : ℕ → ℕ
unfolding isdigit tolower
from_hex ch = if isdigit ch then ch - b'0' else (tolower ch + 256 - b'a' + 10) % 256

to_hex : ℕ → ℕ
to_hex code = get_or (codes "0123456789abcdef") (bit_and code 15) 0

-- `*pstr >> 4` as a `char`: the shift of a negative `char` keeps its sign.
shift_char : ℕ → ℕ
shift_char c = if ltb c 128 then c / 16 else 240 + c / 16

is_unreserved : ℕ → Bool
unfolding isalnum
is_unreserved c = isalnum c || c == b'-' || c == b'_' || c == b'.' || c == b'~'

-- What one round of the loop writes.
encode_char : ℕ → Bytes
unfolding is_unreserved to_hex shift_char
encode_char c =
    if is_unreserved c
    then c ∷ []
    else if c == b' '
    then b'+' ∷ []
    else b'%' ∷ to_hex (shift_char c) ∷ to_hex (bit_and c 15) ∷ []

-- `zkUA_url_encode`
unfoldable pub encode : Bytes → Bytes
unfolding encode_char
encode [] = []
encode (c ∷ s) = encode_char c ++ encode s

-- `from_hex(pstr[1]) << 4 | from_hex(pstr[2])`, stored in a `char`
hex_pair : ℕ → ℕ → ℕ
unfolding from_hex
hex_pair a b = bit_or (from_hex a * 16 % 256) (from_hex b)

decode_plain : ℕ → ℕ
decode_plain c = if c == b'+' then b' ' else c

-- `zkUA_url_decode`: a `%` with fewer than two bytes behind it is dropped, and writes nothing.
unfoldable pub decode : Bytes → Bytes
unfolding hex_pair decode_plain
decode [] = []
decode (c ∷ []) = if c == b'%' then [] else decode_plain c ∷ []
decode (c ∷ a ∷ []) = elim (c == b'%') [
  | true ↦ decode (a ∷ [])
  | false ↦ decode_plain c ∷ decode (a ∷ [])
]
decode (c ∷ a ∷ b ∷ s) = elim (c == b'%') [
  | true ↦ hex_pair a b ∷ decode s
  | false ↦ decode_plain c ∷ decode (a ∷ b ∷ s)
]
