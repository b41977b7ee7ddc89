-- ===== src/Url/Buffer.antt =====
-- The buffers of the URL encoder and decoder, and the bytes of an encoded URL.
use ua_rate_throttling.Common.{
  ℕ, ◌+◌, ◌*◌, ◌≤◌, ◌<◌, ◌≡◌, ◌≢◌, refl, true, ◌&&◌, [], ◌∷◌, arith, bit_and, Bytes, length,
  length-append, All, All-append, ltb, ◌==◌, all_below, all_below_sound, Bool-cases, inl, inr, Bool,
  not,
}
use ua_rate_throttling.Url.{is_unreserved, to_hex, shift_char, encode_char, encode, decode}
use ua_rate_throttling.Url.RoundTrip.{IsChar}

length-encode_char : (c : ℕ) → length (encode_char c) ≤ 3
unfolding encode_char
length-encode_char c = ground arith

-- The encoded string and its terminator fit `malloc(strlen(str) * 3 + 1)`.
pub length-encode : (s : Bytes) → length (encode s) + 1 ≤ length s * 3 + 1
unfolding encode
length-encode [] = omega arith
length-encode (c ∷ s) =
    omega (arith, length-append (encode_char c) (encode s), length-encode_char c, length-encode s)

-- The decoded string and its terminator fit `malloc(strlen(str) + 1)`, also for text that is no
-- encoding.
pub length-decode : (s : Bytes) → length (decode s) + 1 ≤ length s + 1
unfolding decode
length-decode [] = omega arith
length-decode (c ∷ []) = ground arith
length-decode (c ∷ a ∷ []) = ground (arith, length-decode (a ∷ []))
length-decode (c ∷ a ∷ b ∷ s) = ground (arith, length-decode s, length-decode (a ∷ b ∷ s))

-- A byte that a znode name may hold: neither the terminator nor the separator of path segments.
abbrev pub IsSegmentChar : ℕ → Type 0
IsSegmentChar c = (0 < c) × (c ≢ b'/') × (c < 128)

abbrev segment_test : ℕ → Bool
segment_test c = ltb 0 c && not (c == b'/') && ltb c 128

hex_digit_table :
    all_below 256
      (λ c. segment_test (to_hex (shift_char c)) && segment_test (to_hex (bit_and c 15)))
    ≡ true
unfolding all_below to_hex shift_char
hex_digit_table = refl

hex_digits :
    (c : ℕ)
    → c < 256
    → IsSegmentChar (to_hex (shift_char c)) × IsSegmentChar (to_hex (bit_and c 15))
hex_digits c h = let e = all_below_sound 256 _ c hex_digit_table h in ground arith

encode_char-IsSegmentChar : (c : ℕ) → c < 256 → All IsSegmentChar (encode_char c)
unfolding encode_char is_unreserved
encode_char-IsSegmentChar c h = elim (Bool-cases (is_unreserved c)) [
  | inl plain ↦ rw plain (ground arith)
  | inr hidden ↦ rw hidden (ground (arith, hex_digits c h))
]

-- An encoded URL holds no `/` and no NUL, and only ASCII: it is the name of one znode.
pub encode-IsSegmentChar : (s : Bytes) → All IsChar s → All IsSegmentChar (encode s)
unfolding encode
encode-IsSegmentChar [] h = tt
encode-IsSegmentChar (c ∷ s) h =
    All-append IsSegmentChar (encode_char c) (encode s) (encode_char-IsSegmentChar c h.0.1)
      (encode-IsSegmentChar s h.1)

pub encode-filled : (s : Bytes) → 0 < length s → 0 < length (encode s)
unfolding encode encode_char
encode-filled [] h = absurd (omega arith)
encode-filled (c ∷ s) h = ground (arith, length-append (encode_char c) (encode s))
