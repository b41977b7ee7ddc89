-- ===== src/Url/RoundTrip.antt =====
-- Percent-encoding and back: `zkUA_url_encode` and `zkUA_url_decode` together.
use ua_rate_throttling.Common.{
  ℕ, ◌<◌, ◌≡◌, refl, ap, sym, ◌∙◌, true, false, [], ◌∷◌, ◌++◌, arith, bit_and, Bytes, All, ◌==◌,
  all_below, all_below_sound, Bool-cases, inl, inr,
}
use ua_rate_throttling.Url.{
  is_unreserved, to_hex, shift_char, encode_char, encode, hex_pair, decode_plain, decode,
}

-- A byte of a C string.
abbrev pub IsChar : ℕ → Type 0
IsChar c = (0 < c) × (c < 256)

hex_table :
    all_below 256 (λ c. hex_pair (to_hex (shift_char c)) (to_hex (bit_and c 15)) == c) ≡ true
unfolding all_below hex_pair to_hex shift_char
hex_table = refl

hex_pair-to_hex : (c : ℕ) → c < 256 → hex_pair (to_hex (shift_char c)) (to_hex (bit_and c 15)) ≡ c
hex_pair-to_hex c h = let e = all_below_sound 256 _ c hex_table h in ground arith

decode-cons :
    (c : ℕ) (rest : Bytes) → (c == b'%') ≡ false → decode (c ∷ rest) ≡ decode_plain c ∷ decode rest
unfolding decode
decode-cons c [] h = ground arith
decode-cons c (a ∷ []) h = ground arith
decode-cons c (a ∷ b ∷ s) h = ground arith

decode_percent :
    (a b : ℕ) (rest : Bytes) → decode (b'%' ∷ a ∷ b ∷ rest) ≡ hex_pair a b ∷ decode rest
unfolding decode
decode_percent a b rest = refl

unreserved_plain : (c : ℕ) → is_unreserved c ≡ true → ((c == b'%') ≡ false) × (decode_plain c ≡ c)
unfolding is_unreserved decode_plain
unreserved_plain c h = ground arith

decode_plus : (rest : Bytes) → decode (b'+' ∷ rest) ≡ b' ' ∷ decode rest
unfolding decode_plain
decode_plus rest = decode-cons b'+' rest refl

decode-encode_char :
    (c : ℕ) (rest : Bytes) → c < 256 → decode (encode_char c ++ rest) ≡ c ∷ decode rest
unfolding encode_char
decode-encode_char c rest h = elim (Bool-cases (is_unreserved c)) [
  | inl plain ↦
      rw plain (cc (decode-cons c rest (unreserved_plain c plain).0, (unreserved_plain c plain).1))
  | inr hidden ↦ elim (Bool-cases (c == b' ')) [
    | inl space ↦ rw (hidden, space) (ground (arith, decode_plus rest))
    | inr other ↦ rw (hidden, other) (cc (decode_percent _ _ rest, hex_pair-to_hex c h))
  ]
]

-- Decoding an encoded C string gives the string back, whatever bytes it holds.
pub decode-encode : (s : Bytes) → All IsChar s → decode (encode s) ≡ s
unfolding encode
decode-encode [] h = unfold decode in refl
decode-encode (c ∷ s) h =
    decode-encode_char c (encode s) h.0.1 ∙ ap (λ t. c ∷ t) (decode-encode s h.1)

-- Two C strings with the same encoding are the same string, so two servers with different URLs
-- never share a queue znode.
pub encode_injective : (s t : Bytes) → All IsChar s → All IsChar t → encode s ≡ encode t → s ≡ t
encode_injective s t hs ht e = sym (decode-encode s hs) ∙ ap decode e ∙ decode-encode t ht
