-- ===== src/Tests/Base64.antt =====
-- A code of bytes in text that keeps what is documented of base64: four characters for each three
-- bytes. The first three hold six bits of a byte each, and the last one what is left of them.
use ua_rate_throttling.Common.{
  ℕ, ◌+◌, ◌-◌, ◌*◌, ◌/◌, ◌%◌, ◌≡◌, refl, ap, [], ◌∷◌, ◌++◌, Bytes, length, All, ◌==◌, if◌then◌else◌,
  arith, false,
}
use ua_rate_throttling.Chunk.Documented.{IsByte, IsText}

abbrev low : ℕ → ℕ
low b = 32 + b % 64

-- Where there is no byte
abbrev pad : ℕ
pad = 96

abbrev pub to_base64 : Bytes → Bytes
to_base64 [] = []
to_base64 (a ∷ []) = low a ∷ pad ∷ pad ∷ (32 + a / 64) ∷ []
to_base64 (a ∷ b ∷ []) = low a ∷ low b ∷ pad ∷ (32 + (a / 64 + 4 * (b / 64))) ∷ []
to_base64 (a ∷ b ∷ c ∷ d) =
    low a ∷ low b ∷ low c ∷ (32 + (a / 64 + 4 * (b / 64) + 16 * (c / 64))) ∷ to_base64 d

abbrev decode_group : ℕ → ℕ → ℕ → ℕ → Bytes
decode_group w x y z =
    let a = w - 32 + 64 * ((z - 32) % 4) in
    let b = x - 32 + 64 * ((z - 32) / 4 % 4) in
    let c = y - 32 + 64 * ((z - 32) / 16) in
    if x == pad then a ∷ [] else if y == pad then a ∷ b ∷ [] else a ∷ b ∷ c ∷ []

abbrev pub from_base64 : Bytes → Bytes
from_base64 (w ∷ x ∷ y ∷ z ∷ t) = decode_group w x y z ++ from_base64 t
from_base64 _ = []

pub to_base64-IsText : (d : Bytes) → All IsByte d → All IsText (to_base64 d)
to_base64-IsText [] h = tt
to_base64-IsText (a ∷ []) h = omega (arith, h)
to_base64-IsText (a ∷ b ∷ []) h = omega (arith, h)
to_base64-IsText (a ∷ b ∷ c ∷ d) (ha, (hb, (hc, hd))) = (
  omega (arith, ha),
  (omega (arith, hb), (omega (arith, hc), (omega (arith, ha, hb, hc), to_base64-IsText d hd))),
)

pub length-to_base64 : (d : Bytes) → length (to_base64 d) ≡ 4 * ((length d + 2) / 3)
length-to_base64 [] = refl
length-to_base64 (a ∷ []) = refl
length-to_base64 (a ∷ b ∷ []) = refl
length-to_base64 (a ∷ b ∷ c ∷ d) = omega (arith, length-to_base64 d)

low-not_pad : (b : ℕ) → (low b == pad) ≡ false
low-not_pad b = ground arith

first :
    (a b c : ℕ)
    → IsByte a
    → IsByte b
    → low a - 32 + 64 * ((32 + (a / 64 + 4 * (b / 64) + 16 * c) - 32) % 4) ≡ a
first a b c ha hb = omega (arith, ha, hb)

second :
    (a b c : ℕ)
    → IsByte a
    → IsByte b
    → low b - 32 + 64 * ((32 + (a / 64 + 4 * (b / 64) + 16 * c) - 32) / 4 % 4) ≡ b
second a b c ha hb = omega (arith, ha, hb)

third :
    (a b c : ℕ)
    → IsByte a
    → IsByte b
    → IsByte c
    → low c - 32 + 64 * ((32 + (a / 64 + 4 * (b / 64) + 16 * (c / 64)) - 32) / 16) ≡ c
third a b c ha hb hc = omega (arith, ha, hb, hc)

pub from_base64-to_base64 : (d : Bytes) → All IsByte d → from_base64 (to_base64 d) ≡ d
from_base64-to_base64 [] h = refl
from_base64-to_base64 (a ∷ []) h = ap (λ v. v ∷ []) (omega (arith, h))
from_base64-to_base64 (a ∷ b ∷ []) (ha, (hb, hc)) =
    let first' : low a - 32 + 64 * ((32 + (a / 64 + 4 * (b / 64)) - 32) % 4) ≡ a =
      omega (arith, ha, hb) in
    let second' : low b - 32 + 64 * ((32 + (a / 64 + 4 * (b / 64)) - 32) / 4 % 4) ≡ b =
      omega (arith, ha, hb) in
    rw (low-not_pad b) (λ i. first' i ∷ second' i ∷ [])
from_base64-to_base64 (a ∷ b ∷ c ∷ d) (ha, (hb, (hc, hd))) =
    rw (low-not_pad b, low-not_pad c)
      (λ i.
        first a b (c / 64) ha hb i
        ∷ second a b (c / 64) ha hb i
        ∷ third a b c ha hb hc i
        ∷ from_base64-to_base64 d hd i)
