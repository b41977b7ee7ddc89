-- ===== src/Guid/RoundTrip.antt =====
-- Printing a GUID and reading it back.
use ua_rate_throttling.Common.{
  ℕ, ◌+◌, ◌%◌, ◌^◌, ◌<◌, ◌≡◌, refl, [], ◌∷◌, ap, ◌∙◌, All, length, List, arith,
}
use native.Mathlib.Nat.{mod-eq_of_lt}
use ua_rate_throttling.Common.Cstdlib.{strtoul, hex_digits}
use ua_rate_throttling.Common.Cstdlib.Plain.{strtoul-hex_digits}
use ua_rate_throttling.Guid.{Guid, IsGuid, parse_guid, guid_text, cut, read_data4}

-- Each member is cut out of the text where the text has it.
module _ (g : Guid) where
  cut_data1 : cut 0 8 (guid_text g) ≡ hex_digits 8 g.data1
  unfolding guid_text cut hex_digits
  cut_data1 = refl

  cut_data2 : cut (8 + 1) 4 (guid_text g) ≡ hex_digits 4 g.data2
  unfolding guid_text cut hex_digits
  cut_data2 = refl

  cut_data3 : cut 14 4 (guid_text g) ≡ hex_digits 4 g.data3
  unfolding guid_text cut hex_digits
  cut_data3 = refl

read_hex :
    (width n m : ℕ) → n < 16 ^ width → n < m → n < 2 ^ 64 → strtoul (hex_digits width n) 16 % m ≡ n
read_hex width n m h small fits =
    ap (λ (k : ℕ). k % m) (strtoul-hex_digits width n h fits) ∙ mod-eq_of_lt small

-- A byte, printed by `%02X` and read back.
read_byte : (b : ℕ) → b < 256 → strtoul (hex_digits 2 b) 16 % 2 ^ 8 ≡ b
read_byte b h = read_hex 2 b (2 ^ 8) h h (omega arith)

read_data4-guid_text :
    (d1 d2 d3 : ℕ) (bs : List ℕ)
    → All (λ b. b < 256) bs
    → length bs ≡ 8
    → read_data4 8 19 (guid_text (record { data1 = d1; data2 = d2; data3 = d3; data4 = bs })) ≡ bs
unfolding read_data4 guid_text cut hex_digits
read_data4-guid_text d1 d2 d3 (a ∷ b ∷ c ∷ d ∷ e ∷ f ∷ g ∷ h ∷ [])
      (ha, (hb, (hc, (hd, (he, (hf, (hg, (hh, _)))))))) size =
    λ i.
      read_byte a ha i
      ∷ read_byte b hb i
      ∷ read_byte c hc i
      ∷ read_byte d hd i
      ∷ read_byte e he i
      ∷ read_byte f hf i
      ∷ read_byte g hg i
      ∷ read_byte h hh i
      ∷ []
read_data4-guid_text d1 d2 d3 _ small size = absurd (omega arith)

-- Reading the text between the braces of a printed GUID gives that GUID, for every GUID whose
-- members fit their widths.
pub parse_guid-guid_text : (g : Guid) → IsGuid g → parse_guid (guid_text g) ≡ g
unfolding parse_guid
parse_guid-guid_text g h = λ i. record {
  data1 =
      (ap (λ s. strtoul s 16 % 2 ^ 32) (cut_data1 g)
          ∙ read_hex 8 g.data1 (2 ^ 32) h.data1_fits h.data1_fits (omega (arith, h.data1_fits)))
        i;
  data2 =
      (ap (λ s. strtoul s 16 % 2 ^ 16) (cut_data2 g)
          ∙ read_hex 4 g.data2 (2 ^ 16) h.data2_fits h.data2_fits (omega (arith, h.data2_fits)))
        i;
  data3 =
      (ap (λ s. strtoul s 16 % 2 ^ 16) (cut_data3 g)
          ∙ read_hex 4 g.data3 (2 ^ 16) h.data3_fits h.data3_fits (omega (arith, h.data3_fits)))
        i;
  data4 = read_data4-guid_text g.data1 g.data2 g.data3 g.data4 h.data4_fits h.data4_size i;
}
