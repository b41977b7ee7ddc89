-- ===== src/Guid.antt =====
-- The GUID of the redundancy group: how `zkUA_readConfFile` (src/zk_cli.c) cuts it out of the
-- configuration file, and how UA_PRINTF_GUID_FORMAT (include/open62541.h) prints it into a path.
pub mod RoundTrip
use ua_rate_throttling.Common.{
  ℕ, zero, suc, ◌+◌, ◌%◌, ◌^◌, ◌<◌, ◌≡◌, List, [], ◌∷◌, ◌++◌, Bytes, codes, length, take, drop,
  get_or, All, ◌==◌, if◌then◌else◌, c_string,
}
use ua_rate_throttling.Common.Cstdlib.{strtoul, hex_digits}

-- `UA_Guid`; `data4` has eight bytes.
pub record Guid : Type 0 where
  pub data1 : ℕ
  pub data2 : ℕ
  pub data3 : ℕ
  pub data4 : List ℕ

-- The widths of the members.
pub record IsGuid (g : Guid) : Type 0 where
  pub data1_fits : g.data1 < 2 ^ 32
  pub data2_fits : g.data2 < 2 ^ 16
  pub data3_fits : g.data3 < 2 ^ 16
  pub data4_fits : All (λ b. b < 256) g.data4
  pub data4_size : length g.data4 ≡ 8

-- `memcpy(dst, argValue + offset, size)` and a terminator. The buffer behind a short value holds
-- zeros, so what is cut there ends early.
cut : ℕ → ℕ → Bytes → Bytes
cut offset size value = take size (drop offset value)

-- The loop over `data4`: a dash stands at offset 23.
read_data4 : ℕ → ℕ → Bytes → List ℕ
unfolding cut
read_data4 zero offset value = []
read_data4 (suc rounds) offset value =
    let start = if offset == 23 then offset + 1 else offset in
    strtoul (cut start 2 value) 16 % 2 ^ 8 ∷ read_data4 rounds (start + 2) value

unfoldable pub parse_guid : Bytes → Guid
unfolding cut read_data4
parse_guid value = record {
  data1 = strtoul (cut 0 8 value) 16 % 2 ^ 32;
  data2 = strtoul (cut (8 + 1) 4 value) 16 % 2 ^ 16;
  data3 = strtoul (cut 14 4 value) 16 % 2 ^ 16;
  data4 = read_data4 8 19 value;
}

-- What stands between the braces: 8, 4, 4, 4 and 12 hexadecimal digits.
unfoldable pub guid_text : Guid → Bytes
guid_text g =
    hex_digits 8 g.data1
    ++ b'-' ∷ hex_digits 4 g.data2
    ++ b'-' ∷ hex_digits 4 g.data3
    ++ b'-' ∷ hex_digits 2 (get_or g.data4 0 0)
    ++ hex_digits 2 (get_or g.data4 1 0)
    ++ b'-' ∷ hex_digits 2 (get_or g.data4 2 0)
    ++ hex_digits 2 (get_or g.data4 3 0)
    ++ hex_digits 2 (get_or g.data4 4 0)
    ++ hex_digits 2 (get_or g.data4 5 0)
    ++ hex_digits 2 (get_or g.data4 6 0)
    ++ hex_digits 2 (get_or g.data4 7 0)

-- `printf(UA_PRINTF_GUID_FORMAT, UA_PRINTF_GUID_DATA(guid))`
unfoldable pub print_guid : Guid → Bytes
unfolding guid_text
print_guid g = b'{' ∷ guid_text g ++ b'}' ∷ []
