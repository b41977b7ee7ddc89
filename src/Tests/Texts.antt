-- ===== src/Tests/Texts.antt =====
-- The theorems on texts, GUIDs, the configuration file, hashes and completions at concrete inputs.
use ua_rate_throttling.Common.{
  ◌+◌, ◌*◌, ◌≤◌, ◌≡◌, refl, some, [], ◌∷◌, Bytes, codes, length, All, arith, pos, isspace,
}
use ua_rate_throttling.Url.{encode, decode}
use ua_rate_throttling.Url.RoundTrip.{decode-encode}
use ua_rate_throttling.Url.Buffer.{
  IsSegmentChar, encode-IsSegmentChar, length-encode, length-decode,
}
use ua_rate_throttling.Guid.{Guid, parse_guid, guid_text}
use ua_rate_throttling.Guid.RoundTrip.{parse_guid-guid_text}
use ua_rate_throttling.Config.{starts_with, redundancy_of, read_conf_file, init_config, loaded}
use ua_rate_throttling.Config.Assign.{redundancy_of_hot_plus}
use ua_rate_throttling.Config.Settings.{assign_all, settings, assign_all-settings}
use ua_rate_throttling.Config.Words.{Fits, words, pair_up, read_conf_file-settings}

abbrev pub url : Bytes
url = codes "opc.tcp://host:4840"

decode-encode_example : decode (encode url) ≡ url
decode-encode_example = decode-encode url (omega arith)

encode-IsSegmentChar_example : All IsSegmentChar (encode url)
encode-IsSegmentChar_example = encode-IsSegmentChar url (omega arith)

length-encode_example : length (encode url) + 1 ≤ length url * 3 + 1
length-encode_example = length-encode url

length-decode_example : length (decode (codes "100%2")) + 1 ≤ length (codes "100%2") + 1
length-decode_example = length-decode (codes "100%2")

abbrev pub group : Guid
group = record {
  data1 = 2864434397;
  data2 = 1;
  data3 = 65535;
  data4 = 1 ∷ 2 ∷ 3 ∷ 4 ∷ 5 ∷ 6 ∷ 7 ∷ 255 ∷ [];
}

parse_guid-guid_text_example : parse_guid (guid_text group) ≡ group
parse_guid-guid_text_example = parse_guid-guid_text group (record {
  data1_fits = omega arith;
  data2_fits = omega arith;
  data3_fits = omega arith;
  data4_fits = omega arith;
  data4_size = refl;
})

redundancy_of_hot_plus_example : redundancy_of (codes "hot+") ≡ pos 3
unfolding starts_with
redundancy_of_hot_plus_example = redundancy_of_hot_plus (codes "hot+") refl

abbrev pub file : Bytes
file = codes "PortNumber 4840\nHostname a\nPortNumber 4841\n"

pub file-Fits : All Fits (words file)
unfolding words isspace
file-Fits = omega arith

read_conf_file-settings_example :
    read_conf_file (some file) ≡ loaded (settings (pair_up (words file)) init_config)
read_conf_file-settings_example = read_conf_file-settings file file-Fits

assign_all-settings_example :
    assign_all ((codes "State", codes "active") ∷ (codes "Hostname", codes "b") ∷ []) init_config
    ≡ settings ((codes "State", codes "active") ∷ (codes "Hostname", codes "b") ∷ []) init_config
assign_all-settings_example =
    assign_all-settings ((codes "State", codes "active") ∷ (codes "Hostname", codes "b") ∷ [])
      init_config
