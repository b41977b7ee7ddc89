-- ===== src/Dump.antt =====
-- `zkUA_dumpStat` of src/zk_cli.c: what it prints of the state of a znode.
use ua_rate_throttling.Common.{
  ℕ, zero, suc, ◌-◌, ◌/◌, ◌%◌, ◌^◌, Option, none, some, ◌++◌, Bytes, codes, get_or, ltb,
  if◌then◌else◌,
}
use ua_rate_throttling.Common.Cstdlib.{radix_digits}

-- `struct Stat`, as far as it is printed; the numbers are patterns of 64 and 32 bits.
pub record Stat : Type 0 where
  pub czxid : ℕ
  pub mzxid : ℕ
  pub ctime : ℕ
  pub mtime : ℕ
  pub version : ℕ
  pub aversion : ℕ
  pub ephemeral_owner : ℕ

-- The quotient of a signed 64-bit number by 1000, which is rounded towards zero.
unfoldable pub seconds : ℕ → ℕ
seconds n = if ltb n (2 ^ 63) then n / 1000 else (2 ^ 64 - (2 ^ 64 - n) / 1000) % 2 ^ 64

-- How many hexadecimal digits `%llx` writes, of at most `fuel` and one.
hex_width : ℕ → ℕ → ℕ
hex_width zero n = 1
hex_width (suc fuel) n = let more = suc (hex_width fuel (n / 16)) in if ltb n 16 then 1 else more

-- `%x` and `%llx` of a pattern of at most 64 bits.
unfoldable pub print_hex : ℕ → Bytes
unfolding hex_width radix_digits
print_hex n = radix_digits 16 (λ d. get_or (codes "0123456789abcdef") d 0) (hex_width 15 n) n

-- What `ctime_r` makes of a time, with the line feed at its end, is a parameter.
unfoldable pub dump_stat : (ℕ → Bytes) → Option Stat → Bytes
unfolding seconds print_hex
dump_stat ctime_r none = codes "null\n"
dump_stat ctime_r (some stat) =
    codes "\tctime = "
    ++ ctime_r (seconds stat.ctime)
    ++ codes "\tczxid="
    ++ print_hex stat.czxid
    ++ codes "\n\tmtime="
    ++ ctime_r (seconds stat.mtime)
    ++ codes "\tmzxid="
    ++ print_hex stat.mzxid
    ++ codes "\n\tversion="
    ++ print_hex stat.version
    ++ codes "\taversion="
    ++ print_hex stat.aversion
    ++ codes "\n\tephemeralOwner = "
    ++ print_hex stat.ephemeral_owner
    ++ codes "\n"
