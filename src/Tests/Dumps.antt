-- ===== src/Tests/Dumps.antt =====
-- The dump of a znode's state at a concrete input.
use ua_rate_throttling.Common.{◌≡◌, refl, some, ◌++◌, codes}
use ua_rate_throttling.Common.Cstdlib.{radix_digits}
use ua_rate_throttling.Dump.{Stat, seconds, print_hex, dump_stat}

abbrev stat : Stat
stat = record {
  czxid = 0x1002;
  mzxid = 0xAB;
  ctime = 1500;
  mtime = 2500;
  version = 0;
  aversion = 15;
  ephemeral_owner = 16;
}

dump_of_stat :
    dump_stat (λ t. codes "Thu Jan  1 00:00:0" ++ print_hex t ++ codes " 1970\n") (some stat)
    ≡ codes "\tctime = Thu Jan  1 00:00:01 1970\n\tczxid=1002\n\tmtime=Thu Jan  1 00:00:02 1970\n"
      ++ codes "\tmzxid=ab\n\tversion=0\taversion=f\n\tephemeralOwner = 10\n"
unfolding dump_stat seconds print_hex radix_digits
dump_of_stat = refl
