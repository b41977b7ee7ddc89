-- ===== src/Config.antt =====
-- The configuration file of client and server: `zkUA_readConfFile`, `zkUA_startsWith` and
-- `zkUA_Config` (src/zk_cli.c, include/zk_cli.h). The file is the list of its bytes, with no NUL.
pub mod Assign
pub mod Words
pub mod Settings
pub mod Path
use ua_rate_throttling.Common.{
  ℕ, zero, suc, ◌+◌, ◌≡◌, ◌||◌, Bool, true, false, Option, none, some, List, [], ◌∷◌, ◌++◌, Bytes,
  codes, length, ltb, leb, ◌==◌, if◌then◌else◌, ℤ, pos, negsuc, isspace, ◌&&◌,
}
use ua_rate_throttling.Common.Cstdlib.{strtol, skip_space}
use ua_rate_throttling.Guid.{Guid, parse_guid}

-- `zkUA_startsWith`: `strncmp` over the length of the prefix. No byte of the prefix is NUL, so a
-- line that ends inside it differs from it there.
unfoldable pub starts_with : Bytes → Bytes → Bool
starts_with line [] = true
starts_with [] (p ∷ prefix) = false
starts_with (c ∷ line) (p ∷ prefix) = c == p && starts_with line prefix

-- `zkUA_Config`. `ua_port` is the 64-bit pattern of a `long`, and a string is what its buffer holds.
pub record Config : Type 0 where
  pub ua_port : ℕ
  pub r_support : ℤ
  pub state : ℤ
  pub a_priority : Bool
  pub hostname : Bytes
  pub username : Bytes
  pub password : Bytes
  pub server_id : Bytes
  pub zookeeper_quorum : Bytes
  pub guid : Guid

-- What stands in the members before the first line is read.
abbrev pub init_config : Config
init_config = record {
  ua_port = 0;
  r_support = negsuc 0;
  state = negsuc 0;
  a_priority = false;
  hostname = [];
  username = [];
  password = [];
  server_id = [];
  zookeeper_quorum = [];
  guid = record { data1 = 0; data2 = 0; data3 = 0; data4 = 0 ∷ 0 ∷ 0 ∷ 0 ∷ 0 ∷ 0 ∷ 0 ∷ 0 ∷ [] };
}

-- The ladder under "RedundancyType".
unfoldable pub redundancy_of : Bytes → ℤ
unfolding starts_with
redundancy_of value =
    if starts_with value (codes "standalone")
    then pos 0
    else if starts_with value (codes "cold")
    then pos 1
    else if starts_with value (codes "warm")
    then pos 2
    else if starts_with value (codes "hot")
    then pos 3
    else if starts_with value (codes "transparent")
    then pos 4
    else if starts_with value (codes "hot+")
    then pos 5
    else negsuc 0

pub state_of : Bytes → ℤ
state_of value = if starts_with value (codes "active") then pos 1 else pos 0

-- One round of the loop behind `fscanf`: the ladder over the name of the argument.
unfoldable pub assign : Bytes → Bytes → Config → Config
assign argument value c =
    if starts_with argument (codes "Hostname")
    then record c { hostname = value }
    else if starts_with argument (codes "PortNumber")
    then record c { ua_port = strtol value 10 }
    else if starts_with argument (codes "GroupGUID")
    then record c { guid = parse_guid value }
    else if starts_with argument (codes "RedundancyType")
    then record c { r_support = redundancy_of value }
    else if starts_with argument (codes "State")
    then record c { state = state_of value }
    else if starts_with argument (codes "AvailabilityPriority")
    then record c { a_priority = starts_with value (codes "true") }
    else if starts_with argument (codes "Username")
    then record c { username = value }
    else if starts_with argument (codes "Password")
    then record c { password = value }
    else if starts_with argument (codes "ServerId")
    then record c { server_id = value }
    else if starts_with argument (codes "ZooKeeperQuorum")
    then record c { zookeeper_quorum = value }
    else c

-- `%s` stores the bytes up to the next space, and leaves the rest unread.
span_word : Bytes → Bytes × Bytes
unfolding isspace
span_word [] = ([], [])
span_word (c ∷ s) =
    let (word, rest) = span_word s in if isspace c then ([], c ∷ s) else (c ∷ word, rest)

next_word : Bytes → Bytes × Bytes
unfolding span_word skip_space
next_word s = span_word (skip_space s)

-- How reading the file ends. `%s` has no width, so a word that does not fit its buffer of 65535
-- bytes with its terminator is written past the end of it, and nothing is known from there on.
pub data Reading : Type 0 where
  exited : Reading
  overrun : Reading
  loaded : Config → Reading
  out_of_fuel : Reading

abbrev pub word_limit : ℕ
word_limit = 65535

-- The test of the loop behind a round: the file is at its end exactly if the white space that the
-- round read behind the value was the last of it.
until_end : (Bytes → Config → Reading) → Bytes → Config → Reading
until_end loop [] c = loaded c
until_end loop (d ∷ rest) c = loop (d ∷ rest) c

-- `while (!feof(confFile))`. The test before the first round passes. A word that is missing leaves
-- its buffer as `memset` left it, empty.
read_loop : ℕ → Bytes → Config → Reading
unfolding next_word until_end
read_loop zero s c = out_of_fuel
read_loop (suc fuel) s c =
    let (argument, s1) = next_word s in
    let (value, s2) = next_word s1 in
    if leb word_limit (length argument) || leb word_limit (length value)
    then overrun
    else until_end (read_loop fuel) (skip_space s2) (assign argument value c)

-- `zkUA_readConfFile`, from the bytes of the file or from a file that cannot be opened.
unfoldable pub read_conf_file : Option Bytes → Reading
unfolding read_loop
read_conf_file none = exited
read_conf_file (some s) = read_loop (length s + 1) s init_config
