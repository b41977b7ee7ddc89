-- ===== src/Tests/Servers.antt =====
-- The setup of a server, over a client that keeps what is documented of it.
use ua_rate_throttling.Common.{
  ◌≡◌, ◌≢◌, refl, Bool, true, false, Option, none, some, [], ◌∷◌, Bytes, codes, if◌then◌else◌,
  arith, pos,
}
use ua_rate_throttling.Zoo.{zok, znonode, znodeexists, is_zok}
use ua_rate_throttling.Config.{Config}
use ua_rate_throttling.Znode.{init_globals}
use ua_rate_throttling.Queue.Documented.{same}
use ua_rate_throttling.Setup.{Startup, init_zuth_server}
use ua_rate_throttling.Setup.Libraries.{ZooClient}
use ua_rate_throttling.Setup.Documented.{Documented, is_node, settled}
use ua_rate_throttling.Setup.Serving.{IsClean, Serving, init_zuth_server-Serving}
use ua_rate_throttling.Tests.Texts.{group}

abbrev pub Tree : Type 0
Tree = Bytes → Option Bool

abbrev kind_of : Tree → Bytes → Option Bool
kind_of t [] = some false
kind_of t (c ∷ p) = t (c ∷ p)

abbrev grow : Bytes → Bool → Tree → Tree
grow p ephemeral t = λ q. if same p q then settled (kind_of t p) ephemeral else kind_of t q

kind_of-grow :
    (p : Bytes) (e : Bool) (t : Tree) (q : Bytes)
    → kind_of (grow p e t) q ≡ (if same p q then settled (kind_of t p) e else kind_of t q)
unfolding same
kind_of-grow [] e t [] = refl
kind_of-grow (c ∷ p) e t [] = refl
kind_of-grow p e t (b ∷ q) = refl

exists_lem : (k : Option Bool) → is_zok (if is_node k then zok else znonode) ≡ is_node k
exists_lem none = refl
exists_lem (some e) = refl

abbrev pub client : ZooClient
client = record {
  Tree = Tree;
  zoo_exists = λ p t. if is_node (kind_of t p) then zok else znonode;
  zoo_create = λ p e t. (if is_node (kind_of t p) then znodeexists else zok, grow p e t);
  zoo_acreate = grow;
}

abbrev documented : Documented client
documented = record {
  kind = kind_of;
  root = λ t. refl;
  exists_lem = λ p t. exists_lem (kind_of t p);
  creates = λ parent name e t named permanent. (refl, kind_of-grow _ e t);
  acreates = λ parent name e t named permanent. kind_of-grow _ e t;
}

abbrev pub configs : Config
configs = record {
  ua_port = 4840;
  r_support = pos 3;
  state = pos 1;
  a_priority = true;
  hostname = codes "host";
  username = [];
  password = [];
  server_id = codes "1";
  zookeeper_quorum = codes "zk:2181";
  guid = group;
}

abbrev startup : Startup
startup = record { globals = init_globals; running = true; server_queue_path = []; listed = [] }

-- No znode but the root.
abbrev empty : Tree
empty p = none

none-free : none ≢ some true
none-free e = cc e

empty-IsClean : IsClean client documented configs empty
empty-IsClean = record {
  servers_free = none-free;
  group_free = none-free;
  active_free = none-free;
  queue_free = none-free;
  task_free = none-free;
  begun = λ e. e;
}

init_zuth_server-Serving_example :
    Serving client documented configs startup empty (init_zuth_server client configs startup empty)
init_zuth_server-Serving_example =
    init_zuth_server-Serving client documented configs (omega arith) (omega arith) startup empty
      empty-IsClean
