-- ===== src/Setup/Documented.antt =====
-- What is documented of a ZooKeeper tree, as far as setting it up relies on it.
use ua_rate_throttling.Common.{
  ◌≡◌, ◌<◌, ◌≢◌, Bool, true, false, Option, none, some, Bytes, codes, ◌++◌, length, All,
  if◌then◌else◌, [],
}
use ua_rate_throttling.Zoo.{zok, znodeexists, is_zok}
use ua_rate_throttling.Setup.Libraries.{ZooClient}
use ua_rate_throttling.Queue.Documented.{same}

-- The name of one znode under its parent.
pub record IsName (name : Bytes) : Type 0 where
  pub filled : 0 < length name
  pub no_slash : All (λ c. c ≢ b'/') name

-- A znode that is there stays as it is.
abbrev pub settled : Option Bool → Bool → Option Bool
settled none ephemeral = some ephemeral
settled (some before) ephemeral = some before

abbrev pub is_node : Option Bool → Bool
is_node none = false
is_node (some ephemeral) = true

pub record Documented (z : ZooClient) : Type 0 where
  -- The znode at a path, if there is one, and whether it is ephemeral.
  pub kind : z.Tree → Bytes → Option Bool
  -- The root is a permanent znode.
  pub root : (tree : z.Tree) → kind tree [] ≡ some false
  pub exists_lem :
      (p : Bytes) (tree : z.Tree) → is_zok (z.zoo_exists p tree) ≡ is_node (kind tree p)
  -- Under a permanent parent a create makes the znode, or finds it there.
  pub creates :
      (parent name : Bytes) (ephemeral : Bool) (tree : z.Tree)
      → IsName name
      → kind tree parent ≡ some false
      → let p = (parent ++ codes "/") ++ name in
        ((z.zoo_create p ephemeral tree).0 ≡ (if is_node (kind tree p) then znodeexists else zok))
        × ((q : Bytes)
            → kind (z.zoo_create p ephemeral tree).1 q
              ≡ (if same p q then settled (kind tree p) ephemeral else kind tree q))
  pub acreates :
      (parent name : Bytes) (ephemeral : Bool) (tree : z.Tree)
      → IsName name
      → kind tree parent ≡ some false
      → let p = (parent ++ codes "/") ++ name in
        (q : Bytes)
        → kind (z.zoo_acreate p ephemeral tree) q
          ≡ (if same p q then settled (kind tree p) ephemeral else kind tree q)
