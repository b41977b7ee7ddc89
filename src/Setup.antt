-- ===== src/Setup.antt =====
-- How a server sets up its part of the ZooKeeper tree: `zkUA_initializeZkServerQueuePath` of
-- src/zk_cli.c, and `init_ZUTH_Server` of examples/zuthServer.c up to the start of the OPC UA server.
-- The data of the new znodes is not modelled, since nothing reads it.
pub mod Libraries
pub mod Documented
pub mod Created
pub mod Served
pub mod Serving
use ua_rate_throttling.Common.{
  Bool, true, false, ◌&&◌, ◌||◌, List, [], ◌∷◌, ◌++◌, Bytes, codes, snprintf, if◌then◌else◌,
}
use ua_rate_throttling.Guid.{print_guid}
use ua_rate_throttling.Config.{Config}
use ua_rate_throttling.Zoo.{ZooCode, is_zok, znodeexists}
use ua_rate_throttling.Znode.{
  Globals, set_group_guid_path, set_queue_path, get_queue_path, get_group_guid_path,
  get_active_path, set_server_queue_path, server_uri, server_task_path, server_active_path,
  buffer_size,
}
use Libraries.{ZooClient}

-- The globals of the server that the setup writes, and the paths whose children it asks for, each
-- with a watch.
pub record Startup : Type 0 where
  pub globals : Globals
  pub running : Bool
  pub server_queue_path : Bytes
  pub listed : List Bytes

abbrev is_node_exists : ZooCode → Bool
is_node_exists znodeexists = true
is_node_exists _ = false

-- `rc != ZOK && rc != ZNODEEXISTS` does not hold.
abbrev pub is_there : ZooCode → Bool
is_there rc = is_zok rc || is_node_exists rc

module _ (z : ZooClient) where
  open z use {Tree, zoo_exists, zoo_create, zoo_acreate}

  -- The creates behind the early return, at the paths of the group; their result codes are only
  -- printed.
  unfoldable pub create_paths : Bytes → Bytes → Bytes → Tree → Tree
  create_paths group active queue tree =
      let tree1 = (zoo_create (codes "/Servers") false tree).1 in
      let tree2 = zoo_acreate group false tree1 in
      let tree3 = zoo_acreate active false tree2 in zoo_acreate queue false tree3

  abbrev pub create_group : Globals → Tree → Tree
  create_group g tree =
      create_paths (get_group_guid_path g) (get_active_path g) (get_queue_path g) tree

  -- Without a handle nothing is asked of ZooKeeper.
  unfoldable pub find_or_create : Bool → Globals → Tree → Tree
  find_or_create zh g tree =
      if zh
      then (if is_zok (zoo_exists (get_queue_path g) tree) then tree else create_group g tree)
      else tree

  -- `zkUA_initializeZkServerQueuePath`
  unfoldable pub initialize_zk_server_queue_path : Bytes → Bool → Globals → Tree → Globals × Tree
  initialize_zk_server_queue_path group_guid zh g tree =
      let g' = set_queue_path (set_group_guid_path group_guid g) in (g', find_or_create zh g' tree)

  -- The znode for the server's tasks, and the ephemeral one that tells that it runs. `false` means
  -- that the server is to stop.
  unfoldable pub push_server : Bytes → Bytes → Tree → Bool × Tree
  push_server task_path active_path tree =
      let (rc, tree1) = zoo_create task_path false tree in
      let (rc', tree2) = zoo_create active_path true tree1 in (is_there rc && is_zok rc', tree2)

  -- `init_ZUTH_Server` up to `UA_Server_new`
  unfoldable pub init_zuth_server : Config → Startup → Tree → Startup × Tree
  init_zuth_server configs s tree =
      let group_guid = snprintf buffer_size (print_guid configs.guid) in
      let (g, tree1) = initialize_zk_server_queue_path group_guid true s.globals tree in
      let uri = server_uri configs.hostname configs.ua_port in
      let (ready, tree2) = push_server (server_task_path uri g) (server_active_path uri g) tree1 in
      let queue = set_server_queue_path uri g in
      (
        record {
          globals = g;
          running = s.running && ready;
          server_queue_path = queue;
          listed = s.listed ++ queue ∷ [];
        },
        tree2,
      )
