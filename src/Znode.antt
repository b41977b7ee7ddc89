-- ===== src/Znode.antt =====
-- The znode paths of src/zk_cli.c: the two global path buffers, and the functions that build the
-- paths of the redundancy group, of a server's queue and of a task.
pub mod Exact
pub mod Agreement
use ua_rate_throttling.Common.{[], ◌++◌, Bytes, codes, snprintf, c_string, ℕ}
use ua_rate_throttling.Common.Cstdlib.{print_ulong}
use ua_rate_throttling.Url.{encode}

-- `zkUA_zkGroupGuidPath` and `zkUA_zkServerQueuePath`, each a `char[1024]`.
pub record Globals : Type 0 where
  pub group_guid_path : Bytes
  pub server_queue_path : Bytes

-- Static storage is zero at the start.
abbrev pub init_globals : Globals
init_globals = record { group_guid_path = []; server_queue_path = [] }

abbrev pub path_size : ℕ
path_size = 1024

abbrev pub buffer_size : ℕ
buffer_size = 65535

-- `zkUA_setGroupGuidPath`
unfoldable pub set_group_guid_path : Bytes → Globals → Globals
set_group_guid_path group_guid g =
    let zk_group_path = snprintf buffer_size (codes "/Servers/" ++ group_guid) in
    record g { group_guid_path = snprintf path_size zk_group_path }

-- `zkUA_getGroupGuidPath`
abbrev pub get_group_guid_path : Globals → Bytes
get_group_guid_path g = g.group_guid_path

-- `zkUA_setQueuePath`
unfoldable pub set_queue_path : Globals → Globals
set_queue_path g =
    let zk_queue_path = snprintf buffer_size (get_group_guid_path g ++ codes "/Queue") in
    record g { server_queue_path = snprintf path_size zk_queue_path }

-- `zkUA_getQueuePath`
abbrev pub get_queue_path : Globals → Bytes
get_queue_path g = g.server_queue_path

-- `zkUA_getActivePath`
unfoldable pub get_active_path : Globals → Bytes
get_active_path g = snprintf buffer_size (get_group_guid_path g ++ codes "/Active")

-- `zkUA_setServerQueuePath`; a `UA_String` is its bytes, of which `%.*s` prints those before a NUL.
unfoldable pub set_server_queue_path : Bytes → Globals → Bytes
set_server_queue_path endpoint_url g =
    let url_string = snprintf buffer_size (c_string endpoint_url) in
    let encoded_url_string = encode url_string in
    snprintf buffer_size (get_queue_path g ++ codes "/" ++ encoded_url_string)

-- `zkUA_encodeServerQueuePath`
unfoldable pub encode_server_queue_path : Bytes → Globals → Bytes
encode_server_queue_path endpoint_url g =
    snprintf buffer_size (set_server_queue_path endpoint_url g ++ codes "/task-")

-- `snprintf(..., "opc.tcp://%s:%lu", hostname, uaPort)`: the server's own URL in
-- `init_ZUTH_Server` and the server's URL in `init_UA_client`.
unfoldable pub server_uri : Bytes → ℕ → Bytes
server_uri hostname ua_port =
    snprintf buffer_size (codes "opc.tcp://" ++ hostname ++ codes ":" ++ print_ulong ua_port)

-- `serverTaskPath` of `init_ZUTH_Server`, the znode that the server creates for its tasks.
unfoldable pub server_task_path : Bytes → Globals → Bytes
server_task_path uri g = snprintf buffer_size (get_queue_path g ++ codes "/" ++ encode uri)

-- `serverActivePath` of `init_ZUTH_Server`.
unfoldable pub server_active_path : Bytes → Globals → Bytes
server_active_path uri g = snprintf buffer_size (get_active_path g ++ codes "/" ++ encode uri)
