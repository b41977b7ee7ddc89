-- ===== src/Memory.antt =====
-- The memory that the two programs own, examples/zuthClient.c and examples/zuthServer.c, and what
-- frees it.
use ua_rate_throttling.Common.{ℕ, Option, none, some, List, [], ◌∷◌, ◌==◌, if◌then◌else◌, ◌>>=◌}

-- What is allocated: the members of the configuration, the OPC UA objects, and the strings.
pub data Resource : Type 0 where
  hostname : Resource
  username : Resource
  password : Resource
  server_id : Resource
  zookeeper_quorum : Resource
  client : Resource
  endpoint_array : Resource
  server : Resource
  network_layer : Resource
  task_table : Resource
  server_dst : Resource
  group_guid : Resource
  task_path : Resource
  uri_string : Resource
  encoded_uri : Resource
  path_buffer : Resource
  active_path : Resource
  active_server_path : Resource
  endpoint_url : Resource
  queue_path : Resource

unfoldable pub code_of : Resource → ℕ
code_of hostname = 0
code_of username = 1
code_of password = 2
code_of server_id = 3
code_of zookeeper_quorum = 4
code_of client = 5
code_of endpoint_array = 6
code_of server = 7
code_of network_layer = 8
code_of task_table = 9
code_of server_dst = 10
code_of group_guid = 11
code_of task_path = 12
code_of uri_string = 13
code_of encoded_uri = 14
code_of path_buffer = 15
code_of active_path = 16
code_of active_server_path = 17
code_of endpoint_url = 18
code_of queue_path = 19

-- `free` of what is allocated; `none` for what is not, or not any more.
unfoldable pub free : Resource → List Resource → Option (List Resource)
unfolding code_of
free r [] = none
free r (s ∷ held) =
    let rest = free r held in
    if code_of r == code_of s then some held else (do held' ← rest; some (s ∷ held'))

unfoldable pub free_all : List Resource → List Resource → Option (List Resource)
free_all [] held = some held
free_all (r ∷ rs) held = do held' ← free r held; free_all rs held'

-- The members of a configuration, in the order in which `free_zkUAConfigs` of src/zk_cli.c frees
-- them.
abbrev pub configs : List Resource
configs = hostname ∷ username ∷ password ∷ server_id ∷ zookeeper_quorum ∷ []

-- `free_zkUAConfigs`
unfoldable pub free_configs : List Resource → Option (List Resource)
free_configs held = free_all configs held
