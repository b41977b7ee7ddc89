-- ===== src/Client.antt =====
-- The client program, examples/zuthClient.c, and the service calls of include/zuthClientSend.h. What
-- it prints, and the settings of ZooKeeper's log, are not modelled.
pub mod Libraries
pub mod Balanced
pub mod Threads
pub mod Fault
use ua_rate_throttling.Common.{
  ℕ, Bool, ◌&&◌, Option, none, some, List, [], ◌∷◌, ◌++◌, Bytes, codes, snprintf, ◌==◌,
  if◌then◌else◌, ◌>>=◌,
}
use ua_rate_throttling.Guid.{print_guid}
use ua_rate_throttling.Config.{
  Config, Reading, exited, overrun, loaded, out_of_fuel, read_conf_file,
}
use ua_rate_throttling.Znode.{
  Globals, init_globals, set_group_guid_path, set_queue_path, encode_server_queue_path, server_uri,
  buffer_size,
}
use ua_rate_throttling.Queue.Libraries.{Host}
use ua_rate_throttling.Chunk.{good}
use ua_rate_throttling.Chunk.Libraries.{Stack}
use ua_rate_throttling.Service.{Receiving, client_service, get_client_endpoint_url}
use ua_rate_throttling.Service.Libraries.{UaClient, RequestHeader, Response, Network}
use Libraries.{Platform}
use ua_rate_throttling.Memory.{
  Resource, client, server_dst, endpoint_array, group_guid, task_path, free_all, free_configs,
  configs,
}

-- `UA_NS0ID_SERVER_SERVERSTATUS_CURRENTTIME`
abbrev pub current_time_id : ℕ
current_time_id = 2258

-- `UA_ATTRIBUTEID_VALUE`
abbrev pub attribute_value : ℕ
attribute_value = 13

-- What `init_UA_client` changes: the globals of src/zk_cli.c, the memory that it holds, and the world.
pub record Run (World : Type 0) : Type 0 where
  pub globals : Globals
  pub held : List Resource
  pub world : World

module _ (host : Host) (stack : Stack host) (network : Network host stack)
    (platform : Platform host stack network) where
  open platform use {
    new_client, get_endpoints, connect_username, disconnect, attr_init, attr_setscope,
    attr_setdetachstate, create,
  }

  -- `ZUTH_Client_Service_read` and `ZUTH_Client_Service_write`: the request is a copy, so that its
  -- header does not come back.
  unfoldable pub client_service_request :
      ℕ
      → Bytes
      → RequestHeader network.NodeId
      → network.Request
      → UaClient network.NodeId
      → host.World
      → Option (Receiving host stack network)
  client_service_request fuel path header request c w = do
    (header', received) ← client_service host stack network fuel path header request c w
    some received

  -- `readDateTime`, up to the counter of the threads: one call, and the date in the response, which
  -- is printed. `none` is a read through a null pointer.
  unfoldable pub read_date_time :
      ℕ
      → Bytes
      → UaClient network.NodeId
      → host.World
      → Option (UaClient network.NodeId × host.World)
  unfolding client_service_request
  read_date_time fuel path c w = do
    ((response, c'), w') ←
        client_service_request fuel path platform.init_header
          (platform.read_request 0 current_time_id attribute_value) c w
    date ← platform.first_date response.body
    some (c', w')

  -- The loop that creates the threads, which has one round, and the wait for them: the thread runs
  -- if it can be created.
  unfoldable pub run_threads :
      ℕ
      → Bytes
      → UaClient network.NodeId
      → host.World
      → Option (UaClient network.NodeId × host.World)
  unfolding read_date_time
  run_threads fuel path c w =
      let read = read_date_time fuel path c w in
      if attr_init w && attr_setscope w && attr_setdetachstate w && create w
      then read
      else some (c, w)

  -- `init_UA_client` behind the connect. The strings are not changed any more.
  unfoldable pub submit_tasks :
      ℕ → Config → UaClient network.NodeId → Run host.World → Option (Run host.World)
  unfolding run_threads
  submit_tasks fuel c ua run =
      let guid = snprintf buffer_size (print_guid c.guid) in
      let globals = set_queue_path (set_group_guid_path guid run.globals) in
      let path = encode_server_queue_path (get_client_endpoint_url ua) globals in
      do
        (ua', w) ← run_threads fuel path ua run.world
        held ←
            free_all (task_path ∷ group_guid ∷ server_dst ∷ []) (task_path ∷ group_guid ∷ run.held)
        held' ← free_configs held
        held'' ← free_all (client ∷ []) held'
        some (record { globals = globals; held = held''; world = disconnect ua' w })

  -- A connect that fails.
  unfoldable pub no_connection : Run host.World → Option (Run host.World)
  no_connection run = do
    held ← free_all (server_dst ∷ []) run.held
    held' ← free_configs held
    held'' ← free_all (client ∷ []) held'
    some (record run { held = held'' })

  -- A list of endpoints that cannot be had.
  unfoldable pub no_endpoints : Run host.World → Option (Run host.World)
  no_endpoints run = do
    held ← free_all (endpoint_array ∷ client ∷ server_dst ∷ []) run.held
    held' ← free_configs held
    some (record run { held = held' })

  -- `init_UA_client`
  unfoldable pub init_ua_client : ℕ → Config → Run host.World → Option (Run host.World)
  unfolding submit_tasks no_connection no_endpoints
  init_ua_client fuel c run =
      let (ua, w) = new_client run.world in
      let dst = server_uri c.hostname c.ua_port in
      let (rc, (ua1, w1)) = get_endpoints ua dst w in
      let (rc', (ua2, w2)) = connect_username ua1 dst c.username c.password w1 in
      let run1 = record run {
        held = endpoint_array ∷ server_dst ∷ client ∷ run.held;
        world = w1;
      } in
      if rc == good
      then (do
        held ← free_all (endpoint_array ∷ []) run1.held
        let run2 = record run { held = held; world = w2 }
        let submitted = submit_tasks fuel c ua2 run2
        let unconnected = no_connection run2
        if rc' == good then submitted else unconnected)
      else no_endpoints run1

  -- How the program ends: with the code of `exit` or `return`, or undefined.
  pub data Ending : Type 0 where
    ended : (code : ℕ) → Option (Run host.World) → Ending
    undefined : Ending

  -- The part of `main` that has a configuration.
  unfoldable pub run_client : ℕ → Config → host.World → Ending
  unfolding init_ua_client
  run_client fuel c w =
      let (zh, w1) = platform.zookeeper_init c.zookeeper_quorum w in
      let run : Run host.World = record { globals = init_globals; held = configs; world = w1 } in
      if zh
      then elim (init_ua_client fuel c run) [
        | none ↦ undefined
        | some run' ↦ ended 0 (some (record run' { world = platform.zookeeper_close run'.world }))
      ]
      else ended (platform.errno w1) none

  -- `main`, with the bytes of "clientConf.txt".
  unfoldable pub main : ℕ → Option Bytes → host.World → Ending
  unfolding run_client
  main fuel file w = elim (read_conf_file file) [
    | exited ↦ ended 255 none
    | overrun ↦ undefined
    | loaded c ↦ run_client fuel c w
    | out_of_fuel ↦ undefined
  ]
