-- ===== src/Server.antt =====
-- The server program, examples/zuthServer.c, around Setup: what follows the setup in
-- `init_ZUTH_Server`, `main`, and the task table and the global of src/zk_cli.c. What they print, the
-- settings of ZooKeeper's log and the registration of the signal handler are not modelled.
pub mod Libraries
pub mod Balanced
use ua_rate_throttling.Common.{
  ℕ, Bool, true, false, Option, none, some, List, [], ◌∷◌, Bytes, if◌then◌else◌, ◌>>=◌,
}
use ua_rate_throttling.Config.{
  Config, Reading, exited, overrun, loaded, out_of_fuel, read_conf_file,
}
use ua_rate_throttling.Znode.{init_globals}
use ua_rate_throttling.Setup.{Startup, init_zuth_server}
use ua_rate_throttling.Setup.Libraries.{ZooClient}
use ua_rate_throttling.Memory.{
  Resource, group_guid, uri_string, encoded_uri, task_path, path_buffer, active_path,
  active_server_path, task_table, endpoint_url, queue_path, network_layer, server, configs,
  free_all, free_configs, free,
}
use Libraries.{UaServer}

-- What the program owns and has set: `uaServerGlobal` and `taskTable` of src/zk_cli.c, each a null
-- pointer at the start.
pub record Process (Tree : Type 0) : Type 0 where
  pub startup : Startup
  pub held : List Resource
  pub ua_server_global : Bool
  pub task_table : Bool
  pub tree : Tree

-- How the program ends: with the code of `exit` or `return`, or undefined.
pub data Ending (Tree : Type 0) : Type 0 where
  stopped : (code : ℕ) → Ending Tree
  undefined : Ending Tree
  finished : (code : ℕ) → Process Tree → Ending Tree

-- `intHandler`
unfoldable pub int_handler : Startup → Startup
int_handler s = record s { running = false }

module _ {Tree : Type 0} where
  -- `zkUA_initializeUaServerGlobal`
  abbrev pub initialize_ua_server_global : Process Tree → Process Tree
  initialize_ua_server_global p = record p { ua_server_global = true }

  -- `zkUA_returnTaskHashtable`
  abbrev pub return_task_hashtable : Process Tree → Bool
  return_task_hashtable p = p.task_table

  -- `zkUA_initializeTaskHashmap`; `none` is the `exit(-1)` for a table that cannot be had.
  unfoldable pub initialize_task_hashmap : Bool → Process Tree → Option (Process Tree)
  initialize_task_hashmap created p =
      if created
      then some (record p { task_table = true; held = Resource.task_table ∷ p.held })
      else none

-- `zkUA_destroyTaskHashtable`
unfoldable pub destroy_task_hashtable : List Resource → Option (List Resource)
destroy_task_hashtable held = free Resource.task_table held

module _ (z : ZooClient) (ua : UaServer z) where
  -- What `init_ZUTH_Server` allocates before the table, and frees again.
  unfoldable pub allocate : List Resource → Option (List Resource)
  allocate held = free_all (active_path ∷ active_server_path ∷ []) (
      active_server_path ∷ active_path ∷ path_buffer ∷ task_path ∷ encoded_uri ∷ uri_string
      ∷ group_guid ∷ held)

  -- Behind the run of the server.
  unfoldable pub clean_up : List Resource → Option (List Resource)
  unfolding destroy_task_hashtable
  clean_up held = do
    held1 ← free_all (server ∷ network_layer ∷ []) held
    held2 ← destroy_task_hashtable held1
    held3 ←
        free_all
          (endpoint_url ∷ encoded_uri ∷ group_guid ∷ queue_path ∷ uri_string ∷ task_path
            ∷ path_buffer ∷ [])
          held2
    free_configs held3

  -- From `UA_Server_new` on. The status of the server is stored through `retval`, if that points
  -- anywhere.
  unfoldable pub run_server : Bool → Config → Process z.Tree → Ending z.Tree
  unfolding clean_up
  run_server retval c p =
      let p' =
        initialize_ua_server_global
          (record p { held = server ∷ network_layer ∷ queue_path ∷ endpoint_url ∷ p.held }) in
      let (startup, tree) = ua.server_run c p'.startup p'.tree in
      if retval
      then elim (clean_up p'.held) [
        | none ↦ undefined
        | some held ↦ finished 0 (record p' { startup = startup; tree = tree; held = held })
      ]
      else undefined

  -- `init_ZUTH_Server`
  unfoldable pub serve : Bool → Config → Process z.Tree → Ending z.Tree
  unfolding allocate run_server
  serve retval c p =
      let (startup, tree) = init_zuth_server z c p.startup p.tree in
      elim (allocate p.held) [
        | none ↦ undefined
        | some held ↦
            elim (initialize_task_hashmap ua.create_hashtable
              (record p { startup = startup; tree = tree; held = held })) [
                | none ↦ stopped 255
                | some p' ↦ run_server retval c p'
              ]
      ]

  abbrev pub init_process : z.Tree → Process z.Tree
  init_process tree = record {
    startup = record {
      globals = init_globals;
      running = true;
      server_queue_path = [];
      listed = [];
    };
    held = configs;
    ua_server_global = false;
    task_table = false;
    tree = tree;
  }

  -- `main` behind `zookeeper_init`: its `retval` is not set. The session is closed.
  unfoldable pub serve_session : Config → z.Tree → Ending z.Tree
  unfolding serve
  serve_session c tree = elim (serve false c (init_process tree)) [
    | stopped code ↦ stopped code
    | undefined ↦ undefined
    | finished code p ↦ finished 0 (record p { tree = ua.zookeeper_close p.tree })
  ]

  -- `main`, with the bytes of "serverConf.txt".
  unfoldable pub main : Option Bytes → z.Tree → Ending z.Tree
  unfolding serve_session
  main file tree = elim (read_conf_file file) [
    | exited ↦ stopped 255
    | overrun ↦ undefined
    | loaded c ↦
        let (zh, tree') = ua.zookeeper_init c.zookeeper_quorum tree in
        if zh then serve_session c tree' else stopped (ua.errno tree')
    | out_of_fuel ↦ undefined
  ]
