-- ===== src/Server/Libraries.antt =====
-- What the server program relies on and does not implement: the run of the OPC UA server, the hash
-- table, and the sessions of the ZooKeeper client.
use ua_rate_throttling.Common.{ℕ, Bool, Bytes}
use ua_rate_throttling.Config.{Config}
use ua_rate_throttling.Setup.{Startup}
use ua_rate_throttling.Setup.Libraries.{ZooClient}

pub record UaServer (z : ZooClient) : Type 0 where
  -- `create_hashtable`: whether there is a table.
  pub create_hashtable : Bool
  -- `UA_Server_new` with the network layer of the configured port, and `UA_Server_run` until
  -- `running` is false.
  pub server_run : Config → Startup → z.Tree → Startup × z.Tree
  -- `zookeeper_init` with a quorum: whether there is a handle. `errno` of a failure.
  pub zookeeper_init : Bytes → z.Tree → Bool × z.Tree
  pub zookeeper_close : z.Tree → z.Tree
  pub errno : z.Tree → ℕ
