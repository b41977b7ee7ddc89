-- ===== src/Client/Libraries.antt =====
-- What the client program relies on and does not implement: the OPC UA client's connections, POSIX
-- threads, and the ZooKeeper client's sessions.
use ua_rate_throttling.Common.{ℕ, Bool, Option, Bytes}
use ua_rate_throttling.Queue.Libraries.{Host}
use ua_rate_throttling.Chunk.Libraries.{Stack}
use ua_rate_throttling.Service.Libraries.{UaClient, RequestHeader, Network}

pub record Platform (host : Host) (stack : Stack host) (network : Network host stack) : Type 0 where
  -- `UA_Client_new` with the standard configuration.
  pub new_client : host.World → UaClient network.NodeId × host.World
  -- `UA_Client_getEndpoints` of a URL. The endpoints are only printed.
  pub get_endpoints :
      UaClient network.NodeId → Bytes → host.World → ℕ × (UaClient network.NodeId × host.World)
  -- `UA_Client_connect_username` with a URL, a name and a password.
  pub connect_username :
      UaClient network.NodeId
      → Bytes
      → Bytes
      → Bytes
      → host.World
      → ℕ × (UaClient network.NodeId × host.World)
  pub disconnect : UaClient network.NodeId → host.World → host.World
  -- The header that `UA_ReadRequest_init` leaves, and a request to read an attribute of a node with
  -- a numeric id: namespace, id, attribute.
  pub init_header : RequestHeader network.NodeId
  pub read_request : ℕ → ℕ → ℕ → network.Request
  -- `*(UA_DateTime *) response.results->value.data`, where no pointer on the way is null.
  pub first_date : network.Body → Option ℕ
  -- `pthread_attr_init`, `pthread_attr_setscope`, `pthread_attr_setdetachstate` and
  -- `pthread_create`: whether each succeeds.
  pub attr_init : host.World → Bool
  pub attr_setscope : host.World → Bool
  pub attr_setdetachstate : host.World → Bool
  pub create : host.World → Bool
  -- `zookeeper_init` with a quorum: whether there is a handle. `errno` of a failure.
  pub zookeeper_init : Bytes → host.World → Bool × host.World
  pub zookeeper_close : host.World → host.World
  pub errno : host.World → ℕ
