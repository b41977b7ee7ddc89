-- ===== src/Service/Libraries.antt =====
-- What a service call relies on and does not implement: the clock, the connection and the secure
-- channel of the OPC UA stack.
use ua_rate_throttling.Common.{ℕ, Bool, Bytes}
use ua_rate_throttling.Queue.Libraries.{Host}
use ua_rate_throttling.Chunk.{Channel}
use ua_rate_throttling.Chunk.Libraries.{Stack}
use ua_rate_throttling.Message.{Encoding}

-- `UA_ClientState`
pub data ClientState : Type 0 where
  ready : ClientState
  connected : ClientState
  faulted : ClientState
  errored : ClientState

-- The part of `UA_Client` that a service call reads and writes, with the timeout of its config in
-- milliseconds. A `UA_NodeId` is left to the stack.
pub record UaClient (NodeId : Type 0) : Type 0 where
  pub state : ClientState
  pub timeout : ℕ
  pub endpoint_url : Bytes
  pub channel : Channel
  pub authentication_token : NodeId
  pub request_id : ℕ
  pub request_handle : ℕ

-- The part of `UA_RequestHeader` that a service call writes.
pub record RequestHeader (NodeId : Type 0) : Type 0 where
  pub authentication_token : NodeId
  pub timestamp : ℕ
  pub request_handle : ℕ

-- A response: the service result of its header, and the rest of it.
pub record Response (Body : Type 0) : Type 0 where
  pub service_result : ℕ
  pub body : Body

pub record Network (host : Host) (stack : Stack host) : Type 1 where
  pub NodeId : Type 0
  pub null_node_id : NodeId
  -- A request behind its header.
  pub Request : Type 0
  pub encode_binary : RequestHeader NodeId → Request → Encoding
  pub Body : Type 0
  -- What `UA_init` leaves in a response behind its header.
  pub init_body : Body
  -- `UA_Client_manuallyRenewSecureChannel`
  pub renew_secure_channel : UaClient NodeId → host.World → ℕ × (UaClient NodeId × host.World)
  -- `UA_DateTime_now` and `UA_DateTime_nowMonotonic`, in units of 100 ns.
  pub date_time_now : host.World → ℕ
  pub now_monotonic : host.World → ℕ
  -- `UA_Connection_receiveChunksBlocking`: its status, the reply, and whether that is a buffer of
  -- its own.
  pub receive_chunks : UaClient NodeId → ℕ → host.World → ℕ × ((Bytes × Bool) × host.World)
  -- `UA_SecureChannel_processChunks` with `processServiceResponse`, which expects a request id: it
  -- may fill the response, and set `processed`.
  pub process_replies :
      UaClient NodeId
      → ℕ
      → Bytes
      → Response Body × host.World
      → Bool × ((Response Body × UaClient NodeId) × host.World)
  -- `releaseRecvBuffer` of the connection, and `UA_ByteString_deleteMembers`.
  pub release_recv_buffer : UaClient NodeId → Bytes → host.World → host.World
  pub delete_reply : Bytes → host.World → host.World
