-- ===== src/Chunk/Libraries.antt =====
-- What the client relies on to send a request and does not implement: jansson, glib's base64, the
-- ZooKeeper client, and the binary encoding and the send buffers of the OPC UA stack.
use ua_rate_throttling.Common.{ℕ, List, Bytes}
use ua_rate_throttling.Zoo.{ZooCode}
use ua_rate_throttling.Queue.Libraries.{Host}

-- `UA_SecureConversationMessageHeader`, with the `UA_TcpMessageHeader` in it.
pub record ConversationHeader : Type 0 where
  pub message_type_and_chunk_type : ℕ
  pub message_size : ℕ
  pub secure_channel_id : ℕ

-- `UA_SymmetricAlgorithmSecurityHeader`
pub record SecurityHeader : Type 0 where
  pub token_id : ℕ

-- `UA_SequenceHeader`
pub record SequenceHeader : Type 0 where
  pub request_id : ℕ
  pub sequence_number : ℕ

pub record Stack (host : Host) : Type 0 where
  pub json_integer : ℕ → host.Json
  pub json_string : Bytes → host.Json
  -- `json_object` and a `json_object_set_new` for each member, in their order.
  pub json_object : List (Bytes × host.Json) → host.Json
  pub json_dumps : host.Json → Bytes
  pub base64_encode : Bytes → Bytes
  -- `zoo_create` with ZOO_SEQUENCE, of a path and the string in the znode.
  pub zoo_create : Bytes → Bytes → host.World → ZooCode × host.World
  pub conversation_header : ConversationHeader → Bytes
  pub security_header : SecurityHeader → Bytes
  pub sequence_header : SequenceHeader → Bytes
  -- What `UA_UInt32_encodeBinary` of a code and `UA_String_encodeBinary` of a null string write.
  pub abort_body : ℕ → Bytes
  -- `getSendBuffer` of the connection: its status. On failure the buffer is a null pointer.
  pub get_send_buffer : ℕ → host.World → ℕ
