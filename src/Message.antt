-- ===== src/Message.antt =====
-- A request on its way into the queue of a server: `ZUTH_SecureChannel_sendBinaryMessage` of
-- src/open62541.c, which sends the chunks that encoding the request fills.
pub mod Frames
pub mod Step
pub mod Ends
pub mod Closed
pub mod Delivered
use ua_rate_throttling.Common.{
  ℕ, ◌||◌, Bool, true, false, Option, none, some, List, [], ◌∷◌, Bytes, snprintf, ◌==◌,
  if◌then◌else◌, ◌>>=◌,
}
use ua_rate_throttling.Znode.{buffer_size}
use ua_rate_throttling.Queue.Libraries.{Host}
use ua_rate_throttling.Chunk.{
  ChunkInfo, Connection, Channel, Sending, send_chunk, good, channel_and_world, bad_internal_error,
}
use ua_rate_throttling.Chunk.Libraries.{Stack}

-- `UA_MessageType`, of the messages that a client sends.
abbrev pub message_msg : ℕ
message_msg = 0x47534D

abbrev pub message_opn : ℕ
message_opn = 0x4E504F

abbrev pub message_clo : ℕ
message_clo = 0x4F4C43

-- What `UA_encodeBinary` makes of a request, behind the id of its type: the bodies of the buffers
-- that it fills and exchanges, what stands in the last one, and its status if each exchange went well.
pub record Encoding : Type 0 where
  pub type_id : ℕ
  pub bodies : List Bytes
  pub rest : Bytes
  pub status : ℕ

unfoldable pub message_type_of : ℕ → ℕ
message_type_of type_id =
    if type_id == 446 || type_id == 449
    then message_opn
    else if type_id == 452 || type_id == 455
    then message_clo
    else message_msg

abbrev pub init_chunk_info : ℕ → ℕ → ChunkInfo
init_chunk_info request_id type_id = record {
  request_id = request_id;
  chunks_so_far = 0;
  message_size_so_far = 0;
  final = false;
  message_type = message_type_of type_id;
  error_code = good;
}

module _ (host : Host) (stack : Stack host) where
  -- The exchanges of `UA_encodeBinary`, which stops at the first that fails.
  pub exchange : Bytes → List Bytes → Sending host.World → Option (ℕ × Sending host.World)
  exchange task_path [] s = some (good, s)
  exchange task_path (body ∷ bodies) s = do
    (rc, s') ← send_chunk host stack task_path body s
    let rest = exchange task_path bodies s'
    if rc == good then rest else some (rc, s')

  -- The encoding failed: an abort message is sent, unless it has been.
  unfoldable pub fail_message :
      Bytes → Bytes → ℕ → Sending host.World → Option (ℕ × Sending host.World)
  fail_message task_path body retval s = if s.ci.final then some (retval, s) else do
    (rc, s') ←
        send_chunk host stack task_path body (record s { ci = record s.ci { error_code = retval } })
    some (retval, s')

  -- Send the final chunk.
  unfoldable pub finish_message :
      Bytes → Bytes → Sending host.World → Option (ℕ × Sending host.World)
  finish_message task_path body s =
      send_chunk host stack task_path body (record s { ci = record s.ci { final = true } })

  -- Behind the encoder. A failed exchange leaves nothing in the new buffer.
  unfoldable pub end_message :
      Bytes → Encoding → ℕ × Sending host.World → Option (ℕ × Sending host.World)
  unfolding fail_message finish_message
  end_message task_path e (rc, s) =
      if rc == good
      then (if e.status == good
          then finish_message task_path e.rest s
          else fail_message task_path e.rest e.status s)
      else fail_message task_path [] rc s

  -- With a first buffer.
  unfoldable pub encode_message :
      Bytes → ℕ → Encoding → Channel → host.World → Option (ℕ × (Channel × host.World))
  unfolding exchange end_message
  encode_message task_path request_id e channel world = do
    exchanged ← exchange task_path e.bodies (record {
      ci = init_chunk_info request_id e.type_id;
      channel = channel;
      buffer = true;
      world = world;
    })
    ended ← end_message task_path e exchanged
    some (channel_and_world ended)

  -- `ZUTH_SecureChannel_sendBinaryMessage`: its status, the channel and the world. The path is kept
  -- in the global `tskPath`, a buffer of 65535 bytes.
  unfoldable pub send_binary_message :
      Channel → ℕ → Encoding → Bytes → host.World → Option (ℕ × (Channel × host.World))
  send_binary_message channel request_id e task_path world = elim channel.connection [
    | none ↦ some (bad_internal_error, (channel, world))
    | some connection ↦
        if stack.get_send_buffer connection.send_buffer_size world == good
        then encode_message (snprintf buffer_size task_path) request_id e channel world
        else some (stack.get_send_buffer connection.send_buffer_size world, (channel, world))
  ]
