-- ===== src/Chunk.antt =====
-- One chunk of a request on its way into the queue of a server: `ZUTH_SecureChannel_sendChunk` of
-- src/open62541.c. What it prints is not modelled.
pub mod Libraries
pub mod Documented
pub mod Document
pub mod Bounds
use ua_rate_throttling.Common.{
  ℕ, ◌+◌, ◌%◌, ◌^◌, Bool, true, false, ◌&&◌, not, Option, none, some, List, [], ◌∷◌, ◌++◌, Bytes,
  codes, length, ltb, ◌==◌, if◌then◌else◌,
}
use ua_rate_throttling.Queue.Libraries.{Host}
use Libraries.{Stack, ConversationHeader, SecurityHeader, SequenceHeader}

-- The status codes that the functions name.
abbrev pub good : ℕ
good = 0

abbrev pub bad_internal_error : ℕ
bad_internal_error = 0x80020000

abbrev pub bad_response_too_large : ℕ
bad_response_too_large = 0x80b90000

-- `UA_ChunkType`
abbrev pub chunk_final : ℕ
chunk_final = 0x46000000

abbrev pub chunk_intermediate : ℕ
chunk_intermediate = 0x43000000

abbrev pub chunk_abort : ℕ
chunk_abort = 0x41000000

-- `UA_SECURE_MESSAGE_HEADER_LENGTH`
abbrev pub header_length : ℕ
header_length = 24

-- `UA_ChunkInfo`; its channel is an argument of its own.
pub record ChunkInfo : Type 0 where
  pub request_id : ℕ
  pub message_type : ℕ
  pub chunks_so_far : ℕ
  pub message_size_so_far : ℕ
  pub final : Bool
  pub error_code : ℕ

-- The limits of `remoteConf`, and the size of a send buffer of `localConf`.
pub record Connection : Type 0 where
  pub max_message_size : ℕ
  pub max_chunk_count : ℕ
  pub send_buffer_size : ℕ

-- The part of `UA_SecureChannel` that sending reads and writes.
pub record Channel : Type 0 where
  pub connection : Option Connection
  pub channel_id : ℕ
  pub token_id : ℕ
  pub send_sequence_number : ℕ

-- The limits of the server, on a chunk that ends at `offset`.
exceeds_size : Connection → ℕ → ChunkInfo → Bool
exceeds_size connection offset ci =
    ltb connection.max_message_size ((ci.message_size_so_far + offset) % 2 ^ 64)
    && ltb 0 connection.max_message_size

exceeds_count : Connection → ℕ → Bool
exceeds_count connection chunks =
    ltb connection.max_chunk_count chunks && ltb 0 connection.max_chunk_count

abbrev pub count_chunk : ℕ → ℕ
count_chunk chunks = (chunks + 1) % 2 ^ 16

unfoldable pub check_limits : Connection → ℕ → ChunkInfo → ChunkInfo
unfolding exceeds_size exceeds_count
check_limits connection offset ci = record ci {
  chunks_so_far = count_chunk ci.chunks_so_far;
  error_code =
      if exceeds_count connection (count_chunk ci.chunks_so_far)
      then bad_response_too_large
      else if exceeds_size connection offset ci
      then bad_response_too_large
      else ci.error_code;
}

unfoldable pub chunk_type : ChunkInfo → ℕ
chunk_type ci =
    if ci.error_code == good
    then (if ci.final then chunk_final else chunk_intermediate)
    else chunk_abort

-- The JSON document of a task: `offset` is the number of the bytes in `dst`.
abbrev pub members : (host : Host) → Stack host → ℕ → ℕ → Bytes → ℕ → List (Bytes × host.Json)
members host stack channel_id request_id dst offset =
    (codes "channelId", stack.json_integer channel_id)
    ∷ (codes "requestId", stack.json_integer request_id)
    ∷ (codes "dst", stack.json_string (stack.base64_encode dst))
    ∷ (codes "offset", stack.json_integer offset)
    ∷ []

unfoldable pub document : (host : Host) → Stack host → ℕ → ℕ → Bytes → ℕ → Bytes
document host stack channel_id request_id dst offset =
    stack.json_dumps (stack.json_object (members host stack channel_id request_id dst offset))

-- What a chunk leaves behind: the counters of the message, the channel, whether the buffer for the
-- next chunk is there, and the world.
pub record Sending (World : Type 0) : Type 0 where
  pub ci : ChunkInfo
  pub channel : Channel
  pub buffer : Bool
  pub world : World

-- What is left of it when the message has ended, behind the status.
abbrev pub channel_and_world : {World : Type 0} → ℕ × Sending World → ℕ × (Channel × World)
channel_and_world (rc, s) = (rc, (s.channel, s.world))

module _ (host : Host) (stack : Stack host) where
  open stack use {conversation_header, security_header, sequence_header}

  -- The three headers, and the body behind them.
  unfoldable pub chunk_bytes : Channel → ChunkInfo → Bytes → Bytes
  chunk_bytes channel ci body =
      conversation_header (record {
        message_type_and_chunk_type = (ci.message_type + chunk_type ci) % 2 ^ 32;
        message_size = (header_length + length body) % 2 ^ 32;
        secure_channel_id = channel.channel_id;
      })
      ++ (security_header (record { token_id = channel.token_id })
          ++ (sequence_header (record {
            request_id = ci.request_id;
            sequence_number = channel.send_sequence_number;
          })
              ++ body))

  -- Abort a message with an error: its body is the code, and it is finished.
  abbrev pub abort_body_of : ChunkInfo → Bytes → Bytes
  abort_body_of ci body = if ci.error_code == good then body else stack.abort_body ci.error_code

  abbrev pub finish : ChunkInfo → ChunkInfo
  finish ci = record ci { final = if ci.error_code == good then ci.final else true }

  -- The buffer for the next chunk, unless this one is the last.
  unfoldable pub replace_buffer : Connection → Sending host.World → ℕ × Sending host.World
  replace_buffer connection s =
      let retval = stack.get_send_buffer connection.send_buffer_size s.world in
      (
        if s.ci.final then s.ci.error_code else if retval == good then s.ci.error_code else retval,
        record s { buffer = not s.ci.final && retval == good },
      )

  -- With a connection: encode the chunk, put it into the queue, and get the next buffer.
  unfoldable pub send_on : Connection → Bytes → Bytes → Sending host.World → ℕ × Sending host.World
  unfolding replace_buffer
  send_on connection task_path body s =
      let ci = check_limits connection (header_length + length body) s.ci in
      let body' = abort_body_of ci body in
      let offset = header_length + length body' in
      let ci' = record (finish ci) {
        message_size_so_far = (ci.message_size_so_far + offset) % 2 ^ 64;
      } in
      let channel = record s.channel {
        send_sequence_number = (s.channel.send_sequence_number + 1) % 2 ^ 32;
      } in
      let task =
        document host stack channel.channel_id ci'.request_id (chunk_bytes channel ci' body')
          offset in
      let (rc, world) = stack.zoo_create task_path task s.world in
      replace_buffer connection
        (record { ci = ci'; channel = channel; buffer = false; world = world })

  -- `ZUTH_SecureChannel_sendChunk`, of the body that is encoded so far. `none` is a write through a
  -- null pointer.
  unfoldable pub send_chunk : Bytes → Bytes → Sending host.World → Option (ℕ × Sending host.World)
  send_chunk task_path body s = elim s.channel.connection [
    | none ↦ some (bad_internal_error, s)
    | some connection ↦ if s.buffer then some (send_on connection task_path body s) else none
  ]
