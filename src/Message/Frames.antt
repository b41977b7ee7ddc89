-- ===== src/Message/Frames.antt =====
-- The chunks of a message, apart from the way in which they are sent.
use ua_rate_throttling.Common.{ℕ, refl, ◌+◌, ◌%◌, ◌^◌, List, [], ◌∷◌, ◌++◌, Bytes, length, ◌≡◌}
use ua_rate_throttling.Queue.Libraries.{Host}
use ua_rate_throttling.Chunk.{Channel, document, header_length}
use ua_rate_throttling.Chunk.Libraries.{Stack}

-- The type of a chunk, and what stands behind its headers.
pub record Frame : Type 0 where
  pub kind : ℕ
  pub body : Bytes

-- What all chunks of a message share: its type, the id of the request, and the path of the tasks.
pub record Envelope : Type 0 where
  pub message_type : ℕ
  pub request_id : ℕ
  pub task_path : Bytes

abbrev pub next_sequence : Channel → Channel
next_sequence channel = record channel {
  send_sequence_number = (channel.send_sequence_number + 1) % 2 ^ 32;
}

module _ (host : Host) (stack : Stack host) (envelope : Envelope) where
  open stack use {conversation_header, security_header, sequence_header}

  -- The bytes of a chunk, with the sequence number of the channel.
  unfoldable pub frame_bytes : Channel → Frame → Bytes
  frame_bytes channel f =
      conversation_header (record {
        message_type_and_chunk_type = (envelope.message_type + f.kind) % 2 ^ 32;
        message_size = (header_length + length f.body) % 2 ^ 32;
        secure_channel_id = channel.channel_id;
      })
      ++ (security_header (record { token_id = channel.token_id })
          ++ (sequence_header (record {
            request_id = envelope.request_id;
            sequence_number = channel.send_sequence_number;
          })
              ++ f.body))

  -- The task that carries it.
  unfoldable pub frame_task : Channel → Frame → Bytes
  frame_task channel f =
      document host stack channel.channel_id envelope.request_id (frame_bytes channel f)
        (header_length + length f.body)

  abbrev pub send_frame : Frame → Channel × host.World → Channel × host.World
  send_frame f (channel, world) = (
    next_sequence channel,
    (stack.zoo_create envelope.task_path (frame_task (next_sequence channel) f) world).1,
  )

  -- One task for each chunk, in their order and with consecutive sequence numbers.
  unfoldable pub send_frames : List Frame → Channel × host.World → Channel × host.World
  send_frames [] state = state
  send_frames (f ∷ fs) state = send_frames fs (send_frame f state)

  pub send_frames-append :
      (fs gs : List Frame) (state : Channel × host.World)
      → send_frames (fs ++ gs) state ≡ send_frames gs (send_frames fs state)
  unfolding send_frames
  send_frames-append [] gs state = refl
  send_frames-append (f ∷ fs) gs state = send_frames-append fs gs (send_frame f state)
