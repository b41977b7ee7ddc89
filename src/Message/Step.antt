-- ===== src/Message/Step.antt =====
-- What sending one chunk does, in terms of the chunk that is sent.
use ua_rate_throttling.Common.{
  ℕ, ◌+◌, ◌≡◌, inl, inr, refl, true, not, some, Bytes, length, ◌==◌, if◌then◌else◌, Bool-cases,
  arith,
}
use ua_rate_throttling.Queue.Libraries.{Host}
use ua_rate_throttling.Chunk.{
  Connection, Sending, send_chunk, send_on, check_limits, chunk_bytes, chunk_type, good,
  chunk_final, chunk_intermediate, chunk_abort, header_length,
}
use ua_rate_throttling.Chunk.Libraries.{Stack}
use ua_rate_throttling.Chunk.{channel_and_world}
use ua_rate_throttling.Message.Frames.{frame_bytes, frame_task, Frame, Envelope, send_frame}

module _ (host : Host) (stack : Stack host) (connection : Connection) (envelope : Envelope)
    (buffers : (size : ℕ) (w : host.World) → stack.get_send_buffer size w ≡ good) where
  module _ (body : Bytes) (s : Sending host.World) where
    -- The error that a chunk with this body is sent with, if any.
    abbrev pub error_of : ℕ
    error_of = (check_limits connection (header_length + length body) s.ci).error_code

    -- The chunk that is sent.
    abbrev pub frame_of : Frame
    frame_of = record {
      kind =
          if error_of == good
          then (if s.ci.final then chunk_final else chunk_intermediate)
          else chunk_abort;
      body = if error_of == good then body else stack.abort_body error_of;
    }

    abbrev pub sent : ℕ × Sending host.World
    sent = send_on host stack connection envelope.task_path body s

    pub send_chunk-on :
        s.channel.connection ≡ some connection
        → s.buffer ≡ true
        → send_chunk host stack envelope.task_path body s ≡ some sent
    unfolding send_chunk
    send_chunk-on connected buffer = rw (connected, buffer)

    pub status-sent : sent.0 ≡ error_of
    unfolding send_on
    status-sent = ground (arith, buffers connection.send_buffer_size sent.1.world)

    pub final-sent : sent.1.ci.final ≡ (if error_of == good then s.ci.final else true)
    unfolding send_on check_limits
    final-sent = refl

    pub error_code-sent : sent.1.ci.error_code ≡ error_of
    unfolding send_on
    error_code-sent = refl

    pub connection-sent : sent.1.channel.connection ≡ s.channel.connection
    unfolding send_on
    connection-sent = refl

    pub request_id-sent : sent.1.ci.request_id ≡ s.ci.request_id
    unfolding send_on check_limits
    request_id-sent = refl

    pub message_type-sent : sent.1.ci.message_type ≡ s.ci.message_type
    unfolding send_on check_limits
    message_type-sent = refl

    pub buffer-sent : sent.1.buffer ≡ not sent.1.ci.final
    unfolding send_on
    buffer-sent = ground (arith, buffers connection.send_buffer_size sent.1.world)

    kind-sent : chunk_type sent.1.ci ≡ frame_of.kind
    unfolding chunk_type
    kind-sent =
        rw (error_code-sent, final-sent)
          (elim (Bool-cases (error_of == good)) [ inl fine ↦ rw fine | inr failed ↦ rw failed ])

    pub state-sent :
        s.ci.request_id ≡ envelope.request_id
        → s.ci.message_type ≡ envelope.message_type
        → (sent.1.channel, sent.1.world)
          ≡ send_frame host stack envelope frame_of (s.channel, s.world)
    unfolding send_on check_limits frame_task frame_bytes chunk_bytes
    state-sent same_id same_type = λ i.
        send_frame host stack
          (record {
            message_type = same_type i;
            request_id = same_id i;
            task_path = envelope.task_path;
          })
          (record { kind = kind-sent i; body = frame_of.body }) (s.channel, s.world)

    -- All that a message needs of a chunk that it ends with.
    pub outcome-sent :
        s.ci.request_id ≡ envelope.request_id
        → s.ci.message_type ≡ envelope.message_type
        → channel_and_world sent
          ≡ (error_of, send_frame host stack envelope frame_of (s.channel, s.world))
    outcome-sent same_id same_type = λ i. (status-sent i, state-sent same_id same_type i)
