-- ===== src/Message/Closed.antt =====
-- How a request ends on its way: with its final chunk, or with an abort message.
use ua_rate_throttling.Common.{
  ℕ, ◌≡◌, inl, inr, refl, ap, true, false, some, List, [], ◌∷◌, Bytes, ◌==◌, if◌then◌else◌,
  Bool-cases, arith, ◌∙◌, snprintf,
}
use ua_rate_throttling.Queue.Libraries.{Host}
use ua_rate_throttling.Chunk.{Connection, Channel, Sending, good, chunk_intermediate, send_on}
use ua_rate_throttling.Chunk.Libraries.{Stack}
use ua_rate_throttling.Message.{
  Encoding, end_message, fail_message, exchange, send_binary_message, encode_message,
  message_type_of, buffer_size, init_chunk_info,
}
use ua_rate_throttling.Message.Frames.{Frame, Envelope, send_frames, send_frame}
use ua_rate_throttling.Message.Step.{
  error_of, frame_of, send_chunk-on, state-sent, status-sent, sent, final-sent, buffer-sent,
  error_code-sent, request_id-sent, message_type-sent,
}
use ua_rate_throttling.Message.Ends.{
  Closed, IsOpen, Ends, continue, finish-Ends, fail-Ends, more, aborted,
}

module _ (host : Host) (stack : Stack host) (connection : Connection) (envelope : Envelope)
    (buffers : (size : ℕ) (w : host.World) → stack.get_send_buffer size w ≡ good) where
  -- One exchange.
  module _ (body : Bytes) (s : Sending host.World)
      (o : IsOpen host stack connection envelope buffers s) where
    abbrev error : ℕ
    error = error_of host stack connection envelope buffers body s

    abbrev after : Sending host.World
    after = (sent host stack connection envelope buffers body s).1

    exchange-step :
        (bodies : List Bytes)
        → exchange host stack envelope.task_path (body ∷ bodies) s ≡ (
            if error == good
            then exchange host stack envelope.task_path bodies after
            else some (error, after))
    unfolding exchange
    exchange-step bodies = rw (
      send_chunk-on host stack connection envelope buffers body s o.connected o.buffer,
      status-sent host stack connection envelope buffers body s,
    )

    module _ (within : (error == good) ≡ true) where
      unfinished-after : after.ci.final ≡ false
      unfinished-after =
          final-sent host stack connection envelope buffers body s ∙ rw (within) o.unfinished

      after-IsOpen : IsOpen host stack connection envelope buffers after
      unfolding send_on
      after-IsOpen = record {
        connected = o.connected;
        buffer = rw (buffer-sent host stack connection envelope buffers body s, unfinished-after);
        unfinished = unfinished-after;
        fine = ground (arith, error_code-sent host stack connection envelope buffers body s);
        same_id = request_id-sent host stack connection envelope buffers body s ∙ o.same_id;
        same_type = message_type-sent host stack connection envelope buffers body s ∙ o.same_type;
      }

      frame-within :
          frame_of host stack connection envelope buffers body s
          ≡ record { kind = chunk_intermediate; body = body }
      frame-within = rw (within, o.unfinished)

      state-after :
          (after.channel, after.world)
          ≡ send_frame host stack envelope
              (record { kind = chunk_intermediate; body = body })
              (s.channel, s.world)
      state-after =
          state-sent host stack connection envelope buffers body s o.same_id o.same_type
          ∙ ap (λ f. send_frame host stack envelope f (s.channel, s.world)) frame-within

      more-Ends :
          (e : Encoding) (bodies : List Bytes)
          → Ends host stack connection envelope buffers e bodies after (
              continue host stack connection envelope buffers e
                (exchange host stack envelope.task_path bodies after))
          → Ends host stack connection envelope buffers e (body ∷ bodies) s (
              continue host stack connection envelope buffers e
                (exchange host stack envelope.task_path (body ∷ bodies) s))
      unfolding send_frames
      more-Ends e bodies ih = record {
        status = ih.status;
        frames = record { kind = chunk_intermediate; body = body } ∷ ih.frames;
        result =
            rw (exchange-step bodies, within)
              (ih.result
                ∙ ap (λ st. some (ih.status, send_frames host stack envelope ih.frames st))
                    state-after);
        closed = more ih.closed;
      }

    -- A chunk over the limits was an abort message: the message is finished.
    exchange-over :
        (e : Encoding) (bodies : List Bytes)
        → (error == good) ≡ false
        → continue host stack connection envelope buffers e
            (exchange host stack envelope.task_path (body ∷ bodies) s)
          ≡ some (error, (after.channel, after.world))
    unfolding end_message fail_message
    exchange-over e bodies over =
        rw
          (
            exchange-step bodies,
            over,
            final-sent host stack connection envelope buffers body s,
            over,
          )
          refl

    abort-Ends :
        (e : Encoding) (bodies : List Bytes)
        → (error == good) ≡ false
        → Ends host stack connection envelope buffers e (body ∷ bodies) s (
            continue host stack connection envelope buffers e
              (exchange host stack envelope.task_path (body ∷ bodies) s))
    unfolding send_frames
    abort-Ends e bodies over = record {
      status = error;
      frames = frame_of host stack connection envelope buffers body s ∷ [];
      result =
          exchange-over e bodies over
          ∙ ap (λ r. some (error, r))
              (state-sent host stack connection envelope buffers body s o.same_id o.same_type);
      closed = rw over (aborted _ (ground arith));
    }

  exchange-Ends :
      (e : Encoding) (bodies : List Bytes) (s : Sending host.World)
      → IsOpen host stack connection envelope buffers s
      → Ends host stack connection envelope buffers e bodies s (
          continue host stack connection envelope buffers e
            (exchange host stack envelope.task_path bodies s))
  unfolding exchange
  exchange-Ends e [] s o = elim (Bool-cases (e.status == good)) [
    | inl fine ↦ finish-Ends host stack connection envelope buffers e s o (ground arith)
    | inr bad ↦ fail-Ends host stack connection envelope buffers e s o (ground arith)
  ]
  exchange-Ends e (body ∷ bodies) s o =
      elim (Bool-cases (error_of host stack connection envelope buffers body s == good)) [
        | inl within ↦
            more-Ends body s o within e bodies
              (exchange-Ends e bodies (after body s o) (after-IsOpen body s o within))
        | inr over ↦ abort-Ends body s o e bodies over
      ]

module _ (host : Host) (stack : Stack host)
    (buffers : (size : ℕ) (w : host.World) → stack.get_send_buffer size w ≡ good) where
  opened :
      (channel : Channel) (connection : Connection) (request_id : ℕ) (e : Encoding)
      (task_path : Bytes) (w : host.World)
      → channel.connection ≡ some connection
      → send_binary_message host stack channel request_id e task_path w
        ≡ encode_message host stack (snprintf buffer_size task_path) request_id e channel w
  unfolding send_binary_message
  opened channel connection request_id e task_path w connected =
      rw (connected, buffers connection.send_buffer_size w) refl

  -- Sending a request on a channel with a connection, when each buffer that is asked for is there,
  -- writes its tasks one for each chunk, in the order of the chunks, with consecutive sequence
  -- numbers; and the chunks end in one of two ways: either the status is good, each buffer that the
  -- encoder filled went out as an intermediate chunk, and what was left as the final one, or the
  -- status is not good, some of them went out as intermediate chunks, and then one abort message.
  pub send_binary_message-Closed :
      (channel : Channel) (connection : Connection) (request_id : ℕ) (e : Encoding)
      (task_path : Bytes) (w : host.World)
      → channel.connection ≡ some connection
      → (status : ℕ) × (frames : List Frame) × (send_binary_message host stack channel request_id e
            task_path w
          ≡ some (
            status,
            send_frames host stack
                (record {
                  message_type = message_type_of e.type_id;
                  request_id = request_id;
                  task_path = snprintf buffer_size task_path;
                })
                frames
                (channel, w),
          ))
        × Closed status e.rest e.bodies frames
  unfolding encode_message
  send_binary_message-Closed channel connection request_id e task_path w connected =
      let ends =
        exchange-Ends host stack connection
          (record {
            message_type = message_type_of e.type_id;
            request_id = request_id;
            task_path = snprintf buffer_size task_path;
          })
          buffers e e.bodies
          (record {
            ci = init_chunk_info request_id e.type_id;
            channel = channel;
            buffer = true;
            world = w;
          })
          (record {
            connected = connected;
            buffer = refl;
            unfinished = refl;
            fine = refl;
            same_id = refl;
            same_type = refl;
          }) in
      (
        ends.status,
        ends.frames,
        opened channel connection request_id e task_path w connected ∙ ends.result,
        ends.closed,
      )
