-- ===== src/Message/Ends.antt =====
-- How a message ends: with its final chunk, or with one that aborts it.
use ua_rate_throttling.Common.{
  ℕ, ◌≡◌, ◌≢◌, inl, inr, ap, true, false, Option, some, List, [], ◌∷◌, Bytes, ◌==◌, ◌>>=◌,
  Bool-cases, arith,
}
use ua_rate_throttling.Queue.Libraries.{Host}
use ua_rate_throttling.Chunk.{
  Connection, Channel, Sending, channel_and_world, good, chunk_final, chunk_intermediate,
  chunk_abort, check_limits, send_chunk, send_on,
}
use ua_rate_throttling.Chunk.Libraries.{Stack}
use ua_rate_throttling.Message.{Encoding, end_message, finish_message, fail_message}
use ua_rate_throttling.Message.Frames.{Frame, Envelope, send_frames}
use ua_rate_throttling.Message.Step.{
  error_of, frame_of, send_chunk-on, outcome-sent, state-sent, sent,
}

-- The chunks of a message whose encoding fills buffers with `bodies` and leaves `rest`: all of it,
-- with the status good, or a part of it and an abort message, with an error.
pub data Closed (status : ℕ) (rest : Bytes) : List Bytes → List Frame → Type 0 where
  whole : status ≡ good → Closed status rest [] (record { kind = chunk_final; body = rest } ∷ [])
  aborted :
      {bodies : List Bytes} (body : Bytes)
      → status ≢ good
      → Closed status rest bodies (record { kind = chunk_abort; body = body } ∷ [])
  more :
      {body : Bytes} {bodies : List Bytes} {frames : List Frame}
      → Closed status rest bodies frames
      → Closed status rest
          (body ∷ bodies)
          (record { kind = chunk_intermediate; body = body } ∷ frames)

module _ (host : Host) (stack : Stack host) (connection : Connection) (envelope : Envelope)
    (buffers : (size : ℕ) (w : host.World) → stack.get_send_buffer size w ≡ good) where
  -- A message that is not finished, with a buffer for its next chunk.
  pub record IsOpen (s : Sending host.World) : Type 0 where
    pub connected : s.channel.connection ≡ some connection
    pub buffer : s.buffer ≡ true
    pub unfinished : s.ci.final ≡ false
    pub fine : s.ci.error_code ≡ good
    pub same_id : s.ci.request_id ≡ envelope.request_id
    pub same_type : s.ci.message_type ≡ envelope.message_type

  -- Encoding the bodies that are left, and ending the message.
  abbrev pub continue :
      Encoding → Option (ℕ × Sending host.World) → Option (ℕ × (Channel × host.World))
  continue e m = do
    exchanged ← m
    ended ← end_message host stack envelope.task_path e exchanged
    some (channel_and_world ended)

  pub record Ends (e : Encoding) (bodies : List Bytes) (s : Sending host.World)
      (r : Option (ℕ × (Channel × host.World))) : Type 0 where
    pub status : ℕ
    pub frames : List Frame
    pub result : r ≡ some (status, send_frames host stack envelope frames (s.channel, s.world))
    pub closed : Closed status e.rest bodies frames

  pub finish-Ends :
      (e : Encoding) (s : Sending host.World)
      → IsOpen s
      → e.status ≡ good
      → Ends e [] s (continue e (some (good, s)))
  unfolding end_message finish_message send_frames
  finish-Ends e s o fine =
      let s' : Sending host.World = record s { ci = record s.ci { final = true } } in
      let step =
        send_chunk-on host stack connection envelope buffers e.rest s' o.connected o.buffer in
      record {
        status = error_of host stack connection envelope buffers e.rest s';
        frames = frame_of host stack connection envelope buffers e.rest s' ∷ [];
        result =
            rw (fine, step)
              (ap some (
                outcome-sent host stack connection envelope buffers e.rest s' o.same_id
                  o.same_type));
        closed =
            elim (Bool-cases (error_of host stack connection envelope buffers e.rest s' == good)) [
              | inl within ↦ rw within (whole (ground arith))
              | inr over ↦ rw over (aborted _ (ground arith))
            ];
      }

  -- The error of a chunk is that of the message, if it has one already.
  keeps_error :
      (body : Bytes) (s : Sending host.World)
      → s.ci.error_code ≢ good
      → (error_of host stack connection envelope buffers body s == good) ≡ false
  unfolding check_limits
  keeps_error body s bad = ground arith

  fail_message-sent :
      (body : Bytes) (retval : ℕ) (s : Sending host.World)
      → IsOpen s
      → fail_message host stack envelope.task_path body retval s
        ≡ some (
          retval,
          (sent host stack connection envelope buffers body
              (record s { ci = record s.ci { error_code = retval } })).1,
        )
  unfolding fail_message send_chunk send_on
  fail_message-sent body retval s o = simp (
    o.unfinished,
    send_chunk-on host stack connection envelope buffers body
        (record s { ci = record s.ci { error_code = retval } }) o.connected o.buffer,
  )

  pub fail-Ends :
      (e : Encoding) (s : Sending host.World)
      → IsOpen s
      → e.status ≢ good
      → Ends e [] s (continue e (some (good, s)))
  unfolding end_message send_frames
  fail-Ends e s o bad =
      let s' : Sending host.World = record s { ci = record s.ci { error_code = e.status } } in
      let failed : (e.status == good) ≡ false = ground arith in
      record {
        status = e.status;
        frames = frame_of host stack connection envelope buffers e.rest s' ∷ [];
        result =
            rw (failed, fail_message-sent e.rest e.status s o)
              (ap (λ r. some (e.status, r))
                (state-sent host stack connection envelope buffers e.rest s' o.same_id
                  o.same_type));
        closed = rw (keeps_error e.rest s' bad) (aborted _ bad);
      }
