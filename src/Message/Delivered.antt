-- ===== src/Message/Delivered.antt =====
-- From the chunks of a client to the messages that its server processes.
use ua_rate_throttling.Common.{
  ℕ, ◌+◌, ◌^◌, ◌≤◌, ◌<◌, ◌≡◌, ap, ◌∙◌, subst, ◌%◌, Bool, some, List, [], ◌∷◌, ◌++◌, Bytes, length,
  length-append, All, All-append, arith, refl,
}
use mathlib.Core.List.{Perm, map}
use ua_rate_throttling.Zoo.{zok}
use ua_rate_throttling.Task.Name.{task_name}
use ua_rate_throttling.Task.Order.{Qsort, IsCounter}
use ua_rate_throttling.Queue.{read_request, process_tasks, path_to_task}
use ua_rate_throttling.Queue.Libraries.{Host, ByteString}
use ua_rate_throttling.Queue.Documented.{Documented}
use ua_rate_throttling.Queue.Batch.{IsReady, requests, request_at}
use ua_rate_throttling.Queue.InOrder.{Increasing, process_tasks-InOrder}
use ua_rate_throttling.Chunk.{Channel, header_length, document}
use ua_rate_throttling.Chunk.Libraries.{Stack, ConversationHeader, SecurityHeader, SequenceHeader}
use ua_rate_throttling.Chunk.Documented.{IsByte}
use ua_rate_throttling.Chunk.Document.{read_request-document}
use ua_rate_throttling.Message.Frames.{Frame, Envelope, next_sequence, frame_bytes, frame_task}

module _ (host : Host) (stack : Stack host)
    (s : ua_rate_throttling.Chunk.Documented.Documented host stack) (envelope : Envelope) where
  abbrev conversation_of : Channel → Frame → ConversationHeader
  conversation_of channel f = record {
    message_type_and_chunk_type = (envelope.message_type + f.kind) % 2 ^ 32;
    message_size = (header_length + length f.body) % 2 ^ 32;
    secure_channel_id = channel.channel_id;
  }

  abbrev security_of : Channel → SecurityHeader
  security_of channel = record { token_id = channel.token_id }

  abbrev sequence_of : Channel → SequenceHeader
  sequence_of channel = record {
    request_id = envelope.request_id;
    sequence_number = channel.send_sequence_number;
  }

  length-frame_bytes :
      (channel : Channel) (f : Frame)
      → length (frame_bytes host stack envelope channel f) ≡ header_length + length f.body
  unfolding frame_bytes
  length-frame_bytes channel f =
      let head = stack.conversation_header (conversation_of channel f) in
      let security = stack.security_header (security_of channel) in
      let sequence = stack.sequence_header (sequence_of channel) in
      omega (
        arith,
        length-append head (security ++ (sequence ++ f.body)),
        length-append security (sequence ++ f.body),
        length-append sequence f.body,
        s.conversation_size (conversation_of channel f),
        s.security_size (security_of channel),
        s.sequence_size (sequence_of channel),
      )

  frame_bytes-IsByte :
      (channel : Channel) (f : Frame)
      → All IsByte f.body
      → All IsByte (frame_bytes host stack envelope channel f)
  unfolding frame_bytes
  frame_bytes-IsByte channel f h =
      All-append IsByte (stack.conversation_header (conversation_of channel f)) _
        (s.conversation_bytes (conversation_of channel f))
        (All-append IsByte (stack.security_header (security_of channel)) _
          (s.security_bytes (security_of channel))
          (All-append IsByte (stack.sequence_header (sequence_of channel)) f.body
            (s.sequence_bytes (sequence_of channel)) h))

  -- The message of a chunk.
  abbrev pub message_of : Channel → Frame → ℕ × ByteString
  message_of channel f = (
    channel.channel_id,
    record {
      length = header_length + length f.body;
      bytes = some (frame_bytes host stack envelope channel f);
    },
  )

  -- The messages of the chunks that are sent on a channel.
  abbrev pub messages : Channel → List Frame → List (ℕ × ByteString)
  messages channel [] = []
  messages channel (f ∷ fs) =
      message_of (next_sequence channel) f ∷ messages (next_sequence channel) fs

  pub read_request-frame_task :
      (channel : Channel) (f : Frame)
      → channel.channel_id < 2 ^ 32
      → envelope.request_id < 2 ^ 32
      → header_length + length f.body < 2 ^ 63
      → All IsByte f.body
      → read_request host (frame_task host stack envelope channel f) ≡ some (message_of channel f)
  unfolding frame_task
  read_request-frame_task channel f small small' short h =
      let bytes = frame_bytes host stack envelope channel f in
      subst
        (λ n.
          read_request host (document host stack channel.channel_id envelope.request_id bytes n)
          ≡ some (channel.channel_id, record { length = n; bytes = some bytes }))
        (length-frame_bytes channel f)
        (read_request-document host stack s channel.channel_id envelope.request_id bytes small
          small' (omega (arith, short, length-frame_bytes channel f))
          (frame_bytes-IsByte channel f h))

  module _ (d : Documented host) where
    -- Znodes at these paths hold the tasks of these chunks.
    pub data Holds (w : host.World) : Channel → List Frame → List Bytes → Type 0 where
      nothing : {channel : Channel} → Holds w channel [] []
      task :
          {channel : Channel} {f : Frame} {fs : List Frame} {p : Bytes} {ps : List Bytes}
          → d.node w p ≡ some (frame_task host stack envelope (next_sequence channel) f)
          → header_length + length f.body < 2 ^ 63
          → All IsByte f.body
          → Holds w (next_sequence channel) fs ps
          → Holds w channel (f ∷ fs) (p ∷ ps)

    requests-messages :
        (w : host.World) (channel : Channel) (fs : List Frame) (ps : List Bytes)
        → channel.channel_id < 2 ^ 32
        → envelope.request_id < 2 ^ 32
        → Holds w channel fs ps
        → requests host d ps w ≡ messages channel fs
    unfolding request_at
    requests-messages w channel [] [] small small' nothing = refl
    requests-messages w channel [] (p ∷ ps) small small' x = elim x [ ]
    requests-messages w channel (f ∷ fs) [] small small' x = elim x [ ]
    requests-messages w channel (f ∷ fs) (p ∷ ps) small small' (task held short h rest) =
        rw (held, read_request-frame_task (next_sequence channel) f small small' short h)
          (ap (λ ms. message_of (next_sequence channel) f ∷ ms)
            (requests-messages w (next_sequence channel) fs ps small small' rest))

-- When the znodes of a queue are the tasks that sending the chunks of a request on a channel
-- writes, with increasing ten-digit counters, every znode fits the buffer that it is read into, and
-- the message of each task consists of complete chunks, on a channel that is open and that it does
-- not close, then the children callback hands the bytes of the chunks to the stack, each once and
-- in the order in which they were sent, whatever order ZooKeeper lists the tasks in. The path of
-- the queue has at most 65000 bytes, and the ids have 32 bits.
pub process_tasks-Delivered :
    (host : Host) (stack : Stack host)
    (s : ua_rate_throttling.Chunk.Documented.Documented host stack) (d : Documented host)
    (q : Qsort) (envelope : Envelope) (channel : Channel) (frames : List Frame) (queue : Bytes)
    → length queue ≤ 65000
    → (ns : List ℕ) → Increasing ns
    → All IsCounter ns
    → (children : List Bytes) → Perm children (map task_name ns)
    → (w : host.World) → IsReady host d w
    → (running : Bool) → channel.channel_id < 2 ^ 32
    → envelope.request_id < 2 ^ 32
    → Holds host stack s envelope d w channel frames (map (path_to_task queue) (map task_name ns))
    → (w' : host.World) × (process_tasks host q zok (some children) queue running w
        ≡ some (running, w'))
      × (d.served w' ≡ d.served w ++ messages host stack s envelope channel frames)
process_tasks-Delivered host stack s d q envelope channel frames queue fits ns increasing counters
      children perm w ready running small small' held =
    let (w', ran, drained) =
      process_tasks-InOrder host d q queue fits ns increasing counters children perm w ready
        running in
    (
      w',
      ran,
      drained.serves
          ∙ ap (λ ms. d.served w ++ ms)
              (requests-messages host stack s envelope d w channel frames _ small small' held),
    )
