-- ===== src/System.antt =====
-- The whole system: any number of clients that write chunks of their requests into the queue of a
-- server, and the server, whose callback works the queue off. Each task that the callback runs is a
-- step, and chunks may be sent in between. A task that is created while the callback runs is not
-- among the children that it was called with, and waits for its next run. The children of
-- a run are listed behind the run before it: the ZooKeeper client calls the watcher, which asks for
-- the listing, and the callback in one thread. How the server comes to know of new tasks is the child
-- Waking.
pub mod Libraries
pub mod Pending
pub mod Sent
pub mod Single
pub mod Interleaved
pub mod Waking
pub mod Noticed
use ua_rate_throttling.Common.{
  ℕ, ◌+◌, ◌^◌, ◌<◌, ◌≡◌, Bool, true, some, List, [], ◌∷◌, ◌++◌, Bytes, length, All,
}
use ua_rate_throttling.Zoo.{zok}
use ua_rate_throttling.Znode.{buffer_size}
use ua_rate_throttling.Task.{task_id_cmp}
use ua_rate_throttling.Task.Order.{Qsort, IsCounter}
use ua_rate_throttling.Queue.{process_tasks, execute_request, path_to_task}
use ua_rate_throttling.Queue.Libraries.{Host, ByteString}
use ua_rate_throttling.Queue.Batch.{IsTaken}
use ua_rate_throttling.Queue.Documented.{Documented}
use ua_rate_throttling.Chunk.{Connection, Sending, send_chunk, header_length, good}
use ua_rate_throttling.Chunk.Libraries.{Stack}
use ua_rate_throttling.Chunk.Documented.{IsByte}
use ua_rate_throttling.Message.Frames.{Envelope, next_sequence, frame_task, Frame}
use ua_rate_throttling.Message.Step.{frame_of}
use ua_rate_throttling.Message.Delivered.{message_of}
use Libraries.{task_prefix, CountsUp, Sequential}

module _ (host : Host) (stack : Stack host)
    (s : ua_rate_throttling.Chunk.Documented.Documented host stack) (d : Documented host)
    (q : Qsort) (queue : Bytes) (z : Sequential host stack d queue)
    (buffers : (size : ℕ) (w : host.World) → stack.get_send_buffer size w ≡ good) where
  -- The chunks of the message that is being sent, for the queue.
  abbrev pub envelope_of : Sending host.World → Envelope
  envelope_of sending = record {
    message_type = sending.ci.message_type;
    request_id = sending.ci.request_id;
    task_path = task_prefix queue;
  }

  abbrev pub chunk_of : Connection → Bytes → Sending host.World → Frame
  chunk_of connection body sending =
      frame_of host stack connection (envelope_of sending) buffers body sending

  -- The message that the chunk carries to the server.
  abbrev pub message_sent : Connection → Bytes → Sending host.World → ℕ × ByteString
  message_sent connection body sending =
      message_of host stack s (envelope_of sending) (next_sequence sending.channel)
        (chunk_of connection body sending)

  -- A client that can send a chunk: it has a connection and a buffer, and its ids are ids; the
  -- chunk consists of bytes, its task fits the buffer that the server reads it into, and the stack
  -- of the server takes its message: complete chunks, on an open channel that it does not close.
  pub record CanSend (connection : Connection) (body : Bytes) (sending : Sending host.World)
      : Type 0 where
    pub connected : sending.channel.connection ≡ some connection
    pub buffer : sending.buffer ≡ true
    pub small_channel : sending.channel.channel_id < 2 ^ 32
    pub small_request : sending.ci.request_id < 2 ^ 32
    pub bytes : All IsByte (chunk_of connection body sending).body
    pub short : header_length + length (chunk_of connection body sending).body < 2 ^ 63
    pub fits :
        length (
          frame_task host stack
            (envelope_of sending)
            (next_sequence sending.channel)
            (chunk_of connection body sending))
        < buffer_size
    pub taken :
        IsTaken host d sending.world
          (message_sent connection body sending).0
          (message_sent connection body sending).1

  -- Some client sends a chunk with a message, while the counter does not overflow.
  pub data Sends : host.World → ℕ × ByteString → host.World → Type 0 where
    chunk_is_sent :
        {w w' : host.World} (connection : Connection) (body : Bytes)
        (sending sent : Sending host.World) (rc : ℕ)
        → CanSend connection body sending
        → CountsUp (z.counter w)
        → sending.world ≡ w
        → send_chunk host stack (task_prefix queue) body sending ≡ some (rc, sent)
        → sent.world ≡ w'
        → Sends w (message_sent connection body sending) w'

  -- A step of the system, with the messages that it puts into the queue. The tasks that the callback
  -- has still to run stand beside the world: while it runs them, clients go on.
  pub data Move
      : List Bytes × host.World → List (ℕ × ByteString) → List Bytes × host.World → Type 0 where
    client_goes_on :
        {names : List Bytes} {w w' : host.World} {m : ℕ × ByteString}
        → Sends w m w'
        → Move (names, w) (m ∷ []) (names, w')
    -- The callback sorts the children that it is called with.
    callback_begins :
        {w : host.World} (sorted : List Bytes)
        → q.sort task_id_cmp (z.children w) ≡ some sorted
        → Move ([], w) [] (sorted, w)
    task_runs :
        {name : Bytes} {names : List Bytes} {w w' : host.World}
        → execute_request host (path_to_task queue name) w ≡ some w'
        → Move (name ∷ names, w) [] (names, w')

  pub data History
      : List Bytes × host.World → List (ℕ × ByteString) → List Bytes × host.World → Type 0 where
    here : {state : List Bytes × host.World} → History state [] state
    next :
        {state state' state'' : List Bytes × host.World} {ms ns : List (ℕ × ByteString)}
        → History state ms state'
        → Move state' ns state''
        → History state (ms ++ ns) state''
