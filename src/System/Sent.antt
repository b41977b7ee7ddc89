-- ===== src/System/Sent.antt =====
-- What sending a chunk does to the queue: its message stands behind those that are there.
use ua_rate_throttling.Common.{
  ℕ, ◌≤◌, ◌≡◌, refl, sym, ap, ◌∙◌, subst, some, List, [], ◌∷◌, ◌++◌, Bytes, length,
}
use ua_rate_throttling.Task.Order.{Qsort}
use ua_rate_throttling.Queue.Libraries.{Host, ByteString}
use ua_rate_throttling.Queue.Documented.{Documented}
use ua_rate_throttling.Queue.Batch.{request_at}
use ua_rate_throttling.Chunk.{Connection, Sending, send_chunk, good}
use ua_rate_throttling.Chunk.Libraries.{Stack}
use ua_rate_throttling.Message.Frames.{next_sequence, frame_task}
use ua_rate_throttling.Message.Step.{send_chunk-on, state-sent}
use ua_rate_throttling.Message.Delivered.{read_request-frame_task}
use ua_rate_throttling.System.{envelope_of, chunk_of, message_sent, CanSend, Sends, chunk_is_sent}
use ua_rate_throttling.System.Libraries.{task_prefix, CountsUp, Sequential}
use ua_rate_throttling.System.Pending.{Entry, Holding, created-Holding}

module _ (host : Host) (stack : Stack host)
    (s : ua_rate_throttling.Chunk.Documented.Documented host stack) (d : Documented host)
    (q : Qsort) (queue : Bytes) (z : Sequential host stack d queue)
    (buffers : (size : ℕ) (w : host.World) → stack.get_send_buffer size w ≡ good)
    (fits : length queue ≤ 65000) where
  -- The document of the task that a chunk is sent in.
  abbrev task_of : Connection → Bytes → Sending host.World → Bytes
  task_of connection body sending =
      frame_task host stack (envelope_of host stack s d q queue z buffers sending)
        (next_sequence sending.channel)
        (chunk_of host stack s d q queue z buffers connection body sending)

  module _ (connection : Connection) (body : Bytes) (sending sent : Sending host.World) (rc : ℕ)
      (can : CanSend host stack s d q queue z buffers connection body sending)
      (ran : send_chunk host stack (task_prefix queue) body sending ≡ some (rc, sent)) where
    world-sent :
        sent.world
        ≡ (stack.zoo_create (task_prefix queue) (task_of connection body sending) sending.world).1
    world-sent =
        let envelope = envelope_of host stack s d q queue z buffers sending in
        let step =
          ua_rate_throttling.Message.Step.sent host stack connection envelope buffers body
            sending in
        let e : step ≡ (rc, sent) = cc (
          send_chunk-on host stack connection envelope buffers body sending can.connected
              can.buffer,
          ran,
        ) in
        ap (λ p. p.1.world) (sym e)
        ∙ ap (λ p. p.1) (state-sent host stack connection envelope buffers body sending refl refl)

    served-sent : d.served sent.world ≡ d.served sending.world
    served-sent = ap d.served world-sent ∙ z.creates_only _ _

    sent-Holding :
        (es : List Entry)
        → Holding host stack d queue z sending.world es
        → CountsUp (z.counter sending.world)
        → Holding host stack d queue z sent.world (
            es
            ++ (
              z.counter sending.world,
              message_sent host stack s d q queue z buffers connection body sending,
            )
              ∷ [])
    unfolding request_at
    sent-Holding es h counter =
        let message = message_sent host stack s d q queue z buffers connection body sending in
        subst (λ w. Holding host stack d queue z w (es ++ (z.counter sending.world, message) ∷ []))
          (sym world-sent)
          (created-Holding host stack d queue z fits (task_of connection body sending) sending.world
            counter es message h can.fits
            (read_request-frame_task host stack s
              (envelope_of host stack s d q queue z buffers sending) (next_sequence sending.channel)
              (chunk_of host stack s d q queue z buffers connection body sending) can.small_channel
              can.small_request can.short can.bytes)
            can.taken)

  pub Sends-Holding :
      {w w' : host.World} {m : ℕ × ByteString}
      → Sends host stack s d q queue z buffers w m w'
      → (es : List Entry) → Holding host stack d queue z w es
      → Holding host stack d queue z w' (es ++ (z.counter w, m) ∷ []) × (d.served w' ≡ d.served w)
  Sends-Holding {w} {w'} {m}
        (chunk_is_sent connection body sending sent rc can counter at ran arrives) es h =
      let message = message_sent host stack s d q queue z buffers connection body sending in
      let h' =
        sent-Holding connection body sending sent rc can ran es
          (subst (λ v. Holding host stack d queue z v es) (sym at) h)
          (subst (λ v. CountsUp (z.counter v)) (sym at) counter) in
      (
        subst (λ v. Holding host stack d queue z v (es ++ (z.counter w, message) ∷ [])) arrives
            (subst (λ n. Holding host stack d queue z sent.world (es ++ (n, message) ∷ []))
              (ap z.counter at) h'),
        ap d.served (sym arrives)
            ∙ served-sent connection body sending sent rc can ran
            ∙ ap d.served at,
      )
