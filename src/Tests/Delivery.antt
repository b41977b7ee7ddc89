-- ===== src/Tests/Delivery.antt =====
-- A request from its client to the stack of its server, at a concrete input.
use mathlib.Core.List.{map}
use mathlib.Core.List.Perm
use ua_rate_throttling.Common.{◌≡◌, ◌≢◌, none, refl, true, some, [], ◌∷◌, ◌++◌, Bytes, codes, arith}
use ua_rate_throttling.Zoo.{zok}
use ua_rate_throttling.Task.Name.{task_name}
use ua_rate_throttling.Queue.{process_tasks, path_to_task}
use ua_rate_throttling.Queue.Documented.{Documented, same}
use ua_rate_throttling.Queue.Batch.{IsReady, IsTaken-eq, request_at}
use ua_rate_throttling.Chunk.{chunk_final, document}
use ua_rate_throttling.Message.{message_msg}
use ua_rate_throttling.Message.Frames.{Frame, Envelope, next_sequence, frame_task, frame_bytes}
use ua_rate_throttling.Message.Delivered.{
  read_request-frame_task, Holds, nothing, task, messages, process_tasks-Delivered,
}
use ua_rate_throttling.Tests.Services.{is_close}
use ua_rate_throttling.Tests.Sorting.{insertion_sort}
use ua_rate_throttling.Tests.Tasks.{Shop, host, stack, documented, channel, shop}

abbrev pub services : Documented host
services = record {
  node = λ w. w.node;
  served = λ w. w.served;
  IsOpen = λ w id. Unit;
  closes = λ dst. is_close dst.bytes;
  IsWhole = λ dst. dst.bytes ≢ none;
  gets = λ p w short. refl;
  deletes = λ p q w. refl;
  deletes_only = λ p w. refl;
  loads_nothing = refl;
  deletes_none = λ p w id h. h;
  processes = λ id dst w h bytes stays. (_, refl, refl, λ q. refl, λ i o. o);
}

abbrev envelope : Envelope
envelope = record { message_type = message_msg; request_id = 3; task_path = codes "/q/task-" }

abbrev frame : Frame
frame = record { kind = chunk_final; body = codes "read" }

abbrev written : Bytes
written = frame_task host stack envelope (next_sequence channel) frame

-- The znode of the queue holds the one task.
abbrev full : Shop
full = record shop { node = λ p. some written }

full-IsReady : IsReady host services full
unfolding frame_task frame_bytes document request_at same
full-IsReady = λ p. (
  omega arith,
  IsTaken-eq host services full _ _
      (read_request-frame_task host stack documented envelope (next_sequence channel) frame
        (omega arith) (omega arith) (omega arith) (omega arith))
      (tt, (λ e. cc e), refl),
)

full-Holds :
    Holds host stack documented envelope services full channel
      (frame ∷ [])
      (map (path_to_task (codes "/q")) (map task_name (9 ∷ [])))
full-Holds = task refl (omega arith) (omega arith) nothing

process_tasks-Delivered_example :
    (w' : Shop) × (process_tasks host insertion_sort zok
        (some (task_name 9 ∷ []))
        (codes "/q")
        true
        full
      ≡ some (true, w'))
    × (w'.served ≡ full.served ++ messages host stack documented envelope channel (frame ∷ []))
process_tasks-Delivered_example =
    process_tasks-Delivered host stack documented services insertion_sort envelope channel
      (frame ∷ []) (codes "/q") (omega arith) (9 ∷ []) (omega arith) (omega arith)
      (task_name 9 ∷ []) (Perm.refl (task_name 9 ∷ [])) full full-IsReady true (omega arith)
      (omega arith) full-Holds
