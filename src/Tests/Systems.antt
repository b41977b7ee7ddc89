-- ===== src/Tests/Systems.antt =====
-- Two clients that send chunks to one server, at concrete inputs.
use mathlib.Core.List.{Perm, map}
use mathlib.Core.List.Perm
use ua_rate_throttling.Common.{
  ℕ, ◌^◌, ◌≡◌, refl, sym, ap, ◌∙◌, subst, true, Option, none, some, List, [], ◌∷◌, Bytes, codes,
  All, arith, if◌then◌else◌,
}
use ua_rate_throttling.Task.Name.{task_name}
use ua_rate_throttling.Task.Order.{IsCounter}
use ua_rate_throttling.Queue.Libraries.{ByteString}
use ua_rate_throttling.Queue.Documented.{same}
use ua_rate_throttling.Queue.Batch.{IsReady, request_at-none}
use ua_rate_throttling.Queue.InOrder.{Increasing}
use ua_rate_throttling.Chunk.{Sending, send_chunk, send_on, check_limits, document, good}
use ua_rate_throttling.Message.{message_msg}
use ua_rate_throttling.Message.Frames.{frame_task, frame_bytes}
use ua_rate_throttling.System.{Sends, chunk_is_sent, CanSend, message_sent}
use ua_rate_throttling.System.Libraries.{
  CountsUp, task_prefix, mem, exists_node, task_node, Sequential,
}
use ua_rate_throttling.System.Pending.{listed-task_names}
use ua_rate_throttling.Tests.Sorting.{insertion_sort}
use ua_rate_throttling.Tests.Tasks.{Shop, host, stack, documented, connection, channel, shop}
use ua_rate_throttling.Tests.Listing.{All-from_zero, picked, picked-mem}
use ua_rate_throttling.Tests.Delivery.{services}

abbrev pub queue : Bytes
queue = codes "/q"

-- The tasks whose znodes exist.
pub tasks_in : Shop → List Bytes
tasks_in w = map task_name (picked 0 (10 ^ 10) (λ n. exists_node (w.node (task_node queue n))))

pub tasks_in-listed :
    (w : Shop) (ns : List ℕ)
    → Increasing ns
    → All IsCounter ns
    → ((n : ℕ) → IsCounter n → exists_node (w.node (task_node queue n)) ≡ mem n ns)
    → Perm (tasks_in w) (map task_name ns)
unfolding tasks_in
tasks_in-listed w ns up counters there =
    let listed =
      picked-mem 0 (10 ^ 10) (λ n. exists_node (w.node (task_node queue n))) ns up
        (All-from_zero ns) counters (λ n a b. there n b) in
    subst (λ names. Perm names (map task_name ns)) (ap (map task_name) (sym listed))
      (Perm.refl (map task_name ns))

pub creates_lem :
    (data' : Bytes) (w : Shop) (p : Bytes)
    → (stack.zoo_create (task_prefix queue) data' w).1.node p
      ≡ (if same (task_node queue w.counter) p then some data' else w.node p)
unfolding task_name
creates_lem data' w p = refl

abbrev pub counter_of : Option Shop → ℕ
counter_of none = 0
counter_of (some w) = w.counter

abbrev pub sequential : Sequential host stack services queue
sequential = record {
  counter = λ w. w.counter;
  children = tasks_in;
  creates = λ data' w p h. creates_lem data' w p;
  counts = λ data' w h. refl;
  creates_only = λ data' w. refl;
  counter-delete = λ p w. refl;
  counter-process = λ id dst w w' ran. ap counter_of (sym ran);
  creates_open = λ data' w id h. h;
  lists = λ w ns up counters there.
      tasks_in-listed w ns up counters
        (λ n h. there (task_name n) ∙ listed-task_names queue (omega arith) n ns h counters);
}

-- A client that sends the last chunk of a request on the channel with an id.
abbrev pub sending : ℕ → Shop → Sending Shop
sending id w = record {
  ci = record {
    request_id = 3;
    chunks_so_far = 0;
    message_size_so_far = 0;
    final = true;
    message_type = message_msg;
    error_code = good;
  };
  channel = record channel { channel_id = id };
  buffer = true;
  world = w;
}

abbrev pub sent : ℕ → Bytes → Shop → ℕ × Sending Shop
sent id body w = send_on host stack connection (task_prefix queue) body (sending id w)

send_chunk-sent :
    (id : ℕ) (body : Bytes) (w : Shop)
    → send_chunk host stack (task_prefix queue) body (sending id w) ≡ some (sent id body w)
unfolding send_chunk
send_chunk-sent id body w = refl

abbrev CanSendChunk : ℕ → Bytes → Shop → Type 0
CanSendChunk id body w =
    CanSend host stack documented services insertion_sort queue sequential (λ size w. refl)
      connection body (sending id w)

read-CanSend : (w : Shop) → CanSendChunk 7 (codes "read") w
unfolding check_limits frame_task frame_bytes document same
read-CanSend w = record {
  connected = refl;
  buffer = refl;
  small_channel = omega arith;
  small_request = omega arith;
  bytes = omega arith;
  short = omega arith;
  fits = omega arith;
  taken = (tt, (λ e. cc e), refl);
}

write-CanSend : (w : Shop) → CanSendChunk 8 (codes "write") w
unfolding check_limits frame_task frame_bytes document same
write-CanSend w = record {
  connected = refl;
  buffer = refl;
  small_channel = omega arith;
  small_request = omega arith;
  bytes = omega arith;
  short = omega arith;
  fits = omega arith;
  taken = (tt, (λ e. cc e), refl);
}

abbrev pub first : Shop
first = (sent 7 (codes "read") shop).1.world

abbrev pub second : Shop
second = (sent 8 (codes "write") first).1.world

first-CountsUp : CountsUp first.counter
unfolding send_on
first-CountsUp = omega arith

abbrev pub messages_sent : List (ℕ × ByteString)
messages_sent =
    message_sent host stack documented services insertion_sort queue sequential (λ size w. refl)
      connection (codes "read") (sending 7 shop)
    ∷ message_sent host stack documented services insertion_sort queue sequential (λ size w. refl)
        connection (codes "write") (sending 8 first)
    ∷ []

pub shop-IsReady : IsReady host services shop
shop-IsReady p = (omega arith, λ id dst e. absurd (cc (e, request_at-none host services)))

abbrev SendsHere : Shop → ℕ × ByteString → Shop → Type 0
SendsHere = Sends host stack documented services insertion_sort queue sequential (λ size w. refl)

pub read_sent :
    SendsHere shop
      (message_sent host stack documented services insertion_sort queue sequential
        (λ size w. refl)
        connection
        (codes "read")
        (sending 7 shop))
      first
read_sent =
    chunk_is_sent connection (codes "read") (sending 7 shop) (sent 7 (codes "read") shop).1
      (sent 7 (codes "read") shop).0 (read-CanSend shop) (omega arith) refl
      (send_chunk-sent 7 (codes "read") shop) refl

pub write_sent :
    SendsHere first
      (message_sent host stack documented services insertion_sort queue sequential
        (λ size w. refl)
        connection
        (codes "write")
        (sending 8 first))
      second
write_sent =
    chunk_is_sent connection (codes "write") (sending 8 first) (sent 8 (codes "write") first).1
      (sent 8 (codes "write") first).0 (write-CanSend first) first-CountsUp refl
      (send_chunk-sent 8 (codes "write") first) refl
