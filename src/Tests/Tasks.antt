-- ===== src/Tests/Tasks.antt =====
-- The theorems on the tasks that a client writes at concrete inputs.
use ua_rate_throttling.Common.Cstdlib.{decimal_digits}
use ua_rate_throttling.Common.{
  ℕ, zero, suc, length, ◌≤◌, ◌+◌, ◌/◌, ◌%◌, ◌≡◌, refl, Option, none, some, List, [], ◌∷◌, ◌++◌,
  Bytes, codes, All, arith, snprintf, if◌then◌else◌,
}
use ua_rate_throttling.Zoo.{zok}
use ua_rate_throttling.Znode.{buffer_size}
use ua_rate_throttling.Queue.{read_request}
use ua_rate_throttling.Queue.Libraries.{Host, ByteString}
use ua_rate_throttling.Queue.Documented.{same}
use ua_rate_throttling.Chunk.{Channel, Connection, document, good}
use ua_rate_throttling.Chunk.Libraries.{Stack}
use ua_rate_throttling.Chunk.Documented.{Documented, IsByte}
use ua_rate_throttling.Chunk.Bounds.{document-exceeds_buffer}
use ua_rate_throttling.Chunk.Document.{read_request-document}
use ua_rate_throttling.Message.{Encoding, send_binary_message, message_type_of}
use ua_rate_throttling.Message.Frames.{Frame, send_frames}
use ua_rate_throttling.Message.Ends.{Closed}
use ua_rate_throttling.Message.Closed.{send_binary_message-Closed}
use ua_rate_throttling.Tests.Base64.{
  to_base64, from_base64, to_base64-IsText, length-to_base64, from_base64-to_base64,
}
use ua_rate_throttling.Tests.Json.{
  Json, value, object, number, text, values, get, IsValue, dumps, loads, loads-dumps, length-dumps,
  get-find,
}

-- The tasks that were written, the clock, the counter of ZooKeeper, the strings in the znodes, and the
-- messages that were processed.
pub record Shop : Type 0 where
  pub tasks : List (Bytes × Bytes)
  pub clock : ℕ
  pub counter : ℕ
  pub node : Bytes → Option Bytes
  pub served : List (ℕ × ByteString)

abbrev get_integer : Option Json → ℕ
get_integer (some (value (number n))) = n
get_integer _ = 0

abbrev get_string : Json → Option Bytes
get_string (value (text s)) = some s
get_string _ = none

abbrev process : Option ℕ → ByteString → Shop → Option Shop
process none dst w = none
process (some id) dst w = some (record w { served = w.served ++ (id, dst) ∷ [] })

abbrev pub host : Host
host = record {
  World = Shop;
  Json = Json;
  Channel = ℕ;
  zoo_get = λ p w. ua_rate_throttling.Queue.Documented.text (w.node p);
  zoo_delete = λ p w. record w { node = λ q. if same p q then none else w.node q };
  json_loads = loads;
  json_object_get = get;
  json_integer_value = get_integer;
  json_string_value = get_string;
  base64_decode = from_base64;
  secure_channel = λ id w. some id;
  process_chunks = process;
}

-- A little-endian word of 32 bits.
abbrev word : ℕ → Bytes
word n = n % 256 ∷ n / 256 % 256 ∷ n / 65536 % 256 ∷ n / 16777216 % 256 ∷ []

word-IsByte : (n : ℕ) → All IsByte (word n)
word-IsByte n = omega arith

abbrev pub stack : Stack host
stack = record {
  json_integer = λ n. value (number n);
  json_string = λ s. value (text s);
  json_object = λ ms. object (values ms);
  json_dumps = dumps;
  base64_encode = to_base64;
  zoo_create = λ p task w. (
    zok,
    record w {
      tasks = w.tasks ++ (p, task) ∷ [];
      counter = w.counter + 1;
      node = λ q. if same (p ++ decimal_digits 10 w.counter) q then some task else w.node q;
    },
  );
  conversation_header =
      λ h. word h.message_type_and_chunk_type ++ (word h.message_size ++ word h.secure_channel_id);
  security_header = λ h. word h.token_id;
  sequence_header = λ h. word h.sequence_number ++ word h.request_id;
  abort_body = λ code. word code ++ word 0xFFFFFFFF;
  get_send_buffer = λ size w. good;
}

abbrev pub documented : Documented host stack
documented = record {
  IsJson = IsValue;
  integer-IsJson = λ n h. tt;
  string-IsJson = λ s h. h;
  loads_dumps = λ ms h distinct. loads-dumps ms h;
  length-dumps = length-dumps;
  gets = λ ms key h distinct. get-find ms key h;
  integer_value = λ n h. refl;
  string_value = λ s h. refl;
  base64_text = to_base64-IsText;
  base64_lem = from_base64-to_base64;
  length-base64 = length-to_base64;
  conversation_size = λ h. refl;
  conversation_bytes = λ h. omega arith;
  security_size = λ h. refl;
  security_bytes = λ h. omega arith;
  sequence_size = λ h. refl;
  sequence_bytes = λ h. omega arith;
  abort_bytes = λ code. omega arith;
}

abbrev message : Bytes
message = codes "MSGF"

read_request-document_example :
    read_request host (document host stack 7 3 message 4)
    ≡ some (7, record { length = 4; bytes = some message })
read_request-document_example =
    read_request-document host stack documented 7 3 message (omega arith) (omega arith)
      (omega arith) (omega arith)

zeros : ℕ → Bytes
zeros zero = []
zeros (suc n) = 0 ∷ zeros n

length-zeros : (n : ℕ) → length (zeros n) ≡ n
unfolding zeros
length-zeros zero = refl
length-zeros (suc n) = omega (arith, length-zeros n)

document-exceeds_buffer_example :
    buffer_size ≤ length (document host stack 7 3 (zeros 49150) (length (zeros 49150)))
document-exceeds_buffer_example =
    document-exceeds_buffer host stack documented 7 3 (zeros 49150)
      (omega (arith, length-zeros 49150))

abbrev pub connection : Connection
connection = record { max_message_size = 0; max_chunk_count = 2; send_buffer_size = 65535 }

abbrev pub channel : Channel
channel = record {
  connection = some connection;
  channel_id = 7;
  token_id = 1;
  send_sequence_number = 51;
}

-- A read request that fills three buffers, one more than the server allows.
abbrev pub encoding : Encoding
encoding = record {
  type_id = 631;
  bodies = codes "a" ∷ codes "b" ∷ codes "c" ∷ [];
  rest = codes "d";
  status = good;
}

abbrev pub task_path : Bytes
task_path = codes "/Servers/{}/Queue/server/task-"

abbrev pub shop : Shop
shop = record { tasks = []; clock = 0; counter = 0; node = λ p. none; served = [] }

send_binary_message-Closed_example :
    (status : ℕ) × (frames : List Frame) × (send_binary_message host stack channel 3 encoding
        task_path shop
      ≡ some (
        status,
        send_frames host stack
            (record {
              message_type = message_type_of encoding.type_id;
              request_id = 3;
              task_path = snprintf buffer_size task_path;
            })
            frames
            (channel, shop),
      ))
    × Closed status encoding.rest encoding.bodies frames
send_binary_message-Closed_example =
    send_binary_message-Closed host stack (λ size w. refl) channel connection 3 encoding task_path
      shop refl
