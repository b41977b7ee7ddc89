-- ===== src/Chunk/Document.antt =====
-- The JSON document of a task, from the client to the server.
use ua_rate_throttling.Common.{
  ℕ, ◌^◌, ◌<◌, ◌≡◌, refl, ap, some, List, Bytes, codes, length, All, arith,
}
use ua_rate_throttling.Queue.{read_request}
use ua_rate_throttling.Queue.Libraries.{Host}
use ua_rate_throttling.Queue.Documented.{same, IsDistinct}
use ua_rate_throttling.Chunk.{document, members}
use ua_rate_throttling.Chunk.Libraries.{Stack}
use ua_rate_throttling.Chunk.Documented.{find, keys, Documented, IsByte, IsText}

module _ (host : Host) (stack : Stack host) (d : Documented host stack) (channel_id request_id : ℕ)
    (dst : Bytes) (small : channel_id < 2 ^ 32) (small' : request_id < 2 ^ 32)
    (short : length dst < 2 ^ 63) (bytes : All IsByte dst) where
  abbrev task : List (Bytes × host.Json)
  task = members host stack channel_id request_id dst (length dst)

  task-IsDistinct : IsDistinct (keys task)
  unfolding same
  task-IsDistinct = (refl, (refl, (refl, (refl, tt))))

  task-IsJson : All (λ m. All IsText m.0 × d.IsJson m.1) task
  task-IsJson = (
    (omega arith, d.integer-IsJson channel_id (omega arith)),
    (
      (omega arith, d.integer-IsJson request_id (omega arith)),
      (
        (omega arith, d.string-IsJson (stack.base64_encode dst) (d.base64_text dst bytes)),
        ((omega arith, d.integer-IsJson (length dst) short), tt),
      ),
    ),
  )

  get_member : (key : Bytes) → host.json_object_get (stack.json_object task) key ≡ find key task
  get_member key = d.gets task key task-IsJson task-IsDistinct

  load_task :
      host.json_loads (document host stack channel_id request_id dst (length dst))
      ≡ some (stack.json_object task)
  unfolding document
  load_task = d.loads_dumps task task-IsJson task-IsDistinct

  get_channel :
      host.json_object_get (stack.json_object task) (codes "channelId")
      ≡ some (stack.json_integer channel_id)
  unfolding same
  get_channel = get_member (codes "channelId")

  get_dst :
      host.json_object_get (stack.json_object task) (codes "dst")
      ≡ some (stack.json_string (stack.base64_encode dst))
  unfolding same
  get_dst = get_member (codes "dst")

-- The server reads off a task what the client put there: for each channel, request and chunk of
-- bytes it gets the id of the channel and the bytes of the chunk.
pub read_request-document :
    (host : Host) (stack : Stack host) (d : Documented host stack) (channel_id request_id : ℕ)
    (dst : Bytes)
    → channel_id < 2 ^ 32
    → request_id < 2 ^ 32
    → length dst < 2 ^ 63
    → All IsByte dst
    → read_request host (document host stack channel_id request_id dst (length dst))
      ≡ some (channel_id, record { length = length dst; bytes = some dst })
unfolding read_request
read_request-document host stack d channel_id request_id dst small small' short bytes =
    rw
      (
        load_task host stack d channel_id request_id dst small small' short bytes,
        get_dst host stack d channel_id request_id dst small small' short bytes,
        get_channel host stack d channel_id request_id dst small small' short bytes,
        d.string_value (stack.base64_encode dst) (d.base64_text dst bytes),
        d.integer_value channel_id (omega arith),
        d.base64_lem dst bytes,
      )
      (ap (λ (k : ℕ). some (k, record { length = length dst; bytes = some dst })) (omega arith))
