-- ===== src/Queue.antt =====
-- How the server works off its queue: `zuth_executeRequest` and `zuth_processTasks` of
-- examples/zuthServer.c.
pub mod Libraries
pub mod Documented
pub mod Batch
pub mod InOrder
pub mod Keeps
use ua_rate_throttling.Common.{
  ℕ, ◌%◌, ◌^◌, Bool, ◌&&◌, true, false, Option, none, some, List, [], ◌∷◌, ◌++◌, Bytes, codes,
  length, if◌then◌else◌, c_string, snprintf, ◌>>=◌,
}
use ua_rate_throttling.Zoo.{ZooCode, is_zok}
use ua_rate_throttling.Znode.{buffer_size}
use ua_rate_throttling.Task.{task_id_cmp}
use ua_rate_throttling.Task.Order.{Qsort}
use Libraries.{Host, ByteString}

-- `snprintf(pathToTask, 65535, "%s/%s", data, strings->data[i])`
unfoldable pub path_to_task : Bytes → Bytes → Bytes
path_to_task queue name = snprintf buffer_size (queue ++ codes "/" ++ name)

module _ (host : Host) where
  open host use {
    World, zoo_get, zoo_delete, json_loads, json_object_get, json_integer_value, json_string_value,
    base64_decode, secure_channel, process_chunks,
  }

  -- The `UA_ByteString` that is processed. `g_base64_decode` of a null pointer returns one and leaves
  -- the length as it was set.
  decode_request : ℕ → Option Bytes → ByteString
  decode_request offset none = record { length = offset; bytes = none }
  decode_request offset (some conv) = record {
    length = length (base64_decode conv);
    bytes = some (base64_decode conv);
  }

  -- The document of a task: the id of the client's channel, and the message. `none` where the
  -- document cannot be parsed or has no message.
  unfoldable pub read_request : Bytes → Option (ℕ × ByteString)
  unfolding decode_request
  read_request buffer = do
    json_root ← json_loads buffer
    let offset = json_integer_value (json_object_get json_root (codes "offset"))
    j_string ← json_object_get json_root (codes "dst")
    let dst = decode_request offset (json_string_value j_string)
    let j_channel = json_object_get json_root (codes "channelId")
    some (json_integer_value j_channel % 2 ^ 32, dst)

  -- Behind the two early returns of `zuth_executeRequest`: process the message, delete the task.
  run_request : Bytes → World → Option (ℕ × ByteString) → Option World
  run_request string_request world none = some world
  run_request string_request world (some (channel_id, dst)) = do
    processed ← process_chunks (secure_channel channel_id world) dst world
    some (zoo_delete string_request processed)

  -- `zuth_executeRequest`. `none` is undefined behaviour in the code that it calls.
  unfoldable pub execute_request : Bytes → World → Option World
  unfolding run_request
  execute_request string_request world =
      run_request string_request world (read_request (zoo_get string_request world))

  -- The loop over the sorted children.
  unfoldable pub execute_all : Bytes → List Bytes → World → Option World
  execute_all queue [] world = some world
  execute_all queue (name ∷ names) world = do
    world' ← execute_request (path_to_task queue name) world
    execute_all queue names world'

  -- `zuth_processTasks`: the flag `running` and the world behind the callback. The children are a
  -- null pointer where the listing failed.
  unfoldable pub process_tasks :
      Qsort → ZooCode → Option (List Bytes) → Bytes → Bool → World → Option (Bool × World)
  process_tasks q rc none queue running world = some (running && is_zok rc, world)
  process_tasks q rc (some strings) queue running world = do
    sorted ← q.sort task_id_cmp strings
    world' ← execute_all queue sorted world
    some (running && is_zok rc, world')
