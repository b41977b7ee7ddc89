-- ===== src/Queue/Libraries.antt =====
-- What the server relies on and does not implement: the ZooKeeper client, jansson, glib's base64 and
-- the OPC UA stack.
use ua_rate_throttling.Common.{ℕ, Option, Bytes}

-- `UA_ByteString`
pub record ByteString : Type 0 where
  pub length : ℕ
  pub bytes : Option Bytes

pub record Host : Type 1 where
  -- The ZooKeeper tree and the state of the OPC UA server.
  pub World : Type 0
  pub Json : Type 0
  pub Channel : Type 0
  -- `zoo_get` into a zeroed buffer of 65535 bytes: the string that it then holds, empty on failure.
  pub zoo_get : Bytes → World → Bytes
  -- `zoo_delete` of any version; the result code is only printed.
  pub zoo_delete : Bytes → World → World
  pub json_loads : Bytes → Option Json
  pub json_object_get : Json → Bytes → Option Json
  -- 0 of a null pointer and of what is no integer
  pub json_integer_value : Option Json → ℕ
  pub json_string_value : Json → Option Bytes
  pub base64_decode : Bytes → Bytes
  -- `ZUTH_getSecureChannel`, a null pointer for an unknown channel
  pub secure_channel : ℕ → World → Option Channel
  -- `UA_SecureChannel_processChunks` with the server's callback; it may read through a null pointer.
  pub process_chunks : Option Channel → ByteString → World → Option World
