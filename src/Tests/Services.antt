-- ===== src/Tests/Services.antt =====
-- A server whose libraries keep what is documented of them: a document is the number of its channel
-- in one byte, and the message behind it.
use mathlib.Core.Path.{refl}
use ua_rate_throttling.Common.{
  ℕ, ◌≢◌, Bool, false, take, Option, none, some, List, [], ◌∷◌, ◌++◌, Bytes, codes, if◌then◌else◌,
}
use ua_rate_throttling.Queue.Libraries.{Host, ByteString}
use ua_rate_throttling.Queue.Documented.{Documented, same, text}

-- The strings in the znodes, and the messages that were processed.
pub record Store : Type 0 where
  pub node : Bytes → Option Bytes
  pub served : List (ℕ × ByteString)

pub data Document : Type 0 where
  number : ℕ → Document
  string : Bytes → Document
  object : ℕ → Bytes → Document

abbrev pub loads : Bytes → Option Document
loads [] = none
loads (channel_id ∷ message) = some (object channel_id message)

abbrev pub get_string : Document → Option Bytes
get_string (string s) = some s
get_string _ = none

abbrev pub get_integer : Option Document → ℕ
get_integer (some (number n)) = n
get_integer _ = 0

abbrev pub get_field : Document → Bytes → Option Document
get_field (object channel_id message) key =
    if same key (codes "channelId")
    then some (number channel_id)
    else if same key (codes "dst")
    then some (string message)
    else none
get_field _ key = none

abbrev pub process : Option ℕ → ByteString → Store → Option Store
process none dst w = none
process (some channel) dst w = some (record w { served = w.served ++ (channel, dst) ∷ [] })

abbrev pub delete : Bytes → Store → Store
delete p w = record w { node = λ q. if same p q then none else w.node q }

abbrev pub host : Host
host = record {
  World = Store;
  Json = Document;
  Channel = ℕ;
  zoo_get = λ p w. text (w.node p);
  zoo_delete = delete;
  json_loads = loads;
  json_object_get = get_field;
  json_integer_value = get_integer;
  json_string_value = get_string;
  base64_decode = λ conv. conv;
  secure_channel = λ id w. some id;
  process_chunks = process;
}

-- A message to close a channel.
abbrev pub is_close : Option Bytes → Bool
is_close none = false
is_close (some s) = same (take 3 s) (codes "CLO")

abbrev pub documented : Documented host
documented = record {
  node = λ w. w.node;
  served = λ w. w.served;
  IsOpen = λ w id. Unit;
  closes = λ dst. is_close dst.bytes;
  IsWhole = λ dst. dst.bytes ≢ none;
  gets = λ p w short. refl;
  deletes = λ p q w. refl;
  deletes_only = λ p w. refl;
  loads_nothing = refl;
  deletes_none = λ p w id h. h;
  processes = λ id dst w h bytes stays. (_, refl, refl, λ q. refl, λ i o. o);
}
