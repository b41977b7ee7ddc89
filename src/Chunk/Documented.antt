-- ===== src/Chunk/Documented.antt =====
-- What is documented of the libraries under the client, as far as a task that it writes can be read.
use ua_rate_throttling.Common.{
  ℕ, ◌+◌, ◌*◌, ◌/◌, ◌^◌, ◌≤◌, ◌<◌, ◌≡◌, Option, none, some, List, [], ◌∷◌, Bytes, length, All,
  if◌then◌else◌,
}
use ua_rate_throttling.Queue.Libraries.{Host}
use ua_rate_throttling.Queue.Documented.{same, IsDistinct}
use ua_rate_throttling.Chunk.Libraries.{Stack, ConversationHeader, SecurityHeader, SequenceHeader}

abbrev pub IsByte : ℕ → Type 0
IsByte b = b < 256

-- A character of ASCII text.
abbrev pub IsText : ℕ → Type 0
IsText c = (0 < c) × (c < 128)

abbrev pub find {ℓ} : {A : Type ℓ} → Bytes → List (Bytes × A) → Option A
find key [] = none
find key ((k, v) ∷ members) = if same k key then some v else find key members

abbrev pub keys {ℓ} : {A : Type ℓ} → List (Bytes × A) → List Bytes
keys [] = []
keys ((k, v) ∷ members) = k ∷ keys members

pub record Documented (host : Host) (stack : Stack host) : Type 1 where
  -- A value that jansson can write and read back: an integer of 63 bits, an ASCII string, and an
  -- object of such.
  pub IsJson : host.Json → Type 0
  pub integer-IsJson : (n : ℕ) → n < 2 ^ 63 → IsJson (stack.json_integer n)
  pub string-IsJson : (s : Bytes) → All IsText s → IsJson (stack.json_string s)
  pub loads_dumps :
      (members : List (Bytes × host.Json))
      → All (λ m. All IsText m.0 × IsJson m.1) members
      → IsDistinct (keys members)
      → host.json_loads (stack.json_dumps (stack.json_object members))
        ≡ some (stack.json_object members)
  -- A document is at least as long as a string in it.
  pub length-dumps :
      (members : List (Bytes × host.Json)) (key s : Bytes)
      → find key members ≡ some (stack.json_string s)
      → length s ≤ length (stack.json_dumps (stack.json_object members))
  pub gets :
      (members : List (Bytes × host.Json)) (key : Bytes)
      → All (λ m. All IsText m.0 × IsJson m.1) members
      → IsDistinct (keys members)
      → host.json_object_get (stack.json_object members) key ≡ find key members
  pub integer_value :
      (n : ℕ) → n < 2 ^ 63 → host.json_integer_value (some (stack.json_integer n)) ≡ n
  pub string_value :
      (s : Bytes) → All IsText s → host.json_string_value (stack.json_string s) ≡ some s
  -- Base64 writes four characters for each three bytes that it begins.
  pub base64_text : (d : Bytes) → All IsByte d → All IsText (stack.base64_encode d)
  pub base64_lem : (d : Bytes) → All IsByte d → host.base64_decode (stack.base64_encode d) ≡ d
  pub length-base64 : (d : Bytes) → length (stack.base64_encode d) ≡ 4 * ((length d + 2) / 3)
  -- The headers are little-endian words of 32 bits.
  pub conversation_size : (h : ConversationHeader) → length (stack.conversation_header h) ≡ 12
  pub conversation_bytes : (h : ConversationHeader) → All IsByte (stack.conversation_header h)
  pub security_size : (h : SecurityHeader) → length (stack.security_header h) ≡ 4
  pub security_bytes : (h : SecurityHeader) → All IsByte (stack.security_header h)
  pub sequence_size : (h : SequenceHeader) → length (stack.sequence_header h) ≡ 8
  pub sequence_bytes : (h : SequenceHeader) → All IsByte (stack.sequence_header h)
  pub abort_bytes : (code : ℕ) → All IsByte (stack.abort_body code)
