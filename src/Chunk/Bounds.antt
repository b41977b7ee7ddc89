-- ===== src/Chunk/Bounds.antt =====
-- How long the task of a chunk is.
use ua_rate_throttling.Common.{ℕ, ◌≤◌, refl, Bytes, codes, length, arith}
use ua_rate_throttling.Znode.{buffer_size}
use ua_rate_throttling.Queue.Libraries.{Host}
use ua_rate_throttling.Queue.Documented.{same}
use ua_rate_throttling.Chunk.{document, members}
use ua_rate_throttling.Chunk.Libraries.{Stack}
use ua_rate_throttling.Chunk.Documented.{Documented}

-- The task of a chunk of 49150 bytes or more, which a send buffer of 65535 bytes may hold, does not
-- fit with its terminator the buffer of 65535 bytes that a server reads a task into.
pub document-exceeds_buffer :
    (host : Host) (stack : Stack host) (d : Documented host stack) (channel_id request_id : ℕ)
    (dst : Bytes)
    → 49150 ≤ length dst
    → buffer_size ≤ length (document host stack channel_id request_id dst (length dst))
unfolding document same
document-exceeds_buffer host stack d channel_id request_id dst long = omega (
  arith,
  d.length-base64 dst,
  d.length-dumps (members host stack channel_id request_id dst (length dst)) (codes "dst")
      (stack.base64_encode dst) refl,
  long,
)
