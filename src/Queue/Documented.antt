-- ===== src/Queue/Documented.antt =====
-- What is documented of the libraries under the queue, as far as working it off relies on it.
use ua_rate_throttling.Common.{
  ◌||◌, ℕ, ◌≡◌, refl, Bool, true, false, ◌&&◌, Option, none, some, List, [], ◌∷◌, ◌++◌, Bytes, ◌==◌,
  if◌then◌else◌, arith, length, ◌<◌,
}
use ua_rate_throttling.Znode.{buffer_size}
use ua_rate_throttling.Queue.Libraries.{Host, ByteString}

-- Equality of texts.
unfoldable pub same : Bytes → Bytes → Bool
same [] [] = true
same [] (b ∷ t) = false
same (a ∷ s) [] = false
same (a ∷ s) (b ∷ t) = a == b && same s t

pub same→eq : (s t : Bytes) → same s t ≡ true → s ≡ t
unfolding same
same→eq [] [] h = refl
same→eq [] (b ∷ t) h = cc
same→eq (a ∷ s) [] h = cc
same→eq (a ∷ s) (b ∷ t) h = ground (arith, same→eq s t)

pub same_refl : (s : Bytes) → same s s ≡ true
unfolding same
same_refl [] = refl
same_refl (a ∷ s) = ground (arith, same_refl s)

pub same_comm : (s t : Bytes) → same s t ≡ same t s
unfolding same
same_comm [] [] = refl
same_comm [] (b ∷ t) = refl
same_comm (a ∷ s) [] = refl
same_comm (a ∷ s) (b ∷ t) = ground (arith, same_comm s t)

-- Whether a path is one of the batch.
abbrev pub listed : Bytes → List Bytes → Bool
listed q [] = false
listed q (p ∷ ps) = same p q || listed q ps

-- No path stands twice in the batch.
abbrev pub IsDistinct : List Bytes → Type 0
IsDistinct [] = Unit
IsDistinct (p ∷ ps) = (listed p ps ≡ false) × IsDistinct ps

-- What a zeroed buffer holds after the read of a znode, or of none.
abbrev pub text : Option Bytes → Bytes
text none = []
text (some d) = d

pub record Documented (host : Host) : Type 1 where
  -- The string in a znode, and the messages that the stack has been given and has processed, each
  -- with its channel.
  pub node : host.World → Bytes → Option Bytes
  pub served : host.World → List (ℕ × ByteString)
  -- The channels that are open, and the messages at which the stack closes their channel.
  pub IsOpen : host.World → ℕ → Type 0
  pub closes : ByteString → Bool
  -- The messages that consist of complete chunks.
  pub IsWhole : ByteString → Type 0
  -- A string with its terminator fits the buffer.
  pub gets :
      (p : Bytes) (w : host.World)
      → length (text (node w p)) < buffer_size
      → host.zoo_get p w ≡ text (node w p)
  pub deletes :
      (p q : Bytes) (w : host.World)
      → node (host.zoo_delete p w) q ≡ (if same p q then none else node w q)
  pub deletes_only : (p : Bytes) (w : host.World) → served (host.zoo_delete p w) ≡ served w
  -- No document is empty.
  pub loads_nothing : host.json_loads [] ≡ none
  -- Deleting a znode closes no channel.
  pub deletes_none :
      (p : Bytes) (w : host.World) (id : ℕ) → IsOpen w id → IsOpen (host.zoo_delete p w) id
  -- The stack processes a message of complete chunks on an open channel, to its service or to an
  -- error. It does not touch ZooKeeper, and if the message does not close its channel, every open
  -- channel stays open.
  pub processes :
      (id : ℕ) (dst : ByteString) (w : host.World)
      → IsOpen w id
      → IsWhole dst
      → closes dst ≡ false
      → (w' : host.World) × (host.process_chunks (host.secure_channel id w) dst w ≡ some w')
        × (served w' ≡ served w ++ (id, dst) ∷ [])
        × ((q : Bytes) → node w' q ≡ node w q)
        × ((id' : ℕ) → IsOpen w id' → IsOpen w' id')
