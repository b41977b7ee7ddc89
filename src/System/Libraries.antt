-- ===== src/System/Libraries.antt =====
-- What is documented of ZooKeeper, as far as the queue of a server is shared by its clients.
use mathlib.Core.List.{Perm, map}
use ua_rate_throttling.Common.{
  ℕ, ◌+◌, ◌<◌, ◌^◌, ◌≡◌, Bool, true, false, ◌||◌, Option, none, some, List, [], ◌∷◌, ◌++◌, Bytes,
  codes, All, ◌==◌, if◌then◌else◌,
}
use ua_rate_throttling.Task.Name.{task_name}
use ua_rate_throttling.Task.Order.{IsCounter}
use ua_rate_throttling.Queue.Libraries.{Host, ByteString}
use ua_rate_throttling.Queue.Documented.{Documented, same, listed}
use ua_rate_throttling.Queue.InOrder.{Increasing}
use ua_rate_throttling.Chunk.Libraries.{Stack}

abbrev pub mem : ℕ → List ℕ → Bool
mem n [] = false
mem n (m ∷ ms) = m == n || mem n ms

abbrev pub exists_node : Option Bytes → Bool
exists_node none = false
exists_node (some data') = true

abbrev pub child_node : Bytes → Bytes → Bytes
child_node queue name = (queue ++ codes "/") ++ name

-- The path under which clients create their tasks, and that of the task with a counter.
abbrev pub task_prefix : Bytes → Bytes
task_prefix queue = queue ++ codes "/task-"

abbrev pub task_node : Bytes → ℕ → Bytes
task_node queue n = child_node queue (task_name n)

-- The counter is a signed number of 32 bits, which does not overflow yet.
abbrev pub CountsUp : ℕ → Type 0
CountsUp n = n + 1 < 2 ^ 31

module _ (host : Host) (stack : Stack host) (d : Documented host) (queue : Bytes) where
  pub record Sequential : Type 0 where
    -- The counter of the znode of the queue, and its children.
    pub counter : host.World → ℕ
    pub children : host.World → List Bytes
    -- A create with ZOO_SEQUENCE under the prefix makes the znode with the counter, which goes up.
    pub creates :
        (data' : Bytes) (w : host.World) (p : Bytes)
        → IsCounter (counter w)
        → d.node (stack.zoo_create (task_prefix queue) data' w).1 p
          ≡ (if same (task_node queue (counter w)) p then some data' else d.node w p)
    pub counts :
        (data' : Bytes) (w : host.World)
        → CountsUp (counter w)
        → counter (stack.zoo_create (task_prefix queue) data' w).1 ≡ counter w + 1
    pub creates_only :
        (data' : Bytes) (w : host.World)
        → d.served (stack.zoo_create (task_prefix queue) data' w).1 ≡ d.served w
    pub creates_open :
        (data' : Bytes) (w : host.World) (id : ℕ)
        → d.IsOpen w id
        → d.IsOpen (stack.zoo_create (task_prefix queue) data' w).1 id
    -- The counter is moved neither by deleting a znode nor by the service of a message.
    pub counter-delete : (p : Bytes) (w : host.World) → counter (host.zoo_delete p w) ≡ counter w
    pub counter-process :
        (id : ℕ) (dst : ByteString) (w w' : host.World)
        → host.process_chunks (host.secure_channel id w) dst w ≡ some w'
        → counter w' ≡ counter w
    -- Where the znodes below the queue are tasks and no others, its children are these tasks, once
    -- each, in any order.
    pub lists :
        (w : host.World) (ns : List ℕ)
        → Increasing ns
        → All IsCounter ns
        → ((name : Bytes)
            → exists_node (d.node w (child_node queue name)) ≡ listed name (map task_name ns))
        → Perm (children w) (map task_name ns)
