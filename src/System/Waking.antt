-- ===== src/System/Waking.antt =====
-- How the server comes to know of the tasks in its queue: the watch on the queue, `zkUA_queueWatcher`
-- and `zuth_processTasks` of examples/zuthServer.c, between ZooKeeper and others who create and delete
-- tasks in the queue. It is about one session of the server with ZooKeeper.
use mathlib.Core.List.{Perm, map}
use ua_rate_throttling.Common.{
  ℕ, suc, ◌+◌, ◌-◌, ◌≢◌, ◌≡◌, Bool, true, false, not, ◌&&◌, ◌||◌, none, some, List, [], ◌∷◌, ◌++◌,
  Bytes, All, ℤ, if◌then◌else◌,
}
use ua_rate_throttling.Zoo.{child, ZooCode, is_zok}
use ua_rate_throttling.Task.{task_id_cmp}
use ua_rate_throttling.Task.Name.{task_name}
use ua_rate_throttling.Task.Order.{Qsort, IsCounter}
use ua_rate_throttling.Watch.{Server, Event, queue_watcher}
use ua_rate_throttling.Queue.{execute_request, path_to_task, process_tasks}
use ua_rate_throttling.Queue.Libraries.{Host}
use ua_rate_throttling.Queue.Documented.{Documented, same, listed}
use ua_rate_throttling.Queue.Batch.{IsReady, is_some, request_at}
use ua_rate_throttling.Queue.InOrder.{Increasing}
use ua_rate_throttling.System.Libraries.{mem, exists_node, child_node, task_node}

-- Whether a watch is set on the queue, the child events that the server has not handled, the
-- listings that it has asked for, those that were answered, each by the counters of the tasks in it,
-- the tasks that the callback has still to run, whether the server runs, and what the watcher keeps.
pub record Waking (World : Type 0) : Type 0 where
  pub world : World
  pub watch : Bool
  pub events : ℕ
  pub asked : ℕ
  pub listings : List (List ℕ)
  pub batch : List Bytes
  pub running : Bool
  pub server : Server

-- A change of the children: ZooKeeper sends one event for a watch, and takes the watch away.
abbrev pub notify : {World : Type 0} → Waking World → Waking World
notify s = record s { watch = false; events = if s.watch then s.events + 1 else s.events }

-- The setup of the server has asked for the first listing.
abbrev pub set_up : {World : Type 0} → World → Server → Waking World
set_up w server = record {
  world = w;
  watch = false;
  events = 0;
  asked = 1;
  listings = [];
  batch = [];
  running = true;
  server = server;
}

-- Whether one of the listings has the task.
abbrev pub any_mem : ℕ → List (List ℕ) → Bool
any_mem n [] = false
any_mem n (ns ∷ rest) = mem n ns || any_mem n rest

-- Whether a task is in the batch or in a listing for the callback.
abbrev pub on_its_way : {World : Type 0} → ℕ → Waking World → Bool
on_its_way n s = listed (task_name n) s.batch || any_mem n s.listings

-- Whether the znode of a task has a document with a message.
abbrev pub readable : (host : Host) → Documented host → Bytes → host.World → ℕ → Bool
readable host d queue w n = is_some host d (request_at host d (d.node w (task_node queue n)))

module _ (host : Host) (d : Documented host) (q : Qsort) (queue : Bytes) where
  -- Whether a task was deleted, by its path.
  abbrev pub was_deleted : host.World → Bytes → host.World → Bool
  was_deleted w p w' = exists_node (d.node w p) && not (exists_node (d.node w' p))

  pub data Wakes : Waking host.World → Waking host.World → Type 0 where
    -- Others create or delete a task. They do nothing else to the queue and what is in it.
    others_create :
        {s : Waking host.World} (n : ℕ) (data' : Bytes) (w' : host.World)
        → IsCounter n
        → d.node s.world (task_node queue n) ≡ none
        → ((p : Bytes)
            → d.node w' p ≡ (if same (task_node queue n) p then some data' else d.node s.world p))
        → Wakes s (notify (record s { world = w' }))
    others_delete :
        {s : Waking host.World} (n : ℕ) (w' : host.World)
        → IsCounter n
        → exists_node (d.node s.world (task_node queue n)) ≡ true
        → ((p : Bytes)
            → d.node w' p ≡ (if same (task_node queue n) p then none else d.node s.world p))
        → Wakes s (notify (record s { world = w' }))
    -- What others do elsewhere is no event of the queue.
    others_work :
        {s : Waking host.World} (w' : host.World)
        → d.node w' queue ≡ d.node s.world queue
        → ((name : Bytes)
            → d.node w' (child_node queue name) ≡ d.node s.world (child_node queue name))
        → Wakes s (record s { world = w' })
    -- The watcher handles an event: it asks for as many listings as it does.
    event_is_handled :
        {s : Waking host.World} (k : ℕ) (e : Event) (fuel : ℕ) (level : ℕ → ℤ) (server' : Server)
        → s.events ≡ suc k
        → e.kind ≡ child
        → e.path ≢ []
        → queue_watcher e fuel level s.server ≡ some server'
        → Wakes s (record s {
          events = k;
          asked = s.asked + (server'.listings - s.server.listings);
          server = server';
        })
    -- ZooKeeper answers with the tasks that are there, and sets a watch.
    queue_is_listed :
        {s : Waking host.World} (k : ℕ) (ns : List ℕ)
        → s.asked ≡ suc k
        → Increasing ns
        → All IsCounter ns
        → ((name : Bytes)
            → exists_node (d.node s.world (child_node queue name)) ≡ listed name (map task_name ns))
        → Wakes s (record s { asked = k; watch = true; listings = s.listings ++ ns ∷ [] })
    -- A listing fails: the callback is called with the error and without children.
    listing_fails :
        {s : Waking host.World} (k : ℕ) (rc : ZooCode) (running' : Bool) (w' : host.World)
        → s.asked ≡ suc k
        → is_zok rc ≡ false
        → process_tasks host q rc none queue s.running s.world ≡ some (running', w')
        → Wakes s (record s { asked = k; running = running'; world = w' })
    -- The callback is called with an answer, the tasks in any order, and sorts them.
    batch_begins :
        {s : Waking host.World} (ns : List ℕ) (rest : List (List ℕ)) (children sorted : List Bytes)
        → s.batch ≡ []
        → s.listings ≡ ns ∷ rest
        → Perm children (map task_name ns)
        → q.sort task_id_cmp children ≡ some sorted
        → Wakes s (record s { batch = sorted; listings = rest })
    -- It runs a task, while every znode can be read and the stack takes the message of each task.
    task_is_run :
        {s : Waking host.World} (name : Bytes) (names : List Bytes) (w' : host.World)
        → s.batch ≡ name ∷ names
        → IsReady host d s.world
        → execute_request host (path_to_task queue name) s.world ≡ some w'
        → Wakes s (
            if was_deleted s.world (path_to_task queue name) w'
            then notify (record s { world = w'; batch = names })
            else record s { world = w'; batch = names })

  pub data Woken : Waking host.World → Waking host.World → Type 0 where
    at_start : {s : Waking host.World} → Woken s s
    then_wakes : {s s' s'' : Waking host.World} → Woken s s' → Wakes s' s'' → Woken s s''
