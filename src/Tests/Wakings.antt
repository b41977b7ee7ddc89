-- ===== src/Tests/Wakings.antt =====
-- The watch on a queue, at a concrete input: the queue is listed while it is empty, a client creates a
-- task, the server handles the event and lists the queue again.
use ua_rate_throttling.Common.{
  ℕ, ◌+◌, ◌<◌, ◌≡◌, ◌⊎◌, refl, ap, subst, Bool-cases, inl, inr, true, false, some, Bytes,
  if◌then◌else◌, [], ◌∷◌, codes, ℤ, pos, arith,
}
use ua_rate_throttling.Zoo.{child, connected}
use ua_rate_throttling.Watch.{Server, Event, queue_watcher, wait_healthy}
use ua_rate_throttling.Queue.Batch.{is_some}
use ua_rate_throttling.Queue.Documented.{same, same→eq, text}
use ua_rate_throttling.System.Libraries.{task_node}
use ua_rate_throttling.System.Pending.{names_of}
use ua_rate_throttling.System.Waking.{
  Waking, set_up, on_its_way, readable, Woken, at_start, then_wakes, others_create,
  event_is_handled, queue_is_listed,
}
use ua_rate_throttling.System.Noticed.{Woken-on_its_way}
use ua_rate_throttling.Tests.Sorting.{insertion_sort}
use ua_rate_throttling.Tests.Tasks.{Shop, host, shop}
use ua_rate_throttling.Tests.Delivery.{services}
use ua_rate_throttling.Tests.Systems.{queue, first}
use ua_rate_throttling.Tests.Interleavings.{first-Holding}

abbrev server : Server
server = record {
  my_id = record { client_id = 0; password = [] };
  handle = true;
  closes = 0;
  listings = 0;
}

abbrev event : Event
event = record {
  kind = child;
  state = connected;
  path = codes "/q";
  session_id = record { client_id = 1; password = [] };
}

abbrev listed_once : Server
listed_once = record server { listings = 1 }

abbrev healthy : ℕ → ℤ
healthy n = pos 255

queue_watcher_run : queue_watcher event 1 healthy server ≡ some listed_once
unfolding queue_watcher wait_healthy
queue_watcher_run = refl

-- The queue is a znode, too.
abbrev with_queue : Shop → Shop
with_queue w = record w { node = λ p. if same queue p then some [] else w.node p }

-- The client has created the task.
first-created :
    (p : Bytes)
    → (with_queue first).node p ≡ (
        if same (task_node queue 0) p
        then some (text (first.node (task_node queue 0)))
        else (with_queue shop).node p)
unfolding same ua_rate_throttling.Chunk.send_on ua_rate_throttling.Task.Name.task_name
    ua_rate_throttling.Chunk.document
first-created p = elim (Bool-cases (same queue p)) [
  | inl hit ↦
      subst
        (λ r. (with_queue first).node r ≡ (
          if same (task_node queue 0) r
          then some (text (first.node (task_node queue 0)))
          else (with_queue shop).node r))
        (same→eq queue p hit) refl
  | inr miss ↦ rw miss refl
]

-- The task is in a listing, and the watch is set again.
abbrev woken : Waking Shop
woken = record {
  world = with_queue first;
  watch = true;
  events = 0;
  asked = 0;
  listings = [] ∷ (0 ∷ []) ∷ [];
  batch = [];
  running = true;
  server = listed_once;
}

woken-Woken : Woken host services insertion_sort queue (set_up (with_queue shop) server) woken
unfolding same names_of
woken-Woken =
    then_wakes
      (then_wakes
        (then_wakes (then_wakes at_start (queue_is_listed 0 [] refl tt tt (λ name. refl))) (
          others_create 0 (text (first.node (task_node queue 0))) (with_queue first) (omega arith)
            refl first-created))
        (event_is_handled 0 event 1 healthy listed_once refl refl (λ e. cc e) queue_watcher_run))
      (queue_is_listed 0 (0 ∷ []) refl first-Holding.increasing first-Holding.counters
        (λ name. first-Holding.there name))

first-readable : readable host services queue (with_queue first) 0 ≡ true
unfolding same
first-readable = ap (is_some host services) first-Holding.held.0

Woken-on_its_way_example :
    (on_its_way 0 woken ≡ true) ⊎ ((0 < woken.events + woken.asked) ⊎ (woken.running ≡ false))
Woken-on_its_way_example =
    Woken-on_its_way host services insertion_sort queue (omega arith) (with_queue shop) server woken
      woken-Woken 0 (omega arith) first-readable
