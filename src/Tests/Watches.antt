-- ===== src/Tests/Watches.antt =====
-- The theorems on watchers and completions at concrete inputs.
use mathlib.Core.List.{cons-ne-nil}
use ua_rate_throttling.Common.{
  ℕ, ◌+◌, ◌<◌, ◌≡◌, ◌≢◌, refl, true, false, none, some, List, [], ◌∷◌, codes, arith, ℤ, pos, ◌*◌,
}
use ua_rate_throttling.Zoo.{zok, znonode, ZooCode, child, session, connected, expired_session}
use ua_rate_throttling.Watch.{Client, Server, Event, is_unhealthy, queue_watcher}
use ua_rate_throttling.Watch.Session.{watch_all, Watched, watch_all-Watched}
use ua_rate_throttling.Watch.Throttle.{queue_watcher_lists, queue_watcher_waits}
use ua_rate_throttling.Completion.{Counters, Completion, silent_data, silent_stat}
use ua_rate_throttling.Completion.Counts.{
  complete_all, Counted, complete_all-Counted, HasRoom, tally, is_data, is_stat,
}

abbrev client : Client
client = record {
  my_id = record { client_id = 0; password = [] };
  shutdown_this_thing = false;
  handle = true;
  closes = 0;
  client_id_file = false;
  written = [];
}

-- A session that is connected to and then expires.
abbrev events : List Event
events =
    record {
      kind = session;
      state = connected;
      path = [];
      session_id = record { client_id = 5; password = codes "p" };
    }
    ∷ record {
      kind = session;
      state = expired_session;
      path = [];
      session_id = record { client_id = 5; password = codes "p" };
    }
    ∷ []

watch_all-Watched_example : Watched events client (watch_all events client)
watch_all-Watched_example = watch_all-Watched events client

abbrev server : Server
server = record {
  my_id = record { client_id = 5; password = codes "p" };
  handle = true;
  closes = 0;
  listings = 0;
}

-- The queue has a new task.
abbrev new_task : Event
new_task = record {
  kind = child;
  state = connected;
  path = codes "/Servers/a/Queue/b";
  session_id = record { client_id = 5; password = codes "p" };
}

-- A server that is healthy from its third reading on, and one that never is.
abbrev recovering : ℕ → ℤ
recovering n = pos (n * 100)

abbrev failing : ℕ → ℤ
failing n = pos 199

has_path : new_task.path ≢ []
has_path e = cons-ne-nil _ _ e

unhealthy_before : (j : ℕ) → j < 2 → is_unhealthy (recovering j) ≡ true
unhealthy_before j h = ground arith

queue_watcher_lists_example :
    queue_watcher new_task 9 recovering server ≡ some (record server { listings = 0 + 1 })
queue_watcher_lists_example =
    queue_watcher_lists new_task 9 recovering server refl has_path 2 unhealthy_before refl
      (omega arith)

never_healthy : (j : ℕ) → j < 9 → is_unhealthy (failing j) ≡ true
never_healthy j h = refl

queue_watcher_waits_example : queue_watcher new_task 9 failing server ≡ none
queue_watcher_waits_example =
    queue_watcher_waits new_task 9 failing server refl has_path never_healthy

abbrev idle : Counters
idle = record { to_send = 2; sent = 0; recvd = 0; batch_mode = true; shutdown_this_thing = false }

-- Two requests are answered.
abbrev completions : List (Completion × ZooCode)
completions = (silent_stat, zok) ∷ (silent_data, zok) ∷ (silent_data, znonode) ∷ []

completions-HasRoom :
    HasRoom idle.recvd (tally is_data completions) × HasRoom idle.sent (tally is_stat completions)
unfolding tally
completions-HasRoom = ((omega arith, λ h. omega arith), (omega arith, λ h. omega arith))

complete_all-Counted_example :
    (c : Counters) × (complete_all completions idle ≡ some c) × Counted completions idle c
complete_all-Counted_example =
    complete_all-Counted completions idle completions-HasRoom.0 completions-HasRoom.1
