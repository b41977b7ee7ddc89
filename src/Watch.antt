-- ===== src/Watch.antt =====
-- The watchers: `zkUA_watcher` of src/zk_cli.c, the client's, and `zkUA_queueWatcher` of
-- examples/zuthServer.c, the server's. What they print is not modelled.
pub mod Session
pub mod Throttle
use ua_rate_throttling.Common.{
  ℕ, zero, suc, ◌+◌, Bool, true, false, ◌&&◌, ◌||◌, not, Option, none, some, List, [], ◌∷◌, ◌++◌,
  Bytes, ltb, ◌==◌, ℤ, pos, negsuc, if◌then◌else◌,
}
use ua_rate_throttling.Zoo.{
  ZooState, connected, auth_failed, expired_session, ZooEvent, child, session,
}

-- `clientid_t`
pub record ClientId : Type 0 where
  pub client_id : ℕ
  pub password : Bytes

-- The statics that the client's watcher writes: `myid`, `shutdownThisThing`, whether `zh` is set, the
-- calls of `zookeeper_close`, and what is written to `clientIdFile`, where there is such a file.
pub record Client : Type 0 where
  pub my_id : ClientId
  pub shutdown_this_thing : Bool
  pub handle : Bool
  pub closes : ℕ
  pub client_id_file : Bool
  pub written : List ClientId

-- A session event: what `zoo_client_id` returns is an argument.
pub record Event : Type 0 where
  pub kind : ZooEvent
  pub state : ZooState
  pub path : Bytes
  pub session_id : ClientId

-- The test before a new session id is kept.
abbrev pub is_new_session : ClientId → ClientId → Bool
is_new_session old new = old.client_id == 0 || not (old.client_id == new.client_id)

-- Authentication failed or the session expired.
give_up : Client → Client
give_up c = record c { closes = c.closes + 1; shutdown_this_thing = true; handle = false }

client_session : ZooState → ClientId → Client → Client
unfolding give_up
client_session connected id c =
    if is_new_session c.my_id id
    then record c {
      my_id = id;
      written = if c.client_id_file then c.written ++ id ∷ [] else c.written;
    }
    else c
client_session auth_failed id c = give_up c
client_session expired_session id c = give_up c
client_session _ id c = c

client_event : ZooEvent → ZooState → ClientId → Client → Client
client_event session state id c = client_session state id c
client_event _ state id c = c

-- `zkUA_watcher`
unfoldable pub watcher : Event → Client → Client
unfolding client_event client_session
watcher e c = client_event e.kind e.state e.session_id c

-- The globals that the server's watcher writes, and the listings of the queue that it asks for, each
-- with a new watch.
pub record Server : Type 0 where
  pub my_id : ClientId
  pub handle : Bool
  pub closes : ℕ
  pub listings : ℕ

-- A service level, read as an `int`, below the bound from which a server counts as healthy.
abbrev pub is_unhealthy : ℤ → Bool
is_unhealthy (pos value) = ltb value 200
is_unhealthy (negsuc value) = true

-- The loop `while (value < 200)`: the number of reads until a service level of at least 200 comes, if
-- one does within the fuel. `level` gives the readings in their order.
unfoldable pub wait_healthy : ℕ → (ℕ → ℤ) → ℕ → Option ℕ
wait_healthy zero level n = none
wait_healthy (suc fuel) level n =
    let again = wait_healthy fuel level (n + 1) in
    if is_unhealthy (level n) then again else some (n + 1)

is_empty : Bytes → Bool
is_empty [] = true
is_empty (c ∷ s) = false

-- The part for a child event under a path. `none` means that the fuel ran out in the loop.
queue_changed : ZooEvent → Bytes → ℕ → (ℕ → ℤ) → Server → Option Server
unfolding is_empty
queue_changed child path fuel level s =
    if is_empty path then some s else elim (wait_healthy fuel level 0) [
      | none ↦ none
      | some reads ↦ some (record s { listings = s.listings + 1 })
    ]
queue_changed _ path fuel level s = some s

close_server : Server → Server
close_server s = record s { closes = s.closes + 1; handle = false }

server_session : ZooState → ClientId → Server → Server
unfolding close_server
server_session connected id s = if is_new_session s.my_id id then record s { my_id = id } else s
server_session auth_failed id s = close_server s
server_session expired_session id s = close_server s
server_session _ id s = s

server_event : ZooEvent → ZooState → ClientId → Server → Server
server_event session state id s = server_session state id s
server_event _ state id s = s

-- `zkUA_queueWatcher`
unfoldable pub queue_watcher : Event → ℕ → (ℕ → ℤ) → Server → Option Server
unfolding queue_changed server_event server_session
queue_watcher e fuel level s = elim (queue_changed e.kind e.path fuel level s) [
  | none ↦ none
  | some s' ↦ some (server_event e.kind e.state e.session_id s')
]
