-- ===== src/Watch/Session.antt =====
-- What a run of watch events leaves in the client's globals.
use ua_rate_throttling.Common.{
  ℕ, ◌+◌, ◌≡◌, refl, true, false, List, [], ◌∷◌, ltb, if◌then◌else◌, arith, ◌∙◌, ap,
}
use ua_rate_throttling.Zoo.{ZooState, connected, auth_failed, expired_session, ZooEvent, session}
use ua_rate_throttling.Watch.{Client, Event, watcher}

-- The watcher runs once for each event.
unfoldable pub watch_all : List Event → Client → Client
watch_all [] c = c
watch_all (e ∷ es) c = watch_all es (watcher e c)

-- The session that an event connects to, or the one before.
abbrev connects : ZooEvent → ZooState → ℕ → ℕ → ℕ
connects session connected id old = id
connects _ state id old = old

-- Whether an event ends the client's work.
abbrev ends : ZooEvent → ZooState → ℕ
ends session auth_failed = 1
ends session expired_session = 1
ends _ state = 0

-- The id of the last session that the events connect to.
unfoldable pub last_session : List Event → ℕ → ℕ
last_session [] old = old
last_session (e ∷ es) old = last_session es (connects e.kind e.state e.session_id.client_id old)

-- How many events report a failed authentication or an expired session.
unfoldable pub endings : List Event → ℕ
endings [] = 0
endings (e ∷ es) = ends e.kind e.state + endings es

pub record Watched (es : List Event) (c c' : Client) : Type 0 where
  -- The last session is known.
  pub id_is_last : c'.my_id.client_id ≡ last_session es c.my_id.client_id
  -- The handle is closed once for each ending,
  pub closes_once : c'.closes ≡ c.closes + endings es
  -- after one it is null,
  pub handle_cleared : c'.handle ≡ (if ltb 0 (endings es) then false else c.handle)
  -- and after one, and only then, the client is told to stop.
  pub stops : c'.shutdown_this_thing ≡ (if ltb 0 (endings es) then true else c.shutdown_this_thing)

module _ (e : Event) (c : Client) where
  client_id-watcher :
      (watcher e c).my_id.client_id
      ≡ connects e.kind e.state e.session_id.client_id c.my_id.client_id
  unfolding watcher
  client_id-watcher = ground arith

  closes-watcher : (watcher e c).closes ≡ c.closes + ends e.kind e.state
  unfolding watcher
  closes-watcher = ground arith

  handle-watcher : (watcher e c).handle ≡ (if ltb 0 (ends e.kind e.state) then false else c.handle)
  unfolding watcher
  handle-watcher = ground arith

  shutdown-watcher :
      (watcher e c).shutdown_this_thing
      ≡ (if ltb 0 (ends e.kind e.state) then true else c.shutdown_this_thing)
  unfolding watcher
  shutdown-watcher = ground arith

-- After any events the client knows the last session that it was connected to, has closed its handle
-- once for each failed authentication and expired session, and has been told to stop exactly if there
-- was one, in which case its handle is null.
pub watch_all-Watched : (es : List Event) (c : Client) → Watched es c (watch_all es c)
unfolding watch_all last_session endings
watch_all-Watched [] c = record {
  id_is_last = refl;
  closes_once = omega arith;
  handle_cleared = refl;
  stops = refl;
}
watch_all-Watched (e ∷ es) c =
    let ih = watch_all-Watched es (watcher e c) in
    record {
      id_is_last = ih.id_is_last ∙ ap (last_session es) (client_id-watcher e c);
      closes_once = omega (arith, ih.closes_once, closes-watcher e c);
      handle_cleared = ground (arith, ih.handle_cleared, handle-watcher e c);
      stops = ground (arith, ih.stops, shutdown-watcher e c);
    }
