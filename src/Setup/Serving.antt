-- ===== src/Setup/Serving.antt =====
-- The whole setup of a server.
use ua_rate_throttling.Common.{
  ◌≡◌, ◌≢◌, ◌<◌, ◌≤◌, ◌∙◌, ap, sym, subst, true, false, ◌&&◌, some, [], ◌∷◌, ◌++◌, Bytes, codes,
  length, All, not, append_assoc, snprintf, snprintf_fits, arith,
}
use ua_rate_throttling.Guid.{print_guid}
use ua_rate_throttling.Config.{Config}
use ua_rate_throttling.Url.{encode}
use ua_rate_throttling.Url.RoundTrip.{IsChar}
use ua_rate_throttling.Url.Buffer.{length-encode}
use ua_rate_throttling.Znode.{
  Globals, server_uri, server_task_path, server_active_path, set_server_queue_path, buffer_size,
  path_size,
}
use ua_rate_throttling.Znode.Exact.{set_group, group_paths, length-print_guid}
use ua_rate_throttling.Znode.Agreement.{
  IsUrl, server_uri-IsUrl, server_uri-eq, server_task_path-eq, set_server_queue_path-eq,
}
use ua_rate_throttling.Setup.{
  Startup, find_or_create, push_server, init_zuth_server, initialize_zk_server_queue_path,
}
use ua_rate_throttling.Setup.Libraries.{ZooClient}
use ua_rate_throttling.Setup.Documented.{Documented, is_node, settled}
use ua_rate_throttling.Setup.Created.{
  servers, group_of, active_of, queue_of, IsGroup, Group, find_or_create-Group, Kept, Kept-trans,
}
use ua_rate_throttling.Setup.Served.{
  task_of, live_of, Pushed, push_server-Pushed, print_guid-IsName, encode-IsName, length-below,
}

-- The paths of a server, from its configuration.
abbrev pub uri_of : Config → Bytes
uri_of configs = server_uri configs.hostname configs.ua_port

abbrev pub task_path_of : Config → Bytes
task_path_of configs = task_of (print_guid configs.guid) (encode (uri_of configs))

abbrev pub live_path_of : Config → Bytes
live_path_of configs = live_of (print_guid configs.guid) (encode (uri_of configs))

module _ (z : ZooClient) (d : Documented z) where
  -- No permanent znode of the server's stands as an ephemeral one in the tree, and where the queue of
  -- the group is there, an earlier start got as far as the list of running servers.
  pub record IsClean (configs : Config) (t : z.Tree) : Type 0 where
    pub servers_free : d.kind t servers ≢ some true
    pub group_free : d.kind t (group_of (print_guid configs.guid)) ≢ some true
    pub active_free : d.kind t (active_of (print_guid configs.guid)) ≢ some true
    pub queue_free : d.kind t (queue_of (print_guid configs.guid)) ≢ some true
    pub task_free : d.kind t (task_path_of configs) ≢ some true
    pub begun :
        is_node (d.kind t (queue_of (print_guid configs.guid))) ≡ true
        → is_node (d.kind t (active_of (print_guid configs.guid))) ≡ true

  pub record Serving (configs : Config) (s : Startup) (t : z.Tree) (r : Startup × z.Tree)
      : Type 0 where
    -- The queue that is watched is there and stays, and its tasks are asked for.
    pub queue_path : r.0.server_queue_path ≡ task_path_of configs
    pub queue_made : d.kind r.1 (task_path_of configs) ≡ some false
    pub lists : r.0.listed ≡ s.listed ++ task_path_of configs ∷ []
    -- The server is told to stop if another one with its URL runs, and is shown to run.
    pub runs : r.0.running ≡ (s.running && not (is_node (d.kind t (live_path_of configs))))
    pub live_made :
        d.kind r.1 (live_path_of configs) ≡ settled (d.kind t (live_path_of configs)) true
    pub keeps : Kept z d t r.1

-- The globals after `zkUA_initializeZkServerQueuePath`.
globals_of : Config → Globals → Globals
globals_of configs g = set_group (snprintf buffer_size (print_guid configs.guid)) g

globals_of-IsGroup :
    (configs : Config) (g : Globals) → IsGroup (print_guid configs.guid) (globals_of configs g)
unfolding globals_of
globals_of-IsGroup configs g =
    let e : snprintf buffer_size (print_guid configs.guid) ≡ print_guid configs.guid =
      snprintf_fits buffer_size (print_guid configs.guid)
        (omega (arith, length-print_guid configs.guid)) in
    let p = group_paths configs.guid g in
    rw e (record {
      group_path = p.0;
      active_path =
          p.2
          ∙ sym (append_assoc (group_of (print_guid configs.guid)) (codes "/") (codes "Active"));
      queue_path =
          p.1 ∙ sym (append_assoc (group_of (print_guid configs.guid)) (codes "/") (codes "Queue"));
    })

server_active_path-eq :
    (text : Bytes) (g : Globals) (uri : Bytes)
    → length text ≤ 1000
    → IsGroup text g
    → IsUrl uri
    → server_active_path uri g ≡ live_of text (encode uri)
unfolding server_active_path
server_active_path-eq text g uri short at url =
    ap (λ p. snprintf buffer_size ((p ++ codes "/") ++ encode uri)) at.active_path
    ∙ snprintf_fits buffer_size (live_of text (encode uri)) (
        omega (
          arith,
          length-below (active_of text) (encode uri),
          length-below (group_of text) (codes "Active"),
          length-below servers text,
          length-encode uri,
          url.short,
        ))

module _ (z : ZooClient) (d : Documented z) (configs : Config) (chars : All IsChar configs.hostname)
    (short : length configs.hostname ≤ 10000) where
  abbrev text : Bytes
  text = print_guid configs.guid

  url : IsUrl (uri_of configs)
  url = server_uri-IsUrl configs.hostname chars short configs.ua_port

  uri-filled : 0 < length (uri_of configs)
  uri-filled = omega (arith, ap length (server_uri-eq configs.hostname chars short configs.ua_port))

  module _ (g : Globals) (at : IsGroup text g) where
    queue_small : length g.server_queue_path < path_size
    queue_small = omega (
      arith,
      ap length at.queue_path,
      length-below (group_of text) (codes "Queue"),
      length-below servers text,
      length-print_guid configs.guid,
    )

    task_path-eq : server_task_path (uri_of configs) g ≡ task_path_of configs
    task_path-eq =
        server_task_path-eq g queue_small (uri_of configs) url
        ∙ ap (λ p. (p ++ codes "/") ++ encode (uri_of configs)) at.queue_path

    live_path-eq : server_active_path (uri_of configs) g ≡ live_path_of configs
    live_path-eq =
        server_active_path-eq text g (uri_of configs)
          (omega (arith, length-print_guid configs.guid)) at url

    watched-eq : set_server_queue_path (uri_of configs) g ≡ task_path_of configs
    watched-eq = set_server_queue_path-eq g queue_small (uri_of configs) url ∙ task_path-eq

  live-longest :
      (t t' : z.Tree)
      → Group z d servers (group_of text) (active_of text) (queue_of text) t t'
      → d.kind t' (live_path_of configs) ≡ d.kind t (live_path_of configs)
  live-longest t t' group =
      let a = length-below (active_of text) (encode (uri_of configs)) in
      let b = length-below (group_of text) (codes "Active") in
      let c = length-below servers text in
      let e = length-below (group_of text) (codes "Queue") in
      group.longer (live_path_of configs) (omega (arith, a, b, c)) (omega (arith, a, b, c))
        (omega (arith, a, b, c)) (omega (arith, a, b, c, e))

-- For a host name of at most 10000 bytes, in a tree where no ephemeral znode stands at a permanent
-- path of the server, and which has the group's list of running servers where it has its queue: the
-- setup creates what is missing of the group, makes the server's queue and asks for its tasks, and
-- changes no znode that was there. A server that is running goes on exactly if no server with its URL
-- was shown to run, and is then shown to.
pub init_zuth_server-Serving :
    (z : ZooClient) (d : Documented z) (configs : Config)
    → All IsChar configs.hostname
    → length configs.hostname ≤ 10000
    → (s : Startup) (t : z.Tree) → IsClean z d configs t
    → Serving z d configs s t (init_zuth_server z configs s t)
unfolding init_zuth_server initialize_zk_server_queue_path globals_of
init_zuth_server-Serving z d configs chars short s t clean =
    let g = globals_of configs s.globals in
    let at = globals_of-IsGroup configs s.globals in
    let uri = uri_of configs in
    let group =
      find_or_create-Group z d (print_guid configs.guid) (print_guid-IsName configs.guid) g at t
        clean.servers_free clean.group_free clean.active_free clean.queue_free clean.begun in
    let t1 = find_or_create z true g t in
    let named =
      encode-IsName uri (url z d configs chars short).chars (uri-filled z d configs chars short) in
    let pushed =
      subst (Pushed z d (print_guid configs.guid) (encode uri) named t1)
        (λ i.
          push_server z (sym (task_path-eq z d configs chars short g at) i)
            (sym (live_path-eq z d configs chars short g at) i) t1)
        (push_server-Pushed z d (print_guid configs.guid) (encode uri) named t1
          group.queue_permanent group.active_permanent
          (group.frees (task_path_of configs) clean.task_free)) in
    let watched = watched-eq z d configs chars short g at in
    let live = live-longest z d configs chars short t t1 group in
    record {
      queue_path = watched;
      queue_made = pushed.task_made;
      lists = ap (λ p. s.listed ++ p ∷ []) watched;
      runs = ap (λ b. s.running && b) (pushed.ready ∙ ap (λ k. not (is_node k)) live);
      live_made = pushed.live_made ∙ ap (λ k. settled k true) live;
      keeps = Kept-trans z d t t1 _ group.keeps pushed.keeps;
    }
