-- ===== src/Client/Balanced.antt =====
-- The memory of `init_UA_client` of examples/zuthClient.c.
use ua_rate_throttling.Common.{
  ℕ, ◌≡◌, ◌∷◌, Option-cases, inl, inr, refl, Bool-cases, Option, none, some, List, ◌++◌, snprintf,
  ◌==◌, if◌then◌else◌, ◌>>=◌,
}
use ua_rate_throttling.Guid.{print_guid}
use ua_rate_throttling.Config.{Config}
use ua_rate_throttling.Znode.{
  Globals, set_group_guid_path, set_queue_path, encode_server_queue_path, server_uri, buffer_size,
}
use ua_rate_throttling.Queue.Libraries.{Host}
use ua_rate_throttling.Chunk.{good}
use ua_rate_throttling.Chunk.Libraries.{Stack}
use ua_rate_throttling.Service.Libraries.{UaClient, Network}
use ua_rate_throttling.Client.{
  Run, run_threads, submit_tasks, no_connection, no_endpoints, init_ua_client,
}
use ua_rate_throttling.Client.Libraries.{Platform}
use ua_rate_throttling.Memory.{
  Resource, server_dst, client, configs, free, free_all, free_configs, code_of,
}

module _ (host : Host) (stack : Stack host) (network : Network host stack)
    (platform : Platform host stack network) where
  open platform use {new_client, get_endpoints, connect_username, disconnect}

  -- What the function does apart from its memory: the calls of a client that is connected.
  unfoldable pub submit :
      ℕ → Config → UaClient network.NodeId → Globals → host.World → Option (Globals × host.World)
  submit fuel c ua globals w =
      let globals' =
        set_queue_path (set_group_guid_path (snprintf buffer_size (print_guid c.guid)) globals) in
      do
        (ua', w') ←
            run_threads host stack network platform fuel
              (encode_server_queue_path ua.endpoint_url globals') ua w
        some (globals', disconnect ua' w')

  -- All calls.
  unfoldable pub calls : ℕ → Config → Globals → host.World → Option (Globals × host.World)
  unfolding submit
  calls fuel c globals w =
      let (ua, w') = new_client w in
      let (rc, (ua1, w1)) = get_endpoints ua (server_uri c.hostname c.ua_port) w' in
      let (rc', (ua2, w2)) =
        connect_username ua1 (server_uri c.hostname c.ua_port) c.username c.password w1 in
      let submitted = submit fuel c ua2 globals w2 in
      if rc == good
      then (if rc' == good then submitted else some (globals, w2))
      else some (globals, w1)

  abbrev pub leave : List Resource → Option (Globals × host.World) → Option (Run host.World)
  leave held none = none
  leave held (some (globals, w)) = some (record { globals = globals; held = held; world = w })

  -- The string and the client that are left when the list of endpoints is freed.
  submit-Balanced :
      (fuel : ℕ) (c : Config) (ua : UaClient network.NodeId) (globals : Globals)
      (other : List Resource) (w : host.World)
      → submit_tasks host stack network platform fuel c ua
          (record { globals = globals; held = server_dst ∷ client ∷ configs ++ other; world = w })
        ≡ leave other (submit fuel c ua globals w)
  unfolding submit_tasks submit free free_all free_configs code_of
  submit-Balanced fuel c ua globals other w =
      let globals' =
        set_queue_path (set_group_guid_path (snprintf buffer_size (print_guid c.guid)) globals) in
      elim (Option-cases (
        run_threads host stack network platform fuel
          (encode_server_queue_path ua.endpoint_url globals') ua w)) [
            | inl fault ↦ rw fault refl
            | inr (x, read) ↦ rw read refl
          ]

  -- On each of its three ways out, when the list of endpoints cannot be had, when the connection
  -- fails, and behind the tasks, the function has freed the configuration and all that it allocated,
  -- once each, and nothing else; apart from that it makes the calls of the reference.
  pub init_ua_client-Balanced :
      (fuel : ℕ) (c : Config) (globals : Globals) (other : List Resource) (w : host.World)
      → init_ua_client host stack network platform fuel c
          (record { globals = globals; held = configs ++ other; world = w })
        ≡ leave other (calls fuel c globals w)
  unfolding init_ua_client calls no_connection no_endpoints free free_all free_configs code_of
  init_ua_client-Balanced fuel c globals other w =
      let (ua, w') = new_client w in
      let (rc, (ua1, w1)) = get_endpoints ua (server_uri c.hostname c.ua_port) w' in
      let (rc', (ua2, w2)) =
        connect_username ua1 (server_uri c.hostname c.ua_port) c.username c.password w1 in
      elim (Bool-cases (rc == good)) [
        | inr none_listed ↦ rw none_listed refl
        | inl listed ↦ elim (Bool-cases (rc' == good)) [
          | inr failed ↦ rw (listed, failed) refl
          | inl connected ↦ rw (listed, connected) (submit-Balanced fuel c ua2 globals other w2)
        ]
      ]
