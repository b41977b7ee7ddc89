-- ===== src/Service/Ends.antt =====
-- That a service call ends, when and with what: `__ZUTH_Client_Service` of src/open62541.c.
use ua_rate_throttling.Common.{ℕ, ◌+◌, ◌*◌, ◌≡◌, ◌≢◌, ◌⊎◌, some, Bytes}
use ua_rate_throttling.Queue.Libraries.{Host}
use ua_rate_throttling.Chunk.{good, Channel}
use ua_rate_throttling.Chunk.Libraries.{Stack}
use ua_rate_throttling.Message.{send_binary_message}
use ua_rate_throttling.Service.{
  Receiving, msec_to_date_time, send_error, count_request, adjust_header,
}
use ua_rate_throttling.Service.Libraries.{UaClient, Network, RequestHeader}
use ua_rate_throttling.Service.Rounds.{IsOver}

module _ (host : Host) (stack : Stack host) (network : Network host stack) (late work : ℕ) where
  open network use {NodeId, Body, null_node_id, now_monotonic}

  -- Behind the sending of a request with a status, at a time.
  abbrev pub IsEnded : ℕ → ℕ → ℕ → ℕ → Receiving host stack network → Type 0
  IsEnded start timeout request_id retval after =
      ((retval ≡ good)
        × IsOver host stack network late work (start + timeout * msec_to_date_time) request_id
            after)
      ⊎ ((retval ≢ good)
          × (after.0.0.service_result ≡ send_error host stack network retval)
          × (now_monotonic after.1 ≡ start))

  -- How a call ended: at once with the status of the renewal of the channel, which is not good;
  -- or behind the sending of the request with some status, with no token in the header.
  abbrev pub IsDone :
      Bytes
      → RequestHeader NodeId
      → network.Request
      → UaClient NodeId
      → host.World
      → RequestHeader NodeId
      → Receiving host stack network
      → Type 0
  IsDone task_path header request client w header' after =
      let (renewal, (renewed, w')) = network.renew_secure_channel client w in
      let counted = count_request host stack network renewed in
      ((renewal ≢ good) × (after.0.0.service_result ≡ renewal) × (after.1 ≡ w'))
      ⊎ ((rc : ℕ) × (channel : Channel) × (w'' : host.World) × (send_binary_message host stack
              counted.channel counted.request_id
              (network.encode_binary (adjust_header host stack network renewed w') request)
              task_path w'
            ≡ some (rc, (channel, w'')))
          × IsEnded (now_monotonic w'') client.timeout counted.request_id rc after
          × (header'.authentication_token ≡ null_node_id))
