-- ===== src/Service.antt =====
-- A service call of the client: `__ZUTH_Client_Service` and `ZUTH_receiveUAClientServiceResponse` of
-- src/open62541.c. What they print is not modelled.
pub mod Libraries
pub mod Rounds
pub mod Ends
use ua_rate_throttling.Common.{
  ℕ, zero, suc, ◌+◌, ◌*◌, ◌-◌, ◌/◌, ◌%◌, ◌^◌, Bool, true, false, Option, none, some, [], Bytes, ltb,
  ◌==◌, if◌then◌else◌, ◌>>=◌,
}
use ua_rate_throttling.Queue.Libraries.{Host}
use ua_rate_throttling.Chunk.{Channel, good}
use ua_rate_throttling.Chunk.Libraries.{Stack}
use ua_rate_throttling.Message.{send_binary_message}
use Libraries.{ClientState, faulted, errored, UaClient, RequestHeader, Response, Network}

abbrev pub good_non_critical_timeout : ℕ
good_non_critical_timeout = 0x00aa0000

abbrev pub bad_encoding_limits_exceeded : ℕ
bad_encoding_limits_exceeded = 0x80080000

abbrev pub bad_request_too_large : ℕ
bad_request_too_large = 0x80b80000

-- `UA_MSEC_TO_DATETIME`
abbrev pub msec_to_date_time : ℕ
msec_to_date_time = 10000

-- What the client made public of its state.
module _ {NodeId : Type 0} where
  abbrev pub get_client_endpoint_url : UaClient NodeId → Bytes
  get_client_endpoint_url client = client.endpoint_url

  abbrev pub set_client_state : ClientState → UaClient NodeId → UaClient NodeId
  set_client_state state client = record client { state = state }

  abbrev pub get_client_auth_token : UaClient NodeId → NodeId
  get_client_auth_token client = client.authentication_token

  abbrev pub get_client_request_handle : UaClient NodeId → ℕ
  get_client_request_handle client = client.request_handle

  abbrev pub get_client_request_id : UaClient NodeId → ℕ
  get_client_request_id client = client.request_id

  abbrev pub set_client_request_handle : ℕ → UaClient NodeId → UaClient NodeId
  set_client_request_handle handle client = record client { request_handle = handle }

  abbrev pub set_client_request_id : ℕ → UaClient NodeId → UaClient NodeId
  set_client_request_id id client = record client { request_id = id }

module _ (host : Host) (stack : Stack host) (network : Network host stack) where
  open network use {NodeId, Request, Body, null_node_id, now_monotonic}

  -- `UA_init` of a response.
  abbrev pub init_response : Response Body
  init_response = record { service_result = good; body = network.init_body }

  -- One round of the loop: the status of receiving, and what then becomes of the response.
  abbrev pub Receiving : Type 0
  Receiving = (Response Body × UaClient NodeId) × host.World

  -- The part of a round that stands before its check of the status.
  unfoldable pub receive : ℕ → UaClient NodeId → host.World → ℕ × ((Bytes × Bool) × host.World)
  receive max_date client w =
      if ltb (now_monotonic w) max_date
      then network.receive_chunks client ((max_date - now_monotonic w) / msec_to_date_time % 2 ^ 32)
          w
      else (good_non_critical_timeout, (([], false), w))

  abbrev pub free_reply : UaClient NodeId → Bytes × Bool → host.World → host.World
  free_reply client (reply, realloced) w =
      if realloced then network.delete_reply reply w else network.release_recv_buffer client reply w

  -- The rest of it: whether the response was processed, and the state.
  unfoldable pub process_reply : ℕ → Bytes × Bool → Receiving → Bool × Receiving
  process_reply request_id (reply, realloced) ((response, client), w) =
      let (processed, ((response', client'), w')) =
        network.process_replies client request_id reply (response, w) in
      (processed, ((response', client'), free_reply client' (reply, realloced) w'))

  -- The loop, for as many rounds as the fuel allows.
  unfoldable pub receive_loop : ℕ → ℕ → ℕ → Receiving → Option Receiving
  receive_loop zero max_date request_id state = none
  receive_loop (suc fuel) max_date request_id ((response, client), w) =
      let (rc, (reply, w')) = receive max_date client w in
      let (processed, state) = process_reply request_id reply ((response, client), w') in
      let rest = receive_loop fuel max_date request_id state in
      if rc == good
      then (if processed then some state else rest)
      else some ((record response { service_result = rc }, client), w')

  -- `ZUTH_receiveUAClientServiceResponse`.
  unfoldable pub receive_response :
      ℕ
      → RequestHeader NodeId
      → ℕ
      → UaClient NodeId
      → host.World
      → Option (RequestHeader NodeId × Receiving)
  unfolding receive_loop
  receive_response fuel header request_id client w = do
    state ←
        receive_loop fuel (now_monotonic w + client.timeout * msec_to_date_time) request_id
          ((init_response, client), w)
    some (record header { authentication_token = null_node_id }, state)

  -- The header of a request that is about to be sent, and the client that counts it.
  abbrev pub adjust_header : UaClient NodeId → host.World → RequestHeader NodeId
  adjust_header client w = record {
    authentication_token = get_client_auth_token client;
    timestamp = network.date_time_now w;
    request_handle = (client.request_handle + 1) % 2 ^ 32;
  }

  abbrev pub count_request : UaClient NodeId → UaClient NodeId
  count_request client = record client {
    request_handle = (client.request_handle + 1) % 2 ^ 32;
    request_id = (client.request_id + 1) % 2 ^ 32;
  }

  abbrev pub send_error : ℕ → ℕ
  send_error retval =
      if retval == bad_encoding_limits_exceeded then bad_request_too_large else retval

  -- The last part of a call, behind the sending of the request.
  unfoldable pub end_service :
      ℕ
      → RequestHeader NodeId
      → UaClient NodeId
      → ℕ
      → host.World
      → Option (RequestHeader NodeId × Receiving)
  unfolding receive_response
  end_service fuel header client retval w =
      let received = receive_response fuel header client.request_id client w in
      if retval == good
      then received
      else some (
        record header { authentication_token = null_node_id },
        (
          (
            record init_response { service_result = send_error retval },
            set_client_state faulted client,
          ),
          w,
        ),
      )

  -- `__ZUTH_Client_Service`
  unfoldable pub client_service :
      ℕ
      → Bytes
      → RequestHeader NodeId
      → Request
      → UaClient NodeId
      → host.World
      → Option (RequestHeader NodeId × Receiving)
  unfolding end_service
  client_service fuel task_path header request client w =
      let (retval, (renewed, w')) = network.renew_secure_channel client w in
      if retval == good
      then (do
        let counted = count_request renewed
        let header' = adjust_header renewed w'
        (rc, (channel, w'')) ←
            send_binary_message host stack counted.channel counted.request_id
              (network.encode_binary header' request) task_path w'
        end_service fuel header' (record counted { channel = channel }) rc w'')
      else some (
        header,
        ((record init_response { service_result = retval }, set_client_state errored renewed), w'),
      )
