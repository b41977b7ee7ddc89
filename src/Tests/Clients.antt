-- ===== src/Tests/Clients.antt =====
-- The theorems on service calls and on the client program at concrete inputs.
use ua_rate_throttling.Common.{
  ℕ, ◌+◌, ◌*◌, ◌≤◌, ◌≡◌, ◌⊎◌, refl, Bool, true, not, ◌==◌, if◌then◌else◌, Option, none, some, [],
  ◌∷◌, ◌++◌, codes, arith,
}
use ua_rate_throttling.Znode.{init_globals}
use ua_rate_throttling.Config.{Config, init_config}
use ua_rate_throttling.Chunk.{good, bad_internal_error}
use ua_rate_throttling.Message.{Encoding}
use ua_rate_throttling.Service.Libraries.{ready, UaClient, RequestHeader, Response, Network}
use ua_rate_throttling.Client.{init_ua_client, read_date_time}
use ua_rate_throttling.Client.Libraries.{Platform}
use ua_rate_throttling.Memory.{configs, endpoint_array}
use ua_rate_throttling.Client.Balanced.{calls, leave, init_ua_client-Balanced}
use ua_rate_throttling.Client.Fault.{read_date_time-Fault}
use ua_rate_throttling.Client.Threads.{
  Threads, Steps, Step, here, then_step, count, create, init_threads, starting, is_deleting,
  being_created, deleting-Quiet, deleting-Reached,
}
use ua_rate_throttling.Tests.Tasks.{Shop, host, stack, channel, encoding, task_path, shop}

-- The first reply, at the time 1, is of no use, and the second one has the date.
abbrev answer :
    ℕ → UaClient ℕ → Response (Option ℕ) → Shop → Bool × ((Response (Option ℕ) × UaClient ℕ) × Shop)
answer n c response w =
    (not (n == 1), ((record response { body = if n == 1 then response.body else some 131 }, c), w))

-- A server whose first reply is of no use, and whose second one has the date. A `UA_NodeId` is a
-- number.
abbrev renewing : ℕ → Network host stack
renewing status = record {
  NodeId = ℕ;
  null_node_id = 0;
  Request = Encoding;
  encode_binary = λ header e. e;
  Body = Option ℕ;
  init_body = none;
  renew_secure_channel = λ c w. (status, (c, w));
  date_time_now = λ w. w.clock;
  now_monotonic = λ w. w.clock;
  receive_chunks = λ c timeout w. (good, ((codes "reply", true), record w { clock = w.clock + 1 }));
  process_replies = λ c id reply (response, w). answer w.clock c response w;
  release_recv_buffer = λ c reply w. w;
  delete_reply = λ reply w. w;
}

abbrev network : Network host stack
network = renewing good

abbrev ua : UaClient ℕ
ua = record {
  state = ready;
  timeout = 1;
  endpoint_url = codes "opc.tcp://server:4840";
  channel = channel;
  authentication_token = 5;
  request_id = 2;
  request_handle = 2;
}

abbrev header : RequestHeader ℕ
header = record { authentication_token = 0; timestamp = 0; request_handle = 0 }

abbrev platform_on : (status : ℕ) → Platform host stack (renewing status)
platform_on status = record {
  new_client = λ w. (ua, w);
  get_endpoints = λ client url w. (good, (client, w));
  connect_username =
      λ client url name password w. (good, (record client { endpoint_url = url }, w));
  disconnect = λ client w. w;
  init_header = header;
  read_request = λ namespace id attribute. encoding;
  first_date = λ body. body;
  attr_init = λ w. true;
  attr_setscope = λ w. true;
  attr_setdetachstate = λ w. true;
  create = λ w. true;
  zookeeper_init = λ quorum w. (true, w);
  zookeeper_close = λ w. w;
  errno = λ w. 0;
}

abbrev platform : Platform host stack network
platform = platform_on good

abbrev expired_platform : Platform host stack (renewing bad_internal_error)
expired_platform = platform_on bad_internal_error

abbrev c : Config
c = record init_config { hostname = codes "server"; ua_port = 4840 }

-- The program owns its list of endpoints of a call before, too.
init_ua_client-Balanced_example :
    init_ua_client host stack network platform 10001 c
      (record { globals = init_globals; held = configs ++ endpoint_array ∷ []; world = shop })
    ≡ leave host stack network platform
        (endpoint_array ∷ [])
        (calls host stack network platform 10001 c init_globals shop)
init_ua_client-Balanced_example =
    init_ua_client-Balanced host stack network platform 10001 c init_globals (endpoint_array ∷ [])
      shop

abbrev expired : Network host stack
expired = renewing bad_internal_error

read_date_time-Fault_example :
    read_date_time host stack expired expired_platform 10001 task_path ua shop ≡ none
read_date_time-Fault_example =
    read_date_time-Fault host stack expired expired_platform 10001 task_path ua shop refl
      (λ e. omega (arith, e))

-- A thread is created, and reads.
abbrev one_reads : Threads
one_reads = record { main = starting 1; running_threads = 1; reading = 1 }

one_reads-Steps : Steps 1 2 init_threads one_reads
one_reads-Steps = then_step (then_step here (count 0 0 0 (omega arith))) (create 0 1 0)

deleting-Quiet_example :
    (one_reads.running_threads ≡ one_reads.reading + being_created one_reads.main)
    × (is_deleting one_reads.main ≡ true → one_reads.reading ≡ 0)
deleting-Quiet_example = deleting-Quiet 1 2 one_reads one_reads-Steps

deleting-Reached_example :
    (2 ≤ 3 * 1 + 2) × ((is_deleting one_reads.main ≡ true) ⊎ ((t : Threads) × Step 1 one_reads t))
deleting-Reached_example = deleting-Reached 1 2 one_reads one_reads-Steps
