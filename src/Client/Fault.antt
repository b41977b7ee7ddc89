-- ===== src/Client/Fault.antt =====
-- What the client program does with a response that has no results.
use ua_rate_throttling.Common.{ℕ, ◌≡◌, ◌≢◌, refl, none, Bytes, ◌==◌, false, arith}
use ua_rate_throttling.Queue.Libraries.{Host}
use ua_rate_throttling.Chunk.{good}
use ua_rate_throttling.Chunk.Libraries.{Stack}
use ua_rate_throttling.Service.{client_service}
use ua_rate_throttling.Service.Libraries.{UaClient, Network}
use ua_rate_throttling.Client.{read_date_time, client_service_request}
use ua_rate_throttling.Client.Libraries.{Platform}

-- `readDateTime` reads through a null pointer whenever the channel cannot be renewed: the response
-- of the service call is then as `UA_init` left it, with no results, and its service result is not
-- looked at.
pub read_date_time-Fault :
    (host : Host) (stack : Stack host) (network : Network host stack)
    (platform : Platform host stack network) (fuel : ℕ) (task_path : Bytes)
    (c : UaClient network.NodeId) (w : host.World)
    → platform.first_date network.init_body ≡ none
    → (network.renew_secure_channel c w).0 ≢ good
    → read_date_time host stack network platform fuel task_path c w ≡ none
unfolding read_date_time client_service_request client_service
read_date_time-Fault host stack network platform fuel task_path c w empty expired =
    let failed : ((network.renew_secure_channel c w).0 == good) ≡ false = ground arith in
    rw (failed, empty) refl
