-- ===== src/Tests/Programs.antt =====
-- The theorems on the server program at concrete inputs.
use ua_rate_throttling.Common.{true, false, none}
use ua_rate_throttling.Server.{Process, init_process}
use ua_rate_throttling.Server.Libraries.{UaServer}
use ua_rate_throttling.Tests.Servers.{Tree, client}

-- A server that runs until it is interrupted.
abbrev ua : UaServer client
ua = record {
  create_hashtable = true;
  server_run = λ c s t. (record s { running = false }, t);
  zookeeper_init = λ quorum t. (true, t);
  zookeeper_close = λ t. t;
  errno = λ t. 0;
}

abbrev tree : Tree
tree p = none

abbrev process : Process Tree
process = init_process client ua tree
