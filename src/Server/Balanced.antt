-- ===== src/Server/Balanced.antt =====
-- The memory of `init_ZUTH_Server` of examples/zuthServer.c.
use ua_rate_throttling.Config.{Config}
