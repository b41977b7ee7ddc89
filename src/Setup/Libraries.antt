-- ===== src/Setup/Libraries.antt =====
-- What setting up the tree relies on and does not implement: the ZooKeeper client.
use ua_rate_throttling.Common.{Bytes, Bool}
use ua_rate_throttling.Zoo.{ZooCode}

pub record ZooClient : Type 1 where
  -- The ZooKeeper tree.
  pub Tree : Type 0
  pub zoo_exists : Bytes → Tree → ZooCode
  -- `zoo_create` at a path, of an ephemeral znode or of a permanent one.
  pub zoo_create : Bytes → Bool → Tree → ZooCode × Tree
  -- `zoo_acreate`: the tree once the request is done; requests are done in their order.
  pub zoo_acreate : Bytes → Bool → Tree → Tree
