-- ===== src/Zoo.antt =====
-- The codes of the ZooKeeper client library that the program tells apart, and the texts that
-- `zkUA_error2String`, `zkUA_state2String` and `zkUA_type2String` of src/zk_cli.c give them.
use ua_rate_throttling.Common.{Bytes, codes, ℤ, Option, none, some, Bool, true, false}

-- A result code; every code but ZOK is nonzero, and `other_code` stands for the codes of
-- <zookeeper.h> that the program does not name.
pub data ZooCode : Type 0 where
  zok znonode znodeexists znoauth znochildrenforephemerals zbadarguments zinvalidstate : ZooCode
  zmarshallingerror : ZooCode
  other_code : ℤ → ZooCode

-- A connection state; the state 0 is `closed`.
pub data ZooState : Type 0 where
  closed connecting associating connected expired_session auth_failed : ZooState
  other_state : ℤ → ZooState

-- The type of a watch event.
pub data ZooEvent : Type 0 where
  created deleted changed child session notwatching : ZooEvent
  other_event : ℤ → ZooEvent

abbrev pub is_zok : ZooCode → Bool
is_zok zok = true
is_zok _ = false

-- `zkUA_error2String`: the line that it prints, if it prints one.
unfoldable pub error_to_string : ZooCode → Option Bytes
error_to_string zok = some (codes "zkUA_error2String: ZOK - operation completed successfully\n")
error_to_string znonode =
    some (codes "zkUA_error2String: ZNONODE - the parent node does not exist.\n")
error_to_string znodeexists =
    some (codes "zkUA_error2String: ZNODEEXISTS the node already exists\n")
error_to_string znoauth =
    some (codes "zkUA_error2String: ZNOAUTH the client does not have permission.\n")
error_to_string znochildrenforephemerals = some (
    codes
      "zkUA_error2String: ZNOCHILDRENFOREPHEMERALS cannot create children of ephemeral nodes.\n")
error_to_string zbadarguments =
    some (codes "zkUA_error2String: ZBADARGUMENTS - invalid input parameters\n")
error_to_string zinvalidstate = some (
    codes
      "zkUA_error2String: ZINVALIDSTATE - zhandle state is either ZOO_SESSION_EXPIRED_STATE or ZOO_AUTH_FAILED_STATE\n")
error_to_string zmarshallingerror = some (
    codes
      "zkUA_error2String: ZMARSHALLINGERROR - failed to marshall a request; possibly, out of memory\n")
error_to_string (other_code rc) = none

-- `zkUA_state2String`
unfoldable pub state_to_string : ZooState → Bytes
state_to_string closed = codes "CLOSED_STATE"
state_to_string connecting = codes "CONNECTING_STATE"
state_to_string associating = codes "ASSOCIATING_STATE"
state_to_string connected = codes "CONNECTED_STATE"
state_to_string expired_session = codes "EXPIRED_SESSION_STATE"
state_to_string auth_failed = codes "AUTH_FAILED_STATE"
state_to_string (other_state state) = codes "INVALID_STATE"

-- `zkUA_type2String`
unfoldable pub type_to_string : ZooEvent → Bytes
type_to_string created = codes "CREATED_EVENT"
type_to_string deleted = codes "DELETED_EVENT"
type_to_string changed = codes "CHANGED_EVENT"
type_to_string child = codes "CHILD_EVENT"
type_to_string session = codes "SESSION_EVENT"
type_to_string notwatching = codes "NOTWATCHING_EVENT"
type_to_string (other_event state) = codes "UNKNOWN_EVENT_TYPE"
