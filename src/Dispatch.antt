-- ===== src/Dispatch.antt =====
-- What the server does with the message in a task: `UA_Server_processSecureChannelMessage` of
-- src/open62541.c, which this project makes public for its queue, and the functions
-- `ZUTH_processMSG` and `ZUTH_getSecureChannel` that it adds. What they log is not modelled.
pub mod Requests
use ua_rate_throttling.Common.{ℕ, ◌%◌, ◌^◌, Option, none, some, Bytes, ◌==◌, if◌then◌else◌}
use ua_rate_throttling.Message.{message_msg, message_opn, message_clo}

abbrev pub message_hel : ℕ
message_hel = 0x4C4548

abbrev pub message_err : ℕ
message_err = 0x525245

-- The part of `UA_SecureChannel` that is looked at: its id, and its connection, if it has one.
pub record SecureChannel (Connection : Type 0) : Type 0 where
  pub channel_id : ℕ
  pub connection : Option Connection

-- The handlers of the stack, and its table of the open channels.
pub record Handlers : Type 1 where
  pub Server : Type 0
  pub Connection : Type 0
  pub channel_manager_get : Server → ℕ → Option (SecureChannel Connection)
  pub process_opn : Connection → ℕ → Bytes → Server → Server
  pub process_msg : SecureChannel Connection → ℕ → Bytes → Server → Server
  pub close_secure_channel : SecureChannel Connection → Server → Server

module _ (h : Handlers) where
  open h use {Server, Connection}

  -- `ZUTH_getSecureChannel`; the id is an `UA_UInt32`.
  unfoldable pub get_secure_channel : Server → ℕ → Option (SecureChannel Connection)
  get_secure_channel server channel_id = h.channel_manager_get server (channel_id % 2 ^ 32)

  -- `ZUTH_processMSG`
  unfoldable pub zuth_process_msg : SecureChannel Connection → ℕ → Bytes → Server → Server
  zuth_process_msg channel request_id msg server = h.process_msg channel request_id msg server

  -- The `switch`
  unfoldable pub dispatch : SecureChannel Connection → Connection → ℕ → ℕ → Bytes → Server → Server
  dispatch channel connection message_type request_id message server =
      if message_type == message_err
      then server
      else if message_type == message_hel
      then server
      else if message_type == message_opn
      then h.process_opn connection channel.channel_id message server
      else if message_type == message_msg
      then h.process_msg channel request_id message server
      else if message_type == message_clo
      then h.close_secure_channel channel server
      else server

  -- `UA_Server_processSecureChannelMessage`; `none` is an assertion that fails.
  unfoldable pub process_secure_channel_message :
      Option (SecureChannel Connection) → ℕ → ℕ → Bytes → Server → Option Server
  unfolding dispatch
  process_secure_channel_message none message_type request_id message server = none
  process_secure_channel_message (some channel) message_type request_id message server =
      elim channel.connection [
        | none ↦ none
        | some connection ↦
            some (dispatch channel connection message_type request_id message server)
      ]
