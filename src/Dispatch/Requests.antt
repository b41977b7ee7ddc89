-- ===== src/Dispatch/Requests.antt =====
-- From the type of a request of the client to the handler of the server.
use ua_rate_throttling.Common.{
  ℕ, ◌||◌, ◌≡◌, refl, some, Bytes, ◌==◌, if◌then◌else◌, Bool-cases, inl, inr, Bool, ◌∙◌, ap,
}
use ua_rate_throttling.Message.{message_type_of}
use ua_rate_throttling.Dispatch.{Handlers, SecureChannel, dispatch, process_secure_channel_message}

-- The ids of the requests that open a channel or close one, and of their responses.
abbrev pub opens_channel : ℕ → Bool
opens_channel type_id = type_id == 446 || type_id == 449

abbrev pub closes_channel : ℕ → Bool
closes_channel type_id = type_id == 452 || type_id == 455

module _ (h : Handlers) (channel : SecureChannel h.Connection) (connection : h.Connection)
    (type_id request_id : ℕ) (message : Bytes) (server : h.Server) where
  abbrev handle : h.Server
  handle =
      if opens_channel type_id
      then h.process_opn connection channel.channel_id message server
      else if closes_channel type_id
      then h.close_secure_channel channel server
      else h.process_msg channel request_id message server

  dispatch-message_type_of :
      dispatch h channel connection (message_type_of type_id) request_id message server ≡ handle
  unfolding dispatch message_type_of
  dispatch-message_type_of = elim (Bool-cases (opens_channel type_id)) [
    | inl opens ↦ rw opens refl
    | inr other ↦ elim (Bool-cases (closes_channel type_id)) [
      | inl closes ↦ rw (other, closes) refl
      | inr service ↦ rw (other, service) refl
    ]
  ]

  dispatched :
      channel.connection ≡ some connection
      → process_secure_channel_message h
          (some channel)
          (message_type_of type_id)
          request_id
          message
          server
        ≡ some (dispatch h channel connection (message_type_of type_id) request_id message server)
  unfolding process_secure_channel_message
  dispatched connected = simp connected

-- On a channel with a connection, the message type that the client gives a request takes it to the
-- handler of the server that is made for it: a request to open a channel or to close one to the
-- handlers of these, and each other request to the one that runs services, with its own id.
pub process_secure_channel_message-message_type_of :
    (h : Handlers) (channel : SecureChannel h.Connection) (connection : h.Connection)
    (type_id request_id : ℕ) (message : Bytes) (server : h.Server)
    → channel.connection ≡ some connection
    → process_secure_channel_message h
        (some channel)
        (message_type_of type_id)
        request_id
        message
        server
      ≡ some (
          if opens_channel type_id
          then h.process_opn connection channel.channel_id message server
          else if closes_channel type_id
          then h.close_secure_channel channel server
          else h.process_msg channel request_id message server)
process_secure_channel_message-message_type_of h channel connection type_id request_id message
      server connected =
    dispatched h channel connection type_id request_id message server connected
    ∙ ap some (dispatch-message_type_of h channel connection type_id request_id message server)
