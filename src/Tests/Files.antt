-- ===== src/Tests/Files.antt =====
-- The theorems on configuration files and on messages in tasks at concrete inputs.
use ua_rate_throttling.Common.{
  ℕ, ◌≡◌, refl, Option, none, some, List, [], ◌∷◌, ◌++◌, Bytes, codes, arith,
}
use ua_rate_throttling.Config.{read_conf_file}
use ua_rate_throttling.Config.Path.{newline, read_named_conf_file, read_named_conf_file-Directory}
use ua_rate_throttling.Message.{message_type_of}
use ua_rate_throttling.Dispatch.{Handlers, SecureChannel, process_secure_channel_message}
use ua_rate_throttling.Dispatch.Requests.{process_secure_channel_message-message_type_of}
use ua_rate_throttling.Tests.Texts.{file}

-- Each command writes the directory, and each file has the same bytes.
abbrev run : Bytes → Option Bytes
run cmd = some (codes "/opt/ua" ++ newline ∷ [])

abbrev files : Bytes → Option Bytes
files name = some file

read_named_conf_file-Directory_example :
    read_named_conf_file run files (codes "clientConf.txt")
    ≡ some (read_conf_file (files (codes "/opt/ua" ++ codes "/" ++ codes "clientConf.txt")))
read_named_conf_file-Directory_example =
    read_named_conf_file-Directory run files (codes "/opt/ua") [] (codes "clientConf.txt") refl
      (omega arith) (omega arith)

-- A server is the list of the requests whose services ran.
abbrev handlers : Handlers
handlers = record {
  Server = List ℕ;
  Connection = ℕ;
  channel_manager_get = λ server id. none;
  process_opn = λ connection id message server. server;
  process_msg = λ channel id message server. id ∷ server;
  close_secure_channel = λ channel server. [];
}

abbrev channel : SecureChannel ℕ
channel = record { channel_id = 7; connection = some 4 }

process_secure_channel_message-message_type_of_example :
    process_secure_channel_message handlers (some channel) (message_type_of 631) 3 (codes "read") []
    ≡ some (3 ∷ [])
process_secure_channel_message-message_type_of_example =
    process_secure_channel_message-message_type_of handlers channel 4 631 3 (codes "read") [] refl
