-- ===== src/Tests/Paths.antt =====
-- The theorems on znode paths at concrete inputs.
use ua_rate_throttling.Common.{◌≡◌, ◌≢◌, ap, get_or, ◌++◌, Bytes, codes, arith}
use ua_rate_throttling.Guid.{print_guid}
use ua_rate_throttling.Znode.{
  Globals, get_active_path, set_server_queue_path, encode_server_queue_path, server_uri,
  server_task_path,
}
use ua_rate_throttling.Znode.Exact.{set_group, group_paths}
use ua_rate_throttling.Znode.Agreement.{IsUrl, client_server_agree, server_task_path_injective}
use ua_rate_throttling.Tests.Texts.{group, url}

abbrev globals : Globals
globals = record {
  group_guid_path = codes "/Servers/a";
  server_queue_path = codes "/Servers/a/Queue";
}

group_paths_example :
    ((set_group (print_guid group) globals).group_guid_path ≡ codes "/Servers/" ++ print_guid group)
    × ((set_group (print_guid group) globals).server_queue_path
        ≡ (codes "/Servers/" ++ print_guid group) ++ codes "/Queue")
    × (get_active_path (set_group (print_guid group) globals)
        ≡ (codes "/Servers/" ++ print_guid group) ++ codes "/Active")
group_paths_example = group_paths group globals

client_server_agree_example :
    (set_server_queue_path (server_uri (codes "host") 4840) globals
      ≡ server_task_path (server_uri (codes "host") 4840) globals)
    × (encode_server_queue_path (server_uri (codes "host") 4840) globals
        ≡ server_task_path (server_uri (codes "host") 4840) globals ++ codes "/task-")
client_server_agree_example =
    client_server_agree globals (omega arith) (codes "host") (omega arith) (omega arith) 4840

url-IsUrl : IsUrl url
url-IsUrl = record { chars = omega arith; short = omega arith }

abbrev other_url : Bytes
other_url = codes "opc.tcp://host:4841"

other_url-IsUrl : IsUrl other_url
other_url-IsUrl = record { chars = omega arith; short = omega arith }

urls_apart : url ≢ other_url
urls_apart e =
    let digits : b'0' ≡ b'1' = ap (λ s. get_or s 18 0) e in absurd (omega (arith, digits))

server_task_path_injective_example :
    server_task_path url globals ≢ server_task_path other_url globals
server_task_path_injective_example =
    server_task_path_injective globals (omega arith) url other_url url-IsUrl other_url-IsUrl
      urls_apart
