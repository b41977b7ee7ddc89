-- ===== src/Config/Settings.antt =====
-- The loop over the lines of a file, and the last line that names a member.
use ua_rate_throttling.Common.{◌≡◌, refl, ◌∙◌, List, [], ◌∷◌, Bytes, codes, if◌then◌else◌}
use ua_rate_throttling.Common.Cstdlib.{strtol}
use ua_rate_throttling.Guid.{parse_guid}
use ua_rate_throttling.Config.{Config, starts_with, redundancy_of, state_of, assign}
use ua_rate_throttling.Config.Assign.{
  ua_port-assign, r_support-assign, state-assign, a_priority-assign, hostname-assign,
  username-assign, password-assign, server_id-assign, zookeeper_quorum-assign, guid-assign,
}

-- The pairs that the loop reads from a file: an argument and its value.
abbrev pub Lines : Type 0
Lines = List (Bytes × Bytes)

-- The loop over the pairs.
unfoldable pub assign_all : Lines → Config → Config
assign_all [] c = c
assign_all ((a, v) ∷ lines) c = assign_all lines (assign a v c)

-- `read` of the last value whose argument begins with `name`, or `d` where no pair has it.
unfoldable pub latest {ℓ} : {A : Type ℓ} → Bytes → (Bytes → A) → A → Lines → A
latest name read d [] = d
latest name read d ((a, v) ∷ lines) =
    latest name read (if starts_with a name then read v else d) lines

abbrev pub settings : Lines → Config → Config
settings lines c = record {
  ua_port = latest (codes "PortNumber") (λ v. strtol v 10) c.ua_port lines;
  r_support = latest (codes "RedundancyType") redundancy_of c.r_support lines;
  state = latest (codes "State") state_of c.state lines;
  a_priority =
      latest (codes "AvailabilityPriority") (λ v. starts_with v (codes "true")) c.a_priority lines;
  hostname = latest (codes "Hostname") (λ v. v) c.hostname lines;
  username = latest (codes "Username") (λ v. v) c.username lines;
  password = latest (codes "Password") (λ v. v) c.password lines;
  server_id = latest (codes "ServerId") (λ v. v) c.server_id lines;
  zookeeper_quorum = latest (codes "ZooKeeperQuorum") (λ v. v) c.zookeeper_quorum lines;
  guid = latest (codes "GroupGUID") parse_guid c.guid lines;
}

-- After the loop each member holds the value of the last pair of an argument and a value whose
-- argument begins with the name of the member, and what it held before where there is none.
pub assign_all-settings : (lines : Lines) (c : Config) → assign_all lines c ≡ settings lines c
unfolding assign_all latest
assign_all-settings [] c = refl
assign_all-settings ((a, v) ∷ lines) c = assign_all-settings lines (assign a v c) ∙ λ i. record {
  ua_port = latest (codes "PortNumber") (λ v. strtol v 10) (ua_port-assign a v c i) lines;
  r_support = latest (codes "RedundancyType") redundancy_of (r_support-assign a v c i) lines;
  state = latest (codes "State") state_of (state-assign a v c i) lines;
  a_priority =
      latest (codes "AvailabilityPriority") (λ v. starts_with v (codes "true"))
        (a_priority-assign a v c i) lines;
  hostname = latest (codes "Hostname") (λ v. v) (hostname-assign a v c i) lines;
  username = latest (codes "Username") (λ v. v) (username-assign a v c i) lines;
  password = latest (codes "Password") (λ v. v) (password-assign a v c i) lines;
  server_id = latest (codes "ServerId") (λ v. v) (server_id-assign a v c i) lines;
  zookeeper_quorum =
      latest (codes "ZooKeeperQuorum") (λ v. v) (zookeeper_quorum-assign a v c i) lines;
  guid = latest (codes "GroupGUID") parse_guid (guid-assign a v c i) lines;
}
