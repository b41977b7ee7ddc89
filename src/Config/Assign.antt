-- ===== src/Config/Assign.antt =====
-- What one line of the file changes.
use ua_rate_throttling.Common.{
  arith, ◌≡◌, refl, Bytes, codes, [], ◌∷◌, Bool, true, false, ◌==◌, if◌then◌else◌, pos,
}
use ua_rate_throttling.Config.{
  starts_with, redundancy_of, Config, assign, strtol, state_of, parse_guid,
}

-- One of the two texts begins with the other.
abbrev comparable : Bytes → Bytes → Bool
comparable [] q = true
comparable (a ∷ p) [] = true
comparable (a ∷ p) (b ∷ q) = if a == b then comparable p q else false

starts_with-comparable :
    (s p q : Bytes) → starts_with s p ≡ true → starts_with s q ≡ true → comparable p q ≡ true
unfolding starts_with
starts_with-comparable s [] q hp hq = refl
starts_with-comparable s (a ∷ p) [] hp hq = refl
starts_with-comparable [] (a ∷ p) (b ∷ q) hp hq = cc
starts_with-comparable (c ∷ s) (a ∷ p) (b ∷ q) hp hq = ground (arith, starts_with-comparable s p q)

-- A text does not begin with two texts that differ somewhere.
exclusive :
    (s p q : Bytes) → comparable p q ≡ false → starts_with s p ≡ true → starts_with s q ≡ false
exclusive s p q h hp = ground (arith, starts_with-comparable s p q)

starts_with-shorter :
    (s p q : Bytes) → starts_with p q ≡ true → starts_with s p ≡ true → starts_with s q ≡ true
unfolding starts_with
starts_with-shorter s p [] h hp = refl
starts_with-shorter s [] (b ∷ q) h hp = absurd (ground arith)
starts_with-shorter [] (a ∷ p) (b ∷ q) h hp = cc
starts_with-shorter (c ∷ s) (a ∷ p) (b ∷ q) h hp = ground (arith, starts_with-shorter s p q)

-- A value that begins with "hot+", the name of the sixth kind, is read as the kind "hot".
pub redundancy_of_hot_plus :
    (v : Bytes) → starts_with v (codes "hot+") ≡ true → redundancy_of v ≡ pos 3
unfolding redundancy_of
redundancy_of_hot_plus v h = ground (
  arith,
  exclusive v (codes "hot+") (codes "standalone") refl,
  exclusive v (codes "hot+") (codes "cold") refl,
  exclusive v (codes "hot+") (codes "warm") refl,
  starts_with-shorter v (codes "hot+") (codes "hot") refl,
)

-- Each member changes exactly when the argument begins with its name; no name hides another in the
-- ladder.
module _ (a v : Bytes) (c : Config) where
  pub hostname-assign :
      (assign a v c).hostname ≡ (if starts_with a (codes "Hostname") then v else c.hostname)
  unfolding assign
  hostname-assign = ground (arith)

  pub ua_port-assign :
      (assign a v c).ua_port
      ≡ (if starts_with a (codes "PortNumber") then strtol v 10 else c.ua_port)
  unfolding assign
  ua_port-assign = ground (arith, exclusive a (codes "Hostname") (codes "PortNumber") refl)

  pub guid-assign :
      (assign a v c).guid ≡ (if starts_with a (codes "GroupGUID") then parse_guid v else c.guid)
  unfolding assign
  guid-assign = ground (
    arith,
    exclusive a (codes "Hostname") (codes "GroupGUID") refl,
    exclusive a (codes "PortNumber") (codes "GroupGUID") refl,
  )

  pub r_support-assign :
      (assign a v c).r_support
      ≡ (if starts_with a (codes "RedundancyType") then redundancy_of v else c.r_support)
  unfolding assign
  r_support-assign = ground (
    arith,
    exclusive a (codes "Hostname") (codes "RedundancyType") refl,
    exclusive a (codes "PortNumber") (codes "RedundancyType") refl,
    exclusive a (codes "GroupGUID") (codes "RedundancyType") refl,
  )

  pub state-assign :
      (assign a v c).state ≡ (if starts_with a (codes "State") then state_of v else c.state)
  unfolding assign
  state-assign = ground (
    arith,
    exclusive a (codes "Hostname") (codes "State") refl,
    exclusive a (codes "PortNumber") (codes "State") refl,
    exclusive a (codes "GroupGUID") (codes "State") refl,
    exclusive a (codes "RedundancyType") (codes "State") refl,
  )

  pub a_priority-assign : (assign a v c).a_priority ≡ (
      if starts_with a (codes "AvailabilityPriority")
      then starts_with v (codes "true")
      else c.a_priority)
  unfolding assign
  a_priority-assign = ground (
    arith,
    exclusive a (codes "Hostname") (codes "AvailabilityPriority") refl,
    exclusive a (codes "PortNumber") (codes "AvailabilityPriority") refl,
    exclusive a (codes "GroupGUID") (codes "AvailabilityPriority") refl,
    exclusive a (codes "RedundancyType") (codes "AvailabilityPriority") refl,
    exclusive a (codes "State") (codes "AvailabilityPriority") refl,
  )

  pub username-assign :
      (assign a v c).username ≡ (if starts_with a (codes "Username") then v else c.username)
  unfolding assign
  username-assign = ground (
    arith,
    exclusive a (codes "Hostname") (codes "Username") refl,
    exclusive a (codes "PortNumber") (codes "Username") refl,
    exclusive a (codes "GroupGUID") (codes "Username") refl,
    exclusive a (codes "RedundancyType") (codes "Username") refl,
    exclusive a (codes "State") (codes "Username") refl,
    exclusive a (codes "AvailabilityPriority") (codes "Username") refl,
  )

  pub password-assign :
      (assign a v c).password ≡ (if starts_with a (codes "Password") then v else c.password)
  unfolding assign
  password-assign = ground (
    arith,
    exclusive a (codes "Hostname") (codes "Password") refl,
    exclusive a (codes "PortNumber") (codes "Password") refl,
    exclusive a (codes "GroupGUID") (codes "Password") refl,
    exclusive a (codes "RedundancyType") (codes "Password") refl,
    exclusive a (codes "State") (codes "Password") refl,
    exclusive a (codes "AvailabilityPriority") (codes "Password") refl,
    exclusive a (codes "Username") (codes "Password") refl,
  )

  pub server_id-assign :
      (assign a v c).server_id ≡ (if starts_with a (codes "ServerId") then v else c.server_id)
  unfolding assign
  server_id-assign = ground (
    arith,
    exclusive a (codes "Hostname") (codes "ServerId") refl,
    exclusive a (codes "PortNumber") (codes "ServerId") refl,
    exclusive a (codes "GroupGUID") (codes "ServerId") refl,
    exclusive a (codes "RedundancyType") (codes "ServerId") refl,
    exclusive a (codes "State") (codes "ServerId") refl,
    exclusive a (codes "AvailabilityPriority") (codes "ServerId") refl,
    exclusive a (codes "Username") (codes "ServerId") refl,
    exclusive a (codes "Password") (codes "ServerId") refl,
  )

  pub zookeeper_quorum-assign :
      (assign a v c).zookeeper_quorum
      ≡ (if starts_with a (codes "ZooKeeperQuorum") then v else c.zookeeper_quorum)
  unfolding assign
  zookeeper_quorum-assign = ground (
    arith,
    exclusive a (codes "Hostname") (codes "ZooKeeperQuorum") refl,
    exclusive a (codes "PortNumber") (codes "ZooKeeperQuorum") refl,
    exclusive a (codes "GroupGUID") (codes "ZooKeeperQuorum") refl,
    exclusive a (codes "RedundancyType") (codes "ZooKeeperQuorum") refl,
    exclusive a (codes "State") (codes "ZooKeeperQuorum") refl,
    exclusive a (codes "AvailabilityPriority") (codes "ZooKeeperQuorum") refl,
    exclusive a (codes "Username") (codes "ZooKeeperQuorum") refl,
    exclusive a (codes "Password") (codes "ZooKeeperQuorum") refl,
    exclusive a (codes "ServerId") (codes "ZooKeeperQuorum") refl,
  )
