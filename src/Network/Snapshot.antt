-- ===== src/Network/Snapshot.antt =====
-- internal/network/snapshot/model.go: the observations that the planner reads.
use tunwarden.Prelude.{String, List}

abbrev pub default_tun_name : String
default_tun_name = "podlaz0"

abbrev pub default_nft_family : String
default_nft_family = "inet"

abbrev pub default_nft_table : String
default_nft_table = "podlaz"

abbrev pub status_detected : String
status_detected = "detected"

pub record Finding : Type 0 where
  pub status : String
  pub summary : String
  pub detail : String

pub record Route : Type 0 where
  pub status : String
  pub family : String
  pub destination : String
  pub interface : String
  pub gateway : String
  pub raw : String
  pub detail : String

pub record Dns : Type 0 where
  pub mode : String
  pub resolved : Finding

pub record NetworkManager : Type 0 where
  pub finding : Finding
  pub state : String

pub record Nftables : Type 0 where
  pub availability : Finding
  pub podlaz_table : Finding

pub record TunDevice : Type 0 where
  pub name : String
  pub status : String
  pub detail : String
  pub raw : String

pub record StaleResource : Type 0 where
  pub kind : String
  pub name : String
  pub status : String
  pub detail : String

pub record Snapshot : Type 0 where
  pub os : String
  pub default_ipv4 : Route
  pub default_ipv6 : Route
  pub server_route : Route
  pub dns : Dns
  pub network_manager : NetworkManager
  pub nftables : Nftables
  pub tun_devices : List TunDevice
  pub ipv4 : Finding
  pub ipv6 : Finding
  pub stale_resources : List StaleResource
  pub warnings : List String
