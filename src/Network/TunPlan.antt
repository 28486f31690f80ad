-- ===== src/Network/TunPlan.antt =====
-- internal/network/planner/tun.go: the constants and the parts of a plan.
use tunwarden.Prelude.{ℕ, ℤ, String, List}
use tunwarden.Network.Snapshot.{Snapshot}

abbrev pub tun_routing_table : String
tun_routing_table = "podlaz"

abbrev pub tun_routing_table_id : ℕ
tun_routing_table_id = 51820

abbrev pub default_tun_mtu : ℕ
default_tun_mtu = 1500

abbrev pub tun_rule_priority : ℕ
tun_rule_priority = 10000

abbrev pub server_rule_priority : ℕ
server_rule_priority = 9999

abbrev pub main_routing_table : String
main_routing_table = "main"

abbrev pub ipv4_default_route : String
ipv4_default_route = "default"

abbrev pub ipv4_default_selector : String
ipv4_default_selector = "from all"

abbrev pub dns_backend_systemd_resolved : String
dns_backend_systemd_resolved = "systemd-resolved per-link DNS"

abbrev pub dns_rollback_restore : String
dns_rollback_restore = "restore previous per-link DNS state where possible"

abbrev pub default_tun_dns_server : String
default_tun_dns_server = "1.1.1.1"

-- the actions: `DNSActionBlocked` and `FirewallActionBlocked` are the same text
abbrev pub action_blocked : String
action_blocked = "blocked"

abbrev pub firewall_table_action : String
firewall_table_action = "create"

abbrev pub firewall_action_add : String
firewall_action_add = "add"

abbrev pub firewall_action_skip : String
firewall_action_skip = "skip"

abbrev pub firewall_action_validate : String
firewall_action_validate = "validate-or-replace"

abbrev pub verdict_accept : String
verdict_accept = "accept"

abbrev pub verdict_reject : String
verdict_reject = "reject"

abbrev pub verdict_drop : String
verdict_drop = "drop"

abbrev pub policy_off : String
policy_off = "off"

abbrev pub policy_soft : String
policy_soft = "soft"

abbrev pub policy_strict : String
policy_strict = "strict"

pub record TunOptions : Type 0 where
  pub kill_switch_policy : String
  pub dns_servers : List String

pub record TunDevicePlan : Type 0 where
  pub name : String
  pub mtu : ℤ
  pub action : String
  pub reason : String

pub record TunRoutePlan : Type 0 where
  pub family : String
  pub destination : String
  pub table : String
  pub interface : String
  pub gateway : String
  pub action : String
  pub reason : String

pub record TunPolicyRulePlan : Type 0 where
  pub family : String
  pub priority : ℤ
  pub selector : String
  pub table : String
  pub action : String
  pub reason : String

pub record TunDnsPlan : Type 0 where
  pub backend : String
  pub target_link : String
  pub servers : List String
  pub action : String
  pub reason : String
  pub rollback : String
  pub rollback_steps : List String

pub record TunFirewallChainPlan : Type 0 where
  pub name : String
  pub type : String
  pub hook : String
  pub priority : ℤ
  pub policy : String
  pub action : String
  pub reason : String

pub record TunFirewallRulePlan : Type 0 where
  pub chain : String
  pub expr : String
  pub verdict : String
  pub action : String
  pub reason : String
  pub ownership : String
  pub rollback_key : String

pub record TunKillSwitchPlan : Type 0 where
  pub policy : String
  pub action : String
  pub scope : String
  pub recovery : String
  pub limitations : List String

pub record TunFirewallPlan : Type 0 where
  pub backend : String
  pub family : String
  pub table : String
  pub table_action : String
  pub chains : List TunFirewallChainPlan
  pub rules : List TunFirewallRulePlan
  pub kill_switch : TunKillSwitchPlan
  pub reason : String
  pub rollback : String
  pub rollback_steps : List String

pub record TunPlan : Type 0 where
  pub mode : String
  pub tunnel_mode : String
  pub profile_id : String
  pub profile_name : String
  pub snapshot : Snapshot
  pub tun_device : TunDevicePlan
  pub routes : List TunRoutePlan
  pub policy_rules : List TunPolicyRulePlan
  pub server_bypass : TunRoutePlan
  pub dns : TunDnsPlan
  pub firewall : TunFirewallPlan
  pub loop_risks : List String
  pub warnings : List String
  pub steps : List String
  pub rollback_steps : List String
