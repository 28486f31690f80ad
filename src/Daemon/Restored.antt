-- ===== src/Daemon/Restored.antt =====
-- internal/daemon/tun_status_helpers.go: the plan that a disconnect reads back from a transaction.
use tunwarden.Prelude.{String, not, ◌&&◌, ℤ, pos, List, [], ◌∷◌, map, if◌then◌else◌, ◌==◌}
use tunwarden.Text.{◌<>◌, trim_space, has_prefix}
use tunwarden.State.Transaction.{
  Transaction, DesiredPlan, TunRollback, RouteRollback, PolicyRuleRollback, DnsRollback,
  NftablesRollback,
}
use tunwarden.Network.Snapshot.{Snapshot, Finding, Route}
use tunwarden.Network.TunPlan.{
  TunPlan, TunDevicePlan, TunDnsPlan, TunRoutePlan, TunPolicyRulePlan, TunFirewallPlan,
  firewall_table_action,
}

-- Go's zero values of the parts of a plan
abbrev pub empty_device : TunDevicePlan
empty_device = record { name = ""; mtu = pos 0; action = ""; reason = "" }

abbrev pub empty_dns : TunDnsPlan
empty_dns = record {
  backend = "";
  target_link = "";
  servers = [];
  action = "";
  reason = "";
  rollback = "";
  rollback_steps = [];
}

abbrev pub empty_firewall : TunFirewallPlan
empty_firewall = record {
  backend = "";
  family = "";
  table = "";
  table_action = "";
  chains = [];
  rules = [];
  kill_switch = record { policy = ""; action = ""; scope = ""; recovery = ""; limitations = [] };
  reason = "";
  rollback = "";
  rollback_steps = [];
}

abbrev pub empty_route : TunRoutePlan
empty_route = record {
  family = "";
  destination = "";
  table = "";
  interface = "";
  gateway = "";
  action = "";
  reason = "";
}

abbrev empty_finding : Finding
empty_finding = record { status = ""; summary = ""; detail = "" }

abbrev empty_snapshot_route : Route
empty_snapshot_route = record {
  status = "";
  family = "";
  destination = "";
  interface = "";
  gateway = "";
  raw = "";
  detail = "";
}

abbrev no_snapshot : Snapshot
no_snapshot = record {
  os = "";
  default_ipv4 = empty_snapshot_route;
  default_ipv6 = empty_snapshot_route;
  server_route = empty_snapshot_route;
  dns = record { mode = ""; resolved = empty_finding };
  network_manager = record { finding = empty_finding; state = "" };
  nftables = record { availability = empty_finding; podlaz_table = empty_finding };
  tun_devices = [];
  ipv4 = empty_finding;
  ipv6 = empty_finding;
  stale_resources = [];
  warnings = [];
}

-- a plan with a mode and a profile, and nothing else
abbrev pub bare_plan : String → String → TunPlan
bare_plan mode profile_id = record {
  mode = mode;
  tunnel_mode = "";
  profile_id = profile_id;
  profile_name = "";
  snapshot = no_snapshot;
  tun_device = empty_device;
  routes = [];
  policy_rules = [];
  server_bypass = empty_route;
  dns = empty_dns;
  firewall = empty_firewall;
  loop_risks = [];
  warnings = [];
  steps = [];
  rollback_steps = [];
}

abbrev restored_device : ℤ → List TunRollback → TunDevicePlan
restored_device mtu [] = empty_device
restored_device mtu (tun ∷ rest) = record {
  name = tun.interface_name;
  mtu = mtu;
  action = "add";
  reason = "";
}

abbrev pub restored_route : RouteRollback → TunRoutePlan
restored_route route = record {
  family = "ipv4";
  destination = route.cidr;
  table = route.table;
  interface = route.dev;
  gateway = route.via;
  action = "add";
  reason = "";
}

unfoldable pub restored_selector : PolicyRuleRollback → String
restored_selector rule =
    let selector = trim_space rule.from in
    if not (rule.to == "")
    then "to " <> rule.to
    else if not (selector == "") && not (has_prefix selector "from ")
    then "from " <> selector
    else selector

abbrev pub restored_rule : PolicyRuleRollback → TunPolicyRulePlan
restored_rule rule = record {
  family = "ipv4";
  priority = rule.priority;
  selector = restored_selector rule;
  table = rule.table;
  action = "add";
  reason = "";
}

abbrev restored_dns : DesiredPlan → List DnsRollback → TunDnsPlan
restored_dns desired (dns ∷ rest) = record empty_dns {
  backend = dns.backend;
  target_link = dns.link;
  servers = desired.dns.servers;
  action = "configure";
}
restored_dns desired [] =
    if not (desired.dns.link == "")
    then record empty_dns {
      backend = desired.dns.backend;
      target_link = desired.dns.link;
      servers = desired.dns.servers;
      action = "configure";
    }
    else empty_dns

abbrev restored_firewall : DesiredPlan → List NftablesRollback → TunFirewallPlan
restored_firewall desired (nft ∷ rest) = record empty_firewall {
  backend = "nftables";
  family = nft.family;
  table = nft.table;
  table_action = firewall_table_action;
}
restored_firewall desired [] =
    if not (desired.nft.table == "")
    then record empty_firewall {
      backend = "nftables";
      family = desired.nft.family;
      table = desired.nft.table;
      table_action = firewall_table_action;
    }
    else empty_firewall

unfoldable pub tun_plan_from_transaction : Transaction → TunPlan
unfolding restored_selector
tun_plan_from_transaction tx = record (bare_plan tx.mode tx.profile_id) {
  tun_device = restored_device tx.desired_plan.tun.mtu tx.rollback.tun;
  routes = map restored_route tx.rollback.routes;
  policy_rules = map restored_rule tx.rollback.policy_rules;
  dns = restored_dns tx.desired_plan tx.rollback.dns;
  firewall = restored_firewall tx.desired_plan tx.rollback.nftables;
}
