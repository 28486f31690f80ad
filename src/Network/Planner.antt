-- ===== src/Network/Planner.antt =====
-- internal/network/planner/tun.go: `PlanTunWithOptions`. net.ParseIP, with the text of the address that it
-- reads, is the argument `parse_ip`; `profile.Validate` comes in as its result.
pub mod Routing
use tunwarden.Prelude.{
  pos, ℕ, String, Bool, true, false, not, Option, none, some, List, [], ◌∷◌, ◌++◌, any, length,
  nat_eq, if◌then◌else◌, ◌==◌,
}
use tunwarden.Result.{Result, ok, err}
use Prim.Native.Char.{Char, code}
use Prim.Native.String
use Prim.Native.String.{[], ◌∷◌}
use tunwarden.Text.{◌<>◌, trim_space, fields, join, itoa}
use tunwarden.Network.Snapshot.{Snapshot, Route, status_detected, default_tun_name}
use tunwarden.Network.TunPlan.{
  TunOptions, TunDevicePlan, TunRoutePlan, TunPolicyRulePlan, TunDnsPlan, TunFirewallPlan, TunPlan,
  default_tun_mtu, tun_routing_table, tun_routing_table_id, tun_rule_priority, server_rule_priority,
  main_routing_table, ipv4_default_route, ipv4_default_selector, dns_backend_systemd_resolved,
  dns_rollback_restore, action_blocked,
}
use tunwarden.Network.Compact.{compact_warnings, normalize_dns_servers}
use tunwarden.Network.Firewall.{firewall_plan, normalize_kill_switch_policy}
use tunwarden.Network.Warnings.{
  tun_snapshot_warnings, tun_desired_state_warnings, dns_plan_warnings, firewall_plan_warnings,
  tun_route_loop_risks,
}
use tunwarden.Network.Parts.{concrete_server_bypass_ip, server_bypass_route, dns_plan}
use tunwarden.Network.Undo.{rollback_steps}

-- the profile's fields that the plan shows, and the error that `profile.Validate` gives
pub record Profile : Type 0 where
  pub id : String
  pub name : String
  pub validation : Option String

abbrev pub planned_device : TunDevicePlan
planned_device = record {
  name = default_tun_name;
  mtu = pos default_tun_mtu;
  action = "create";
  reason = "stable podlaz full-tunnel interface";
}

abbrev pub default_route_plan : TunRoutePlan
default_route_plan = record {
  family = "ipv4";
  destination = ipv4_default_route;
  table = tun_routing_table;
  interface = default_tun_name;
  gateway = "";
  action = "add";
  reason = "route default IPv4 traffic through the podlaz TUN interface";
}

abbrev pub default_rule_plan : TunPolicyRulePlan
default_rule_plan = record {
  family = "ipv4";
  priority = pos tun_rule_priority;
  selector = ipv4_default_selector;
  table = tun_routing_table;
  action = "add";
  reason =
      "send default IPv4 traffic through the podlaz routing table before the kernel main table rule";
}

abbrev pub server_rule_plan : String → TunPolicyRulePlan
server_rule_plan server_ip = record {
  family = "ipv4";
  priority = pos server_rule_priority;
  selector = "to " <> server_ip <> "/32";
  table = main_routing_table;
  action = "add";
  reason = "keep VPN server traffic on the current uplink before the full-tunnel policy rule";
}

unfoldable pub planned_steps : String → TunDnsPlan → TunFirewallPlan → List String
planned_steps server_ip dns firewall =
    ("Collect current host networking snapshot without requiring root"
      ∷ ("Plan TUN interface " <> default_tun_name <> " with MTU " <> itoa default_tun_mtu)
      ∷ ("Plan routing table "
          <> tun_routing_table
          <> " ("
          <> itoa tun_routing_table_id
          <> ") with IPv4 default route through "
          <> default_tun_name)
      ∷ [])
    ++ (if server_ip == ""
        then []
        else ("Plan policy rule priority "
            <> itoa server_rule_priority
            <> " for VPN server bypass via "
            <> main_routing_table)
          ∷ [])
    ++ ("Plan policy rule priority "
        <> itoa tun_rule_priority
        <> " for default IPv4 traffic via "
        <> tun_routing_table)
      ∷ ("Plan DNS backend "
          <> dns.backend
          <> " on link "
          <> dns.target_link
          <> " with server(s) "
          <> join ", " dns.servers)
      ∷ ("Plan nftables table "
          <> firewall.family
          <> " "
          <> firewall.table
          <> " with "
          <> itoa (length firewall.chains)
          <> " chain(s), "
          <> itoa (length firewall.rules)
          <> " rule(s), and "
          <> firewall.kill_switch.policy
          <> " kill-switch policy")
      ∷ "Leave TUN devices, routes, policy rules, DNS, nftables, firewall, and Xray process state unchanged in this dry-run"
      ∷ []

-- the warnings of a plan but the loop risks, which come last
unfoldable pub warnings_before : Snapshot → String → TunDnsPlan → TunFirewallPlan → List String
warnings_before s server_ip dns firewall =
    s.warnings
    ++ tun_snapshot_warnings s
    ++ tun_desired_state_warnings s server_ip
    ++ dns_plan_warnings s dns
    ++ firewall_plan_warnings s firewall

-- the plan for a valid profile, from the server's address
unfoldable pub plan_for : Profile → Snapshot → TunOptions → String → TunPlan
plan_for p s opts server_ip =
    let bypass = server_bypass_route s server_ip in
    let unknown = server_ip == "" in
    let routes : List TunRoutePlan = default_route_plan ∷ (if unknown then [] else bypass ∷ []) in
    let rules : List TunPolicyRulePlan =
      (if unknown then [] else server_rule_plan server_ip ∷ []) ++ default_rule_plan ∷ [] in
    let dns = dns_plan s planned_device (normalize_dns_servers opts.dns_servers) in
    let firewall =
      firewall_plan s (normalize_kill_switch_policy opts.kill_switch_policy) planned_device
        server_ip in
    let risks = tun_route_loop_risks s in
    record {
      mode = "tun";
      tunnel_mode = "full-tunnel";
      profile_id = p.id;
      profile_name = p.name;
      snapshot = s;
      tun_device = planned_device;
      routes = routes;
      policy_rules = rules;
      server_bypass = bypass;
      dns = dns;
      firewall = firewall;
      loop_risks = risks;
      warnings = compact_warnings (warnings_before s server_ip dns firewall ++ risks);
      steps = planned_steps server_ip dns firewall;
      rollback_steps = rollback_steps planned_device routes rules dns firewall;
    }

unfoldable pub plan_tun :
    (String → Option String) → Profile → Snapshot → TunOptions → Result String TunPlan
plan_tun parse_ip p s opts = elim p.validation [
  | some e ↦ err e
  | none ↦ ok (plan_for p s opts (concrete_server_bypass_ip parse_ip s))
]
