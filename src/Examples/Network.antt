-- ===== src/Examples/Network.antt =====
-- Runs of internal/network/planner at a concrete snapshot.
use tunwarden.Prelude.{
  ◌≡◌, refl, String, true, false, not, ◌&&◌, ◌||◌, Option, none, some, [], ◌∷◌, is_empty,
  if◌then◌else◌, ◌==◌,
}
use tunwarden.Network.Snapshot.{Snapshot, Finding, Route, status_detected, default_tun_name}
use tunwarden.Network.TunPlan.{
  TunOptions, TunPlan, main_routing_table, tun_routing_table, verdict_drop, verdict_reject,
  policy_strict, policy_off, firewall_action_add,
}
use tunwarden.Network.Compact.{has, compact_warnings, normalize_dns_servers}
use tunwarden.Network.Compact.Laws.{
  AreDistinct, occurs, compact_warnings_lem, normalize_dns_servers_lem,
}
use tunwarden.Network.Firewall.{firewall_plan, normalize_kill_switch_policy}
use tunwarden.Network.Firewall.Rules.{
  adds_verdict, can_create_table, with_action, asked, BlocksLast, kill_switch_matches_request,
  blocked_firewall_adds_nothing,
}
use tunwarden.Network.Parts.{concrete_server_bypass_ip}
use tunwarden.Network.Planner.{Profile, plan_for, plan_tun, planned_device}
use tunwarden.Network.Planner.Routing.{
  table_for, only, server_loop, server_traffic_bypasses, loops_are_reported,
}

abbrev pub detected : Finding
detected = record { status = "detected"; summary = ""; detail = "" }

abbrev pub missing : Finding
missing = record { status = "missing"; summary = ""; detail = "" }

abbrev uplink : Route
uplink = record {
  status = "detected";
  family = "ipv4";
  destination = "default";
  interface = "eth0";
  gateway = "192.0.2.1";
  raw = "default via 192.0.2.1 dev eth0";
  detail = "";
}

abbrev pub host : Snapshot
host = record {
  os = "linux";
  default_ipv4 = uplink;
  default_ipv6 = uplink;
  server_route = record uplink { destination = "203.0.113.10"; raw = "" };
  dns = record { mode = "stub"; resolved = detected };
  network_manager = record { finding = missing; state = "" };
  nftables = record { availability = missing; podlaz_table = missing };
  tun_devices = [];
  ipv4 = detected;
  ipv6 = missing;
  stale_resources = [];
  warnings = [];
}

-- the same host, on which nft can be used
abbrev usable_host : Snapshot
usable_host = record host { nftables = record { availability = detected; podlaz_table = missing } }

-- a parser that knows one address
abbrev pub parse_ip : String → Option String
parse_ip s = if s == "203.0.113.10" then some s else none

abbrev pub profile : Profile
profile = record { id = "home"; name = "Home"; validation = none }

abbrev pub options : TunOptions
options = record { kill_switch_policy = " Strict"; dns_servers = [] }

abbrev pub plan : TunPlan
plan = plan_for profile host options (concrete_server_bypass_ip parse_ip host)

server_traffic_bypasses_example :
    table_for "ipv4" "203.0.113.10" plan.policy_rules
    ≡ some (
        if not (concrete_server_bypass_ip parse_ip host == "")
          && only (concrete_server_bypass_ip parse_ip host) == only "203.0.113.10"
        then main_routing_table
        else tun_routing_table)
unfolding plan_tun
server_traffic_bypasses_example =
    server_traffic_bypasses parse_ip profile host options plan "ipv4" "203.0.113.10" refl

loops_are_reported_example :
    (has server_loop plan.loop_risks ≡ (
      host.server_route.status == status_detected
      && host.server_route.interface == default_tun_name))
    × ((not (has server_loop plan.loop_risks) || has server_loop plan.warnings) ≡ true)
unfolding plan_tun
loops_are_reported_example = loops_are_reported parse_ip profile host options plan refl

kill_switch_matches_request_example :
    let rules =
      (firewall_plan usable_host
        (normalize_kill_switch_policy " Strict")
        planned_device
        "203.0.113.10").rules in
    (adds_verdict verdict_drop rules
      ≡ (can_create_table usable_host && asked " Strict" == policy_strict))
    × (adds_verdict verdict_reject rules ≡ (
        can_create_table usable_host
        && not (asked " Strict" == policy_strict)
        && not (asked " Strict" == policy_off)))
    × BlocksLast planned_device rules
kill_switch_matches_request_example =
    kill_switch_matches_request usable_host " Strict" planned_device "203.0.113.10"

blocked_firewall_adds_nothing_example :
    with_action firewall_action_add (firewall_plan host "soft" planned_device "203.0.113.10").rules
    ≡ false
blocked_firewall_adds_nothing_example =
    blocked_firewall_adds_nothing host "soft" planned_device "203.0.113.10" refl refl

compact_warnings_lem_example :
    AreDistinct (compact_warnings ("a " ∷ "" ∷ "a" ∷ []))
    × (has "a" (compact_warnings ("a " ∷ "" ∷ "a" ∷ [])) ≡ occurs "a" ("a " ∷ "" ∷ "a" ∷ []))
compact_warnings_lem_example = compact_warnings_lem ("a " ∷ "" ∷ "a" ∷ []) "a" refl

normalize_dns_servers_lem_example :
    AreDistinct (normalize_dns_servers (" 9.9.9.9" ∷ []))
    × (is_empty (normalize_dns_servers (" 9.9.9.9" ∷ [])) ≡ false)
    × ((not (occurs "9.9.9.9" (" 9.9.9.9" ∷ []))
          || has "9.9.9.9" (normalize_dns_servers (" 9.9.9.9" ∷ [])))
        ≡ true)
normalize_dns_servers_lem_example = normalize_dns_servers_lem (" 9.9.9.9" ∷ []) "9.9.9.9" refl
