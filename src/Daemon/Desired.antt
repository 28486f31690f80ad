-- ===== src/Daemon/Desired.antt =====
-- internal/daemon/{tun_transaction_metadata,tun_status_helpers}.go: what a transaction records of a plan
-- besides the rollback metadata, and the names of the parts of a plan.
use tunwarden.Prelude.{ℕ, String, not, ◌&&◌, List, [], ◌∷◌, ◌++◌, map, length, if◌then◌else◌, ◌==◌}
use tunwarden.Text.{◌<>◌, trim_space, itoa, int_text, join}
use tunwarden.State.Transaction.{
  Time, SnapshotMetadata, DesiredPlan, RoutePlan, PlannedStep, NftChainPlan, AppliedStep,
  empty_core,
}
use tunwarden.State.Lifecycle.{transaction_owner}
use tunwarden.Recovery.Metadata.{
  owner_tun_device, owner_route, owner_policy_rule, owner_dns, owner_firewall,
}
use tunwarden.Network.Snapshot.{Snapshot}
use tunwarden.Network.TunPlan.{
  TunPlan, TunDnsPlan, TunRoutePlan, TunPolicyRulePlan, TunFirewallPlan, TunFirewallChainPlan,
  TunFirewallRulePlan, firewall_table_action, firewall_action_add, firewall_action_validate,
  action_blocked,
}
use tunwarden.Network.Executor.Command.{Step}
use tunwarden.Daemon.Metadata.{dns_search_domains}

unfoldable pub route_target : TunRoutePlan → String
route_target route = route.table <> " " <> route.destination

unfoldable pub policy_rule_target : TunPolicyRulePlan → String
policy_rule_target rule =
    "priority " <> int_text rule.priority <> " " <> rule.selector <> " lookup " <> rule.table

unfoldable pub firewall_target : TunFirewallPlan → String
firewall_target plan = trim_space (plan.family <> " " <> plan.table)

unfoldable pub snapshot_metadata : Snapshot → Time → SnapshotMetadata
snapshot_metadata s now = record {
  captured_at = now;
  source = "daemon network snapshot";
  summary =
      ("default IPv4 route: " <> s.default_ipv4.status)
      ∷ ("server route: " <> s.server_route.status)
      ∷ ("tun devices inspected: " <> itoa (length s.tun_devices))
      ∷ [];
}

unfoldable pub firewall_rule_strings : List TunFirewallRulePlan → List String
firewall_rule_strings [] = []
firewall_rule_strings (rule ∷ rules) =
    let rest = firewall_rule_strings rules in
    if not (rule.action == firewall_action_add)
    then rest
    else trim_space (rule.expr <> " " <> rule.verdict <> " owner " <> rule.ownership) ∷ rest

abbrev nft_chain : List String → TunFirewallChainPlan → NftChainPlan
nft_chain rules chain = record {
  name = chain.name;
  hook = chain.hook;
  type = chain.type;
  priority = chain.priority;
  policy = chain.policy;
  rules = rules;
  owner = owner_firewall;
}

unfoldable pub nft_chains : TunFirewallPlan → List NftChainPlan
unfolding firewall_rule_strings
nft_chains plan = map (nft_chain (firewall_rule_strings plan.rules)) plan.chains

unfoldable pub route_plans : List TunRoutePlan → List RoutePlan
route_plans [] = []
route_plans (route ∷ routes) =
    let rest = route_plans routes in
    let entry : RoutePlan = record {
      kind = "route";
      table = route.table;
      cidr = route.destination;
      via = route.gateway;
      dev = route.interface;
      priority = tunwarden.Prelude.pos 0;
      owner = owner_route;
      operation = route.action;
    } in
    if not (route.action == "add") then rest else entry ∷ rest

abbrev dns_steps : TunDnsPlan → List PlannedStep
dns_steps plan =
    if plan.action == "configure" && not (plan.target_link == "")
    then record {
      kind = "dns";
      target = plan.target_link;
      description = plan.reason;
      owner = owner_dns;
    }
      ∷ []
    else []

abbrev firewall_steps : TunFirewallPlan → List PlannedStep
firewall_steps plan =
    if plan.table_action == firewall_table_action && not (plan.table == "")
    then record {
      kind = "nftables";
      target = firewall_target plan;
      description = plan.reason;
      owner = owner_firewall;
    }
      ∷ []
    else []

unfoldable pub planned_steps_of : TunPlan → List PlannedStep
unfolding policy_rule_target firewall_target
planned_steps_of plan =
    map
      (λ step. record {
        kind = "plan";
        target = "tun";
        description = step;
        owner = transaction_owner;
      })
      plan.steps
    ++ map
        (λ rule. record {
          kind = "policy-rule";
          target = policy_rule_target rule;
          description = rule.reason;
          owner = owner_policy_rule;
        })
        plan.policy_rules
    ++ dns_steps plan.dns
    ++ firewall_steps plan.firewall

unfoldable pub desired_plan_from_tun_plan : TunPlan → DesiredPlan
unfolding planned_steps_of route_plans nft_chains dns_search_domains
desired_plan_from_tun_plan plan = record {
  plan_id = plan.profile_id <> ":tun";
  tun = record {
    interface_name = plan.tun_device.name;
    mtu = plan.tun_device.mtu;
    owner = owner_tun_device;
  };
  routes = route_plans plan.routes;
  dns = record {
    backend = plan.dns.backend;
    link = plan.dns.target_link;
    servers = plan.dns.servers;
    search_domains = dns_search_domains plan.dns;
    owner = transaction_owner;
  };
  nft = record {
    family = plan.firewall.family;
    table = plan.firewall.table;
    chains = nft_chains plan.firewall;
    owner = owner_firewall;
  };
  core = empty_core;
  steps = planned_steps_of plan;
}

unfoldable pub applied_steps_from_executor : List Step → Time → List AppliedStep
applied_steps_from_executor steps now =
    map
      (λ step. record {
        kind = step.kind;
        target = step.target;
        description = step.description;
        applied_at = now;
        owner = step.owner;
      })
      steps

unfoldable pub dns_status_line : TunDnsPlan → String
dns_status_line plan =
    if plan.action == "configure" && not (plan.target_link == "")
    then plan.backend
      <> "; Link: "
      <> plan.target_link
      <> "; Servers: "
      <> join ", " plan.servers
      <> "; Rollback: available"
    else if plan.action == action_blocked
    then "blocked: " <> plan.reason
    else "not modified"

unfoldable pub firewall_status_line : TunFirewallPlan → String
firewall_status_line plan =
    if plan.table_action == firewall_table_action && not (plan.table == "")
    then plan.backend <> "; Table: " <> plan.family <> " " <> plan.table <> "; Kill-switch: "
      <> plan.kill_switch.policy <> "; Rollback: " <> plan.rollback
    else if plan.table_action == action_blocked
    then "blocked: " <> plan.reason
    else if plan.table_action == firewall_action_validate
    then plan.backend <> "; Table: " <> plan.family <> " " <> plan.table
      <> " requires ownership validation before apply"
    else "not modified"
