-- ===== src/Daemon/Metadata.antt =====
-- internal/daemon/tun_transaction_metadata.go: the rollback metadata of a plan, which recovery reads later.
use tunwarden.Prelude.{String, not, ◌&&◌, List, [], ◌∷◌, if◌then◌else◌, ◌==◌}
use tunwarden.Text.{trim_space, has_prefix, trim_prefix}
use tunwarden.State.Transaction.{RouteRollback, PolicyRuleRollback, RollbackMetadata}
use tunwarden.Recovery.Metadata.{
  owner_tun_device, owner_route, owner_policy_rule, owner_dns, owner_firewall,
}
use tunwarden.Network.TunPlan.{
  TunPlan, TunDnsPlan, TunRoutePlan, TunPolicyRulePlan, firewall_table_action,
}

unfoldable pub dns_search_domains : TunDnsPlan → List String
dns_search_domains plan =
    if not (plan.action == "configure")
    then []
    else if plan.target_link == ""
    then []
    else "~." ∷ []

unfoldable pub policy_rule_rollback : TunPolicyRulePlan → PolicyRuleRollback
policy_rule_rollback rule =
    let selector = trim_space rule.selector in
    let is_to = has_prefix selector "to " in
    record {
      priority = rule.priority;
      from =
          if is_to
          then ""
          else if has_prefix selector "from "
          then trim_space (trim_prefix selector "from ")
          else selector;
      to = if is_to then trim_space (trim_prefix selector "to ") else "";
      table = rule.table;
      mark = "";
      owner = owner_policy_rule;
    }

unfoldable pub route_rollbacks : List TunRoutePlan → List RouteRollback
route_rollbacks [] = []
route_rollbacks (route ∷ routes) =
    let rest = route_rollbacks routes in
    let entry : RouteRollback = record {
      table = route.table;
      cidr = route.destination;
      via = route.gateway;
      dev = route.interface;
      owner = owner_route;
    } in
    if not (route.action == "add") then rest else entry ∷ rest

unfoldable pub rule_rollbacks : List TunPolicyRulePlan → List PolicyRuleRollback
rule_rollbacks [] = []
rule_rollbacks (rule ∷ rules) =
    let rest = rule_rollbacks rules in
    if not (rule.action == "add") then rest else policy_rule_rollback rule ∷ rest

unfoldable pub rollback_metadata_from_tun_plan : TunPlan → RollbackMetadata
unfolding dns_search_domains policy_rule_rollback route_rollbacks rule_rollbacks
rollback_metadata_from_tun_plan plan = record {
  tun =
      if not (plan.tun_device.name == "")
      then record { interface_name = plan.tun_device.name; owner = owner_tun_device } ∷ []
      else [];
  routes = route_rollbacks plan.routes;
  policy_rules = rule_rollbacks plan.policy_rules;
  dns =
      if plan.dns.action == "configure" && not (plan.dns.target_link == "")
      then record {
        backend = plan.dns.backend;
        link = plan.dns.target_link;
        previous = [];
        search_domains = dns_search_domains plan.dns;
        owner = owner_dns;
      }
        ∷ []
      else [];
  nftables =
      if plan.firewall.table_action == firewall_table_action && not (plan.firewall.table == "")
      then record {
        family = plan.firewall.family;
        table = plan.firewall.table;
        chain = "";
        owner = owner_firewall;
      }
        ∷ []
      else [];
  generated_configs = [];
  child_processes = [];
}
