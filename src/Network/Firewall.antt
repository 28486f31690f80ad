-- ===== src/Network/Firewall.antt =====
-- internal/network/planner/tun.go: the firewall part of a plan.
pub mod Rules
use tunwarden.Prelude.{
  pos, String, Bool, true, false, not, ◌&&◌, ◌||◌, List, [], ◌∷◌, ◌++◌, if◌then◌else◌, ◌==◌,
}
use tunwarden.Text.{◌<>◌, trim_space, to_lower}
use tunwarden.Network.Snapshot.{Snapshot, status_detected, default_nft_family, default_nft_table}
use tunwarden.Network.TunPlan.{
  TunDevicePlan, TunFirewallPlan, TunFirewallChainPlan, TunFirewallRulePlan, TunKillSwitchPlan,
  action_blocked, firewall_table_action, firewall_action_add, firewall_action_skip,
  firewall_action_validate, verdict_accept, verdict_reject, verdict_drop, policy_off, policy_soft,
  policy_strict,
}

-- `%q` of a name that needs no escape
abbrev pub quoted : String → String
quoted s = "\"" <> s <> "\""

unfoldable pub normalize_kill_switch_policy : String → String
normalize_kill_switch_policy policy =
    let p = to_lower (trim_space policy) in
    if p == "" || p == policy_soft
    then policy_soft
    else if p == policy_strict
    then policy_strict
    else if p == policy_off
    then policy_off
    else policy_soft

unfoldable pub firewall_rule_action : String → String
firewall_rule_action table_action =
    if table_action == firewall_table_action
    then firewall_action_add
    else if table_action == action_blocked
    then action_blocked
    else table_action

unfoldable pub server_bypass_firewall_rule : String → String → TunFirewallRulePlan
server_bypass_firewall_rule server_ip action =
    let unknown = server_ip == "" in
    record {
      chain = "output";
      expr = if unknown then "ip daddr <server-ip>" else "ip daddr " <> server_ip;
      verdict = verdict_accept;
      action = if unknown then action_blocked else action;
      reason =
          if unknown
          then "VPN server bypass target is unknown; firewall bypass rule cannot be applied safely"
          else "allow VPN server control traffic outside TUN before non-TUN blocking";
      ownership = "podlaz:firewall:server-bypass";
      rollback_key = "inet/podlaz/output/server-bypass";
    }

unfoldable pub loopback_firewall_rule : String → TunFirewallRulePlan
loopback_firewall_rule action = record {
  chain = "output";
  expr = "oifname \"lo\"";
  verdict = verdict_accept;
  action = action;
  reason =
      "allow local loopback traffic so systemd-resolved stub DNS and local proxy IPC are not blocked by the TUN kill-switch";
  ownership = "podlaz:firewall:loopback";
  rollback_key = "inet/podlaz/output/loopback";
}

unfoldable pub tun_egress_firewall_rule : TunDevicePlan → String → TunFirewallRulePlan
tun_egress_firewall_rule device action = record {
  chain = "output";
  expr = "oifname " <> quoted device.name;
  verdict = verdict_accept;
  action = action;
  reason = "allow traffic that egresses through the podlaz TUN interface";
  ownership = "podlaz:firewall:tun-egress";
  rollback_key = "inet/podlaz/output/tun-egress";
}

unfoldable pub kill_switch_firewall_rule : String → TunDevicePlan → String → TunFirewallRulePlan
kill_switch_firewall_rule policy device action =
    let off = policy == policy_off in
    let strict = policy == policy_strict in
    record {
      chain = "output";
      expr = "oifname != " <> quoted device.name;
      verdict = if off then "" else if strict then verdict_drop else verdict_reject;
      action =
          if action == action_blocked && not off
          then action_blocked
          else if off
          then firewall_action_skip
          else action;
      reason =
          if off
          then "kill-switch policy is off; do not install a non-TUN blocking rule"
          else if strict
          then "strict kill-switch drops non-TUN traffic until recovery removes podlaz-owned rules"
          else "soft kill-switch rejects non-TUN traffic during transition and must restore direct connectivity on failure";
      ownership = "podlaz:firewall:kill-switch";
      rollback_key = "inet/podlaz/output/kill-switch";
    }

unfoldable pub firewall_rules : String → TunDevicePlan → String → String → List TunFirewallRulePlan
firewall_rules policy device server_ip action =
    let rule = kill_switch_firewall_rule policy device action in
    (server_bypass_firewall_rule server_ip action
      ∷ loopback_firewall_rule action
      ∷ tun_egress_firewall_rule device action
      ∷ [])
    ++ (if not (rule.action == "") then rule ∷ [] else [])

unfoldable pub kill_switch_plan : String → TunDevicePlan → TunKillSwitchPlan
kill_switch_plan policy device =
    let off = policy == policy_off in
    let strict = policy == policy_strict in
    record {
      policy = policy;
      action =
          if off
          then "do not install leak-blocking nftables rules"
          else "block non-TUN traffic according to selected kill-switch policy";
      scope =
          if off
          then "firewall table ownership is still planned for future cleanup visibility, but no traffic blocking is selected"
          else "allow traffic through " <> device.name
            <> ", local loopback, and the explicit VPN server bypass; block other non-TUN traffic according to policy";
      recovery = "recover --execute --yes must be able to remove podlaz-owned nftables state";
      limitations =
          if off
          then "off policy does not claim leak protection" ∷ []
          else if strict
          then "strict kill-switch may intentionally keep direct connectivity blocked after VPN failure until recovery removes podlaz-owned rules"
            ∷ "strict kill-switch cannot be claimed as leak protection until apply, verify, rollback, and recover execution exist"
            ∷ []
          else "soft kill-switch is a transition guard only and must restore direct connectivity on failed apply"
            ∷ [];
    }

unfoldable pub table_action_of : Snapshot → String
table_action_of s =
    if s.nftables.podlaz_table.status == status_detected
    then firewall_action_validate
    else if not (s.nftables.availability.status == status_detected)
    then action_blocked
    else firewall_table_action

unfoldable pub table_reason_of : Snapshot → String
table_reason_of s =
    if s.nftables.podlaz_table.status == status_detected
    then "podlaz nftables table already exists; future apply must validate ownership or recover it before replacing rules"
    else if not (s.nftables.availability.status == status_detected)
    then "nftables availability is " <> s.nftables.availability.status
      <> "; firewall mutation is unsafe until nft can be inspected"
    else "create a podlaz-owned nftables table for full-tunnel leak prevention dry-run state"

unfoldable pub firewall_plan : Snapshot → String → TunDevicePlan → String → TunFirewallPlan
firewall_plan s policy device server_ip =
    let table_action = table_action_of s in
    record {
      backend = "nftables";
      family = default_nft_family;
      table = default_nft_table;
      table_action = table_action;
      chains =
          record {
            name = "output";
            type = "filter";
            hook = "output";
            priority = pos 0;
            policy = "accept";
            action = table_action;
            reason = "own outbound full-tunnel filtering inside the podlaz nftables table";
          }
          ∷ [];
      rules = firewall_rules policy device server_ip (firewall_rule_action table_action);
      kill_switch = kill_switch_plan policy device;
      reason = table_reason_of s;
      rollback = "remove inet podlaz";
      rollback_steps =
          ("Remove nftables table " <> default_nft_family <> " " <> default_nft_table
            <> " if created by this transaction")
          ∷ [];
    }
