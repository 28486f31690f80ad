-- ===== src/Daemon/Partial.antt =====
-- internal/daemon/tun_transaction_rollback.go: the part of a plan that the applied steps name.
use tunwarden.Prelude.{String, List, [], ◌∷◌, ◌++◌, if◌then◌else◌, ◌==◌}
use tunwarden.Network.TunPlan.{TunPlan}
use tunwarden.Network.Executor.Command.{Step}
use tunwarden.Daemon.Desired.{route_target, policy_rule_target, firewall_target}
use tunwarden.Daemon.Restored.{bare_plan}

-- the entries that a step names, in the order of the plan
unfoldable pub named_by : {P : Type 0} → (P → String) → String → List P → List P
named_by target name [] = []
named_by target name (x ∷ xs) =
    let rest = named_by target name xs in if target x == name then x ∷ rest else rest

-- what one step adds to the plan of the rollback
unfoldable pub add_step : TunPlan → TunPlan → Step → TunPlan
unfolding named_by route_target policy_rule_target firewall_target
add_step plan rollback step =
    if step.kind == "tun-device"
    then (if step.target == plan.tun_device.name
        then record rollback { tun_device = plan.tun_device }
        else rollback)
    else if step.kind == "route"
    then record rollback {
      routes = rollback.routes ++ named_by route_target step.target plan.routes;
    }
    else if step.kind == "policy-rule"
    then record rollback {
      policy_rules =
          rollback.policy_rules ++ named_by policy_rule_target step.target plan.policy_rules;
    }
    else if step.kind == "dns"
    then (if step.target == plan.dns.target_link
        then record rollback { dns = plan.dns }
        else rollback)
    else if step.kind == "nftables"
    then (if step.target == firewall_target plan.firewall
        then record rollback { firewall = plan.firewall }
        else rollback)
    else rollback

unfoldable pub add_steps : TunPlan → TunPlan → List Step → TunPlan
add_steps plan rollback [] = rollback
add_steps plan rollback (step ∷ steps) = add_steps plan (add_step plan rollback step) steps

unfoldable pub rollback_plan_from_applied_steps : TunPlan → List Step → TunPlan
unfolding add_steps
rollback_plan_from_applied_steps plan steps =
    add_steps plan
      (record (bare_plan plan.mode plan.profile_id) {
        tunnel_mode = plan.tunnel_mode;
        profile_name = plan.profile_name;
      })
      steps
