-- ===== src/Network/Executor/Resolved.antt =====
-- internal/network/executor/dns_resolved.go: `ResolvedDNSExecutor`.
use tunwarden.Prelude.{
  String, Bool, not, ◌&&◌, Option, none, some, List, [], ◌∷◌, is_empty, if◌then◌else◌, ◌==◌,
}
use tunwarden.Result.{Result, ok, err}
use tunwarden.Text.{◌<>◌, trim_space, contains}
use tunwarden.Recovery.Host.{CommandResult, Env, M, ◌>>=◌, pure}
use tunwarden.Network.TunPlan.{TunDnsPlan, action_blocked, dns_backend_systemd_resolved}
use tunwarden.Network.Firewall.{quoted}
use tunwarden.Network.Executor.Command.{Step, observe_command, run_tool, failure_of, wrapped}

abbrev pub owner_dns : String
owner_dns = "podlaz:dns-link"

abbrev pub resolved_route_only_domain : String
resolved_route_only_domain = "~."

-- `DNSActionConfigure` of the planner
abbrev pub dns_action_configure : String
dns_action_configure = "configure"

unfoldable pub validate_dns_plan : TunDnsPlan → Option String
validate_dns_plan plan =
    if plan.action == action_blocked
    then some ("DNS desired state is blocked: " <> plan.reason)
    else if not (plan.action == "") && not (plan.action == dns_action_configure)
    then some ("unsupported DNS action " <> quoted plan.action)
    else if trim_space plan.target_link == ""
    then some "missing DNS target link"
    else if is_empty plan.servers
    then some "missing DNS servers"
    else if not (plan.backend == "") && not (plan.backend == dns_backend_systemd_resolved)
    then some ("unsupported DNS backend " <> quoted plan.backend)
    else none

unfoldable pub should_apply_dns : TunDnsPlan → Bool
should_apply_dns plan =
    plan.action == dns_action_configure && not (trim_space plan.target_link == "")

abbrev pub dns_step : TunDnsPlan → Step
dns_step plan = record {
  kind = "dns";
  target = trim_space plan.target_link;
  description = plan.reason;
  owner = owner_dns;
}

-- what follows a command, unless it failed
abbrev and_then : String → M (Result String Step) → Option String → M (Result String Step)
and_then doing next none = next
and_then doing next (some m) = pure (err (doing <> ": " <> m))

-- the first server that the output does not name, as an error
unfoldable pub missing_server : String → String → List String → Option String
missing_server output link [] = none
missing_server output link (server ∷ servers) =
    let rest = missing_server output link servers in
    if not (contains output server)
    then some
        ("verify systemd-resolved DNS for " <> link <> ": DNS server " <> server <> " not found")
    else rest

abbrev missing_domain : String → String → Option String
missing_domain output link =
    if not (contains output resolved_route_only_domain)
    then some (
        "verify systemd-resolved DNS for " <> link <> ": route-only domain "
        <> resolved_route_only_domain <> " not found")
    else none

unfoldable pub shown_dns : TunDnsPlan → CommandResult × Option String → Option String
unfolding missing_server
shown_dns plan (result, some m) =
    some ("verify systemd-resolved DNS for " <> trim_space plan.target_link <> ": " <> m)
shown_dns plan (result, none) =
    let link = trim_space plan.target_link in
    elim (missing_server result.stdout link plan.servers) [
      | some m ↦ some m
      | none ↦ missing_domain result.stdout link
    ]

module _ (env : Env) where
  unfoldable pub set_dns : TunDnsPlan → M (Result String Step)
  set_dns plan =
      let link = trim_space plan.target_link in
      run_tool env "resolvectl" ("dns" ∷ link ∷ plan.servers)
      >>= and_then ("configure systemd-resolved DNS server for " <> link) (
          run_tool env "resolvectl" ("domain" ∷ link ∷ resolved_route_only_domain ∷ [])
          >>= and_then ("configure systemd-resolved route-only DNS domain for " <> link) (
              run_tool env "resolvectl" ("default-route" ∷ link ∷ "yes" ∷ [])
              >>= and_then ("configure systemd-resolved DNS default route for " <> link)
                  (pure (ok (dns_step plan)))))

  unfoldable pub apply_dns : TunDnsPlan → M (Result String Step)
  unfolding validate_dns_plan set_dns
  apply_dns plan = elim (validate_dns_plan plan) [ some m ↦ pure (err m) | none ↦ set_dns plan ]

  unfoldable pub verify_dns : TunDnsPlan → M (Option String)
  unfolding validate_dns_plan shown_dns
  verify_dns plan = elim (validate_dns_plan plan) [
    | some m ↦ pure (some m)
    | none ↦
        observe_command env "resolvectl"
          ("status" ∷ trim_space plan.target_link ∷ "--no-pager" ∷ [])
        >>= λ shown. pure (shown_dns plan shown)
  ]

  unfoldable pub rollback_dns_plan : TunDnsPlan → M (Option String)
  rollback_dns_plan plan =
      let link = trim_space plan.target_link in
      if link == ""
      then pure none
      else (run_tool env "resolvectl" ("revert" ∷ link ∷ []) >>= λ e.
          pure (wrapped ("revert systemd-resolved DNS for " <> link) (failure_of e)))
