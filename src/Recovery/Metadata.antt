-- ===== src/Recovery/Metadata.antt =====
-- internal/recovery/daemon_executor.go: the tests of rollback metadata, and the results that need no action.
use tunwarden.Prelude.{
  String, Bool, false, not, ◌&&◌, ◌||◌, ℤ, int_eq, pos, negsuc, List, [], ◌∷◌, any, if◌then◌else◌,
  ◌==◌, ltb,
}
use tunwarden.Text.{◌<>◌, trim_space, int_text}
use tunwarden.Netip.{is_ipv4_host}
use tunwarden.State.Lifecycle.{transaction_owner}
use tunwarden.State.Transaction.{RouteRollback, PolicyRuleRollback, ChildProcessRollback}
use tunwarden.Recovery.Host.{M, ◌>>=◌, pure}
use tunwarden.Recovery.Results.{
  Candidate, CleanupResult, skipped, resource, is_broken, is_passed_over,
}

-- the owners that internal/network/executor writes into rollback metadata
abbrev pub owner_tun_device : String
owner_tun_device = "podlaz:tun-device"

abbrev pub owner_route : String
owner_route = "podlaz:route"

abbrev pub owner_policy_rule : String
owner_policy_rule = "podlaz:policy-rule"

abbrev pub owner_dns : String
owner_dns = "podlaz:dns-link"

abbrev pub owner_firewall : String
owner_firewall = "podlaz:nftables"

abbrev pub main_routing_table : String
main_routing_table = "main"

unfoldable pub owned_rollback_metadata : String → String → Bool
owned_rollback_metadata owner expected =
    not (trim_space expected == "")
    && (trim_space owner == trim_space expected || trim_space owner == transaction_owner)

unfoldable pub safe_main_server_bypass_policy_rule : PolicyRuleRollback → Bool
safe_main_server_bypass_policy_rule rule =
    if not (int_eq rule.priority 9999) || not (trim_space rule.table == main_routing_table)
    then false
    else if not (trim_space rule.from == "") || not (trim_space rule.mark == "")
    then false
    else is_ipv4_host (trim_space rule.to)

unfoldable pub safe_main_server_bypass_route : RouteRollback → Bool
safe_main_server_bypass_route route =
    if not (trim_space route.table == main_routing_table)
    then false
    else is_ipv4_host (trim_space route.cidr)
      && not (trim_space route.via == "")
      && not (trim_space route.dev == "")

unfoldable pub has_failed_cleanup : List CleanupResult → Bool
has_failed_cleanup = any (λ r. is_broken r.status)

unfoldable pub has_skipped_cleanup : List CleanupResult → Bool
has_skipped_cleanup = any (λ r. is_passed_over r.status)

-- one result for each entry, in order
abbrev pub for_each : {A : Type 0} → (A → M CleanupResult) → List A → M (List CleanupResult)
for_each f [] = pure []
for_each f (x ∷ xs) = f x >>= λ r. for_each f xs >>= λ rs. pure (r ∷ rs)

unfoldable pub child_process_candidate : ChildProcessRollback → Candidate
child_process_candidate proc =
    resource "child-process" "child process" (proc.label <> " pid " <> int_text proc.pid)

-- PID > 1
unfoldable pub above_one : ℤ → Bool
above_one (pos n) = ltb 1 n
above_one (negsuc n) = false

unfoldable pub child_process_result : ChildProcessRollback → CleanupResult
unfolding child_process_candidate above_one skipped
child_process_result proc =
    if not (proc.owner == transaction_owner)
    then skipped (child_process_candidate proc) "non-podlaz child process metadata"
    else if above_one proc.pid
    then skipped (child_process_candidate proc)
        "process identity cannot be verified from stale metadata"
    else skipped (child_process_candidate proc) "no live process pid recorded"
