-- ===== src/Recovery/Rollback.antt =====
-- internal/recovery/daemon_executor.go: the results of undoing the rollback metadata of a transaction,
-- kind by kind.
pub mod Safety
use tunwarden.Prelude.{
  String, Bool, true, false, not, ◌&&◌, ◌||◌, ℤ, is_positive, int_eq, pos, negsuc, Option, none,
  some, List, [], ◌∷◌, ◌++◌, is_empty, any, if◌then◌else◌, ◌==◌, is_none, ltb,
}
use tunwarden.Result.{Result, ok, err}
use tunwarden.Text.{◌<>◌, trim_space, int_text}
use tunwarden.FilePath.{clean}
use tunwarden.Netip.{is_ipv4_host}
use tunwarden.State.Lifecycle.{transaction_owner, requires_cleanup}
use tunwarden.State.Transaction.{
  Transaction, TunRollback, RouteRollback, PolicyRuleRollback, DnsRollback, NftablesRollback,
  GeneratedConfigRollback, ChildProcessRollback, RollbackMetadata,
}
use tunwarden.Recovery.Host.{Env, M, ◌>>=◌, pure, remove, load_transaction}
use tunwarden.Recovery.Command.{run, unless_missing}
use tunwarden.Recovery.Results.{
  Candidate, TransactionCandidate, CleanupResult, recovered, skipped, failed, resource, is_broken,
  is_passed_over, managed_interface, is_managed_nft_target, managed_table_token, is_under_dir,
  is_transaction_path, same_clean_path,
}
use tunwarden.Recovery.Os.{
  with_defaults, generated_dir, report, unless_gone, cleanup_tun_interface, cleanup_nftables_table,
  cleanup_generated_runtime_configs, rollback_nftables, rollback_dns, rollback_policy_rule,
  rollback_route, rollback_tun, remove_generated_config,
}
use tunwarden.Recovery.Metadata.{
  owner_tun_device, owner_route, owner_policy_rule, owner_dns, owner_firewall, main_routing_table,
  owned_rollback_metadata, safe_main_server_bypass_policy_rule, safe_main_server_bypass_route,
  has_failed_cleanup, has_skipped_cleanup, for_each, child_process_candidate, above_one,
  child_process_result,
}

module _ (env : Env) where
  unfoldable pub rollback_child_process_results : List ChildProcessRollback → M (List CleanupResult)
  unfolding child_process_result
  rollback_child_process_results = for_each (λ proc. pure (child_process_result proc))

  -- the loop of `rollbackNFTablesResults`, with the keys seen so far
  nftables_results : List String → List NftablesRollback → M (List CleanupResult)
  nftables_results seen [] = pure []
  nftables_results seen (entry ∷ entries) =
      let key = entry.family <> " " <> entry.table in
      let candidate = resource "nftables-table" "nftables table" key in
      let foreign =
        not (owned_rollback_metadata entry.owner owner_firewall)
        || not (is_managed_nft_target entry.family entry.table) in
      let known = any (λ k. k == key) seen in
      let rest = nftables_results (if foreign || known then seen else key ∷ seen) entries in
      if foreign
      then (rest >>= λ rs. pure (skipped candidate "ambiguous or non-podlaz nftables target" ∷ rs))
      else if known
      then rest
      else (rollback_nftables env (record entry { owner = transaction_owner } ∷ []) >>= λ e.
          rest >>= λ rs. pure (report candidate e ∷ rs))

  unfoldable pub rollback_nftables_results : List NftablesRollback → M (List CleanupResult)
  unfolding nftables_results
  rollback_nftables_results = nftables_results []

  dns_result : DnsRollback → M CleanupResult
  dns_result dns =
      let candidate = resource "dns" "DNS link state" dns.link in
      if not (owned_rollback_metadata dns.owner owner_dns)
        || not (dns.link == managed_interface)
        || (not (dns.backend == "") && not (dns.backend == "systemd-resolved"))
      then pure (skipped candidate "ambiguous or non-podlaz DNS rollback target")
      else (rollback_dns env (record dns { owner = transaction_owner }) >>= λ e.
          pure (report candidate e))

  unfoldable pub rollback_dns_results : List DnsRollback → M (List CleanupResult)
  unfolding dns_result
  rollback_dns_results = for_each dns_result

  unfoldable pub rollback_main_server_bypass_policy_rule : PolicyRuleRollback → M (Option String)
  rollback_main_server_bypass_policy_rule rule =
      if not (owned_rollback_metadata rule.owner owner_policy_rule)
        || not (safe_main_server_bypass_policy_rule rule)
      then pure (
          some (
            "refuse to rollback ambiguous main-table policy rule priority "
            <> int_text rule.priority))
      else (run env "ip" (
            "-4"
            ∷ "rule"
            ∷ "del"
            ∷ "priority"
            ∷ int_text rule.priority
            ∷ "to"
            ∷ trim_space rule.to
            ∷ "lookup"
            ∷ main_routing_table
            ∷ [])
          >>= λ e. pure (
              unless_missing
                ("delete main-table server bypass policy rule priority "
                  <> int_text rule.priority
                  <> " to "
                  <> trim_space rule.to)
                e))

  policy_rule_result : PolicyRuleRollback → M CleanupResult
  policy_rule_result rule =
      let candidate =
        resource "policy-rule" "policy rule"
          ("priority " <> int_text rule.priority <> " table " <> rule.table) in
      if not (owned_rollback_metadata rule.owner owner_policy_rule)
      then pure (skipped candidate "non-podlaz policy rule metadata")
      else if safe_main_server_bypass_policy_rule rule
      then (rollback_main_server_bypass_policy_rule rule >>= λ e. pure (report candidate e))
      else if is_none (managed_table_token rule.table)
      then pure (skipped candidate "ambiguous or non-podlaz policy rule table")
      else (rollback_policy_rule env (record rule { owner = transaction_owner }) >>= λ e.
          pure (report candidate e))

  unfoldable pub rollback_policy_rule_results : List PolicyRuleRollback → M (List CleanupResult)
  unfolding policy_rule_result
  rollback_policy_rule_results = for_each policy_rule_result

  unfoldable pub rollback_main_server_bypass_route : RouteRollback → M (Option String)
  rollback_main_server_bypass_route route =
      if not (owned_rollback_metadata route.owner owner_route)
        || not (safe_main_server_bypass_route route)
      then pure (some ("refuse to rollback ambiguous main-table route " <> route.cidr))
      else (run env "ip" (
            "-4"
            ∷ "route"
            ∷ "del"
            ∷ trim_space route.cidr
            ∷ "via"
            ∷ trim_space route.via
            ∷ "dev"
            ∷ trim_space route.dev
            ∷ "table"
            ∷ main_routing_table
            ∷ [])
          >>= λ e. pure (
              unless_missing
                ("delete main-table server bypass route "
                  <> trim_space route.cidr
                  <> " via "
                  <> trim_space route.via
                  <> " dev "
                  <> trim_space route.dev)
                e))

  route_result : RouteRollback → M CleanupResult
  route_result route =
      let candidate = resource "route" "route" (route.cidr <> " table " <> route.table) in
      if not (owned_rollback_metadata route.owner owner_route)
      then pure (skipped candidate "non-podlaz route metadata")
      else if safe_main_server_bypass_route route
      then (rollback_main_server_bypass_route route >>= λ e. pure (report candidate e))
      else if trim_space route.table == main_routing_table
      then pure (skipped candidate "ambiguous or non-podlaz main-table route")
      else if is_none (managed_table_token route.table)
      then pure (skipped candidate "ambiguous or non-podlaz route table")
      else if not (trim_space route.dev == "") && not (route.dev == managed_interface)
      then pure (skipped candidate "ambiguous or non-podlaz route device")
      else (rollback_route env (record route { owner = transaction_owner }) >>= λ e.
          pure (report candidate e))

  unfoldable pub rollback_route_results : List RouteRollback → M (List CleanupResult)
  unfolding route_result
  rollback_route_results = for_each route_result

  tun_result : TunRollback → M CleanupResult
  tun_result tun =
      let candidate = resource "tun-interface" "TUN interface" tun.interface_name in
      if not (owned_rollback_metadata tun.owner owner_tun_device)
        || not (tun.interface_name == managed_interface)
      then pure (skipped candidate "ambiguous or non-podlaz TUN target")
      else (rollback_tun env (record tun { owner = transaction_owner }) >>= λ e.
          pure (report candidate e))

  unfoldable pub rollback_tun_results : List TunRollback → M (List CleanupResult)
  unfolding tun_result
  rollback_tun_results = for_each tun_result

  generated_config_result : String → GeneratedConfigRollback → M CleanupResult
  generated_config_result runtime_dir config =
      let candidate = resource "generated-runtime-config" "generated runtime config" config.path in
      if not (config.owner == transaction_owner)
      then pure (skipped candidate "non-podlaz generated config metadata")
      else if not (is_under_dir (generated_dir runtime_dir) (clean config.path))
      then pure (skipped candidate "generated config path is outside podlaz runtime state")
      else (remove_generated_config env runtime_dir config >>= λ e. pure (report candidate e))

  unfoldable pub rollback_generated_config_results :
      String → List GeneratedConfigRollback → M (List CleanupResult)
  unfolding generated_config_result
  rollback_generated_config_results runtime_dir = for_each (generated_config_result runtime_dir)
