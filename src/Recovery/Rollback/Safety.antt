-- ===== src/Recovery/Rollback/Safety.antt =====
-- Undoing the rollback metadata of a transaction keeps to the allowed actions.
use tunwarden.Prelude.{String, ◌≡◌, Bool, true, false, not, ◌||◌, int_eq, List, [], ◌∷◌, arith}
use tunwarden.Text.{trim_space}
use tunwarden.Netip.{is_ipv4_host}
use tunwarden.State.Transaction.{
  TunRollback, RouteRollback, PolicyRuleRollback, DnsRollback, NftablesRollback,
  GeneratedConfigRollback, ChildProcessRollback,
}
use tunwarden.Recovery.Host.{Env, M}
use tunwarden.Recovery.Results.{CleanupResult}
use tunwarden.Recovery.Rollback.{
  rollback_child_process_results, rollback_nftables_results, nftables_results, rollback_dns_results,
  dns_result, rollback_policy_rule_results, policy_rule_result,
  rollback_main_server_bypass_policy_rule, rollback_route_results, route_result,
  rollback_main_server_bypass_route, rollback_tun_results, tun_result,
  rollback_generated_config_results, generated_config_result,
}
use tunwarden.Recovery.Metadata.{
  for_each, safe_main_server_bypass_policy_rule, safe_main_server_bypass_route,
  child_process_result,
}
use tunwarden.Recovery.Allowed.{
  Undo, Undoes, Safely-pure, Safely-bind, Safely-then, safely_rules, Safely-run, ip,
  delete_bypass_rule, delete_bypass_route,
}
use tunwarden.Recovery.Os.Safety.{
  rollback_nftables-Safely, rollback_dns-Safely, rollback_policy_rule-Safely, rollback_route-Safely,
  rollback_tun-Safely, remove_generated_config-Safely,
}

-- what the tests of a bypass rule and of a bypass route give
bypass_rule_priority :
    (rule : PolicyRuleRollback) (b : Bool)
    → (not b || not (safe_main_server_bypass_policy_rule rule)) ≡ false
    → int_eq rule.priority 9999 ≡ true
unfolding safe_main_server_bypass_policy_rule
bypass_rule_priority rule b h = ground arith

bypass_rule_host :
    (rule : PolicyRuleRollback) (b : Bool)
    → (not b || not (safe_main_server_bypass_policy_rule rule)) ≡ false
    → is_ipv4_host (trim_space rule.to) ≡ true
unfolding safe_main_server_bypass_policy_rule
bypass_rule_host rule b h = ground arith

bypass_route_host :
    (route : RouteRollback) (b : Bool)
    → (not b || not (safe_main_server_bypass_route route)) ≡ false
    → is_ipv4_host (trim_space route.cidr) ≡ true
unfolding safe_main_server_bypass_route
bypass_route_host route b h = ground arith

module _ (env : Env) (runtime_dir : String) where
  for_each-Safely :
      {A : Type 0} (f : A → M CleanupResult) (xs : List A)
      → ((a : A) → Undoes runtime_dir (f a))
      → Undoes runtime_dir (for_each f xs)
  for_each-Safely f [] k = search safely_rules
  for_each-Safely f (x ∷ xs) k =
      Safely-bind (Undo runtime_dir) (f x) _ (k x) (λ r.
        Safely-then (Undo runtime_dir) (for_each f xs) (λ rs. r ∷ rs) (for_each-Safely f xs k))

  pub child_processes-Safely :
      (xs : List ChildProcessRollback) → Undoes runtime_dir (rollback_child_process_results env xs)
  unfolding rollback_child_process_results
  child_processes-Safely xs =
      for_each-Safely _ xs (λ a. Safely-pure (Undo runtime_dir) (child_process_result a))

  nftables_results-Safely :
      (seen : List String) (xs : List NftablesRollback)
      → Undoes runtime_dir (nftables_results env seen xs)
  unfolding nftables_results
  nftables_results-Safely seen [] = search safely_rules
  nftables_results-Safely seen (x ∷ xs) =
      let rest : (s : List String) → Undoes runtime_dir (nftables_results env s xs) =
        λ s. nftables_results-Safely s xs in
      search (safely_rules, rest, rollback_nftables-Safely)

  pub nftables-Safely :
      (xs : List NftablesRollback) → Undoes runtime_dir (rollback_nftables_results env xs)
  unfolding rollback_nftables_results
  nftables-Safely xs = nftables_results-Safely [] xs

  dns_result-Safely : (x : DnsRollback) → Undoes runtime_dir (dns_result env x)
  unfolding dns_result
  dns_result-Safely x = search (safely_rules, rollback_dns-Safely)

  pub dns-Safely : (xs : List DnsRollback) → Undoes runtime_dir (rollback_dns_results env xs)
  unfolding rollback_dns_results
  dns-Safely xs = for_each-Safely _ xs dns_result-Safely

  bypass_rule-Safely :
      (x : PolicyRuleRollback) → Undoes runtime_dir (rollback_main_server_bypass_policy_rule env x)
  unfolding rollback_main_server_bypass_policy_rule
  bypass_rule-Safely x =
      search
        (safely_rules, Safely-run, ip, delete_bypass_rule, bypass_rule_priority, bypass_rule_host)

  policy_rule_result-Safely :
      (x : PolicyRuleRollback) → Undoes runtime_dir (policy_rule_result env x)
  unfolding policy_rule_result
  policy_rule_result-Safely x =
      search (safely_rules, bypass_rule-Safely, rollback_policy_rule-Safely) depth 7

  pub policy_rules-Safely :
      (xs : List PolicyRuleRollback) → Undoes runtime_dir (rollback_policy_rule_results env xs)
  unfolding rollback_policy_rule_results
  policy_rules-Safely xs = for_each-Safely _ xs policy_rule_result-Safely

  bypass_route-Safely :
      (x : RouteRollback) → Undoes runtime_dir (rollback_main_server_bypass_route env x)
  unfolding rollback_main_server_bypass_route
  bypass_route-Safely x =
      search (safely_rules, Safely-run, ip, delete_bypass_route, bypass_route_host)

  route_result-Safely : (x : RouteRollback) → Undoes runtime_dir (route_result env x)
  unfolding route_result
  route_result-Safely x = search (safely_rules, bypass_route-Safely, rollback_route-Safely) depth 9

  pub routes-Safely : (xs : List RouteRollback) → Undoes runtime_dir (rollback_route_results env xs)
  unfolding rollback_route_results
  routes-Safely xs = for_each-Safely _ xs route_result-Safely

  tun_result-Safely : (x : TunRollback) → Undoes runtime_dir (tun_result env x)
  unfolding tun_result
  tun_result-Safely x = search (safely_rules, rollback_tun-Safely)

  pub tun-Safely : (xs : List TunRollback) → Undoes runtime_dir (rollback_tun_results env xs)
  unfolding rollback_tun_results
  tun-Safely xs = for_each-Safely _ xs tun_result-Safely

  config_result-Safely :
      (x : GeneratedConfigRollback) → Undoes runtime_dir (generated_config_result env runtime_dir x)
  unfolding generated_config_result
  config_result-Safely x = search (safely_rules, remove_generated_config-Safely)

  pub configs-Safely :
      (xs : List GeneratedConfigRollback)
      → Undoes runtime_dir (rollback_generated_config_results env runtime_dir xs)
  unfolding rollback_generated_config_results
  configs-Safely xs = for_each-Safely _ xs config_result-Safely
