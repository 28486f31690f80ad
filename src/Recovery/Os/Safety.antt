-- ===== src/Recovery/Os/Safety.antt =====
-- Each method of `OSCleanupExecutor` keeps to the allowed actions.
use tunwarden.Prelude.{
  String, ◌≡◌, refl, ◌⊎◌, inl, inr, Bool, true, false, not, ◌==◌, Option, none, some, List, [], ◌∷◌,
  arith, eq_iff, eq_refl, ap,
}
use tunwarden.State.Transaction.{
  TunRollback, RouteRollback, PolicyRuleRollback, DnsRollback, NftablesRollback,
  GeneratedConfigRollback,
}
use tunwarden.Text.{trim_space}
use tunwarden.Recovery.Host.{Env, M}
use tunwarden.Recovery.Results.{
  Candidate, managed_interface, is_managed_nft_target, managed_table_token, is_under_dir,
  parse_nft_target,
}
use tunwarden.FilePath.{clean}
use tunwarden.Recovery.Os.{
  cleanup_tun_interface, cleanup_nftables_table, delete_nft_table,
  cleanup_generated_runtime_configs, rollback_nftables, nftables_errors, and_error,
  delete_managed_table, rollback_dns, rollback_policy_rule, delete_policy_rule, rollback_route,
  delete_route, route_command, rollback_tun, remove_generated_config,
}
use tunwarden.Recovery.Allowed.{
  Undoes, safely_rules, Safely-run, Safely-remove_all, ip, nft, resolvectl, delete_link,
  delete_table, revert_dns, delete_own_rule, delete_own_route,
}

not-eq-false : (b : Bool) → not b ≡ false → b ≡ true
not-eq-false b h = ground arith

managed_table_token-eq :
    (table token : String) → managed_table_token table ≡ some token → token ≡ "51820"
unfolding managed_table_token
managed_table_token-eq table token h = ground arith

is_under_dir_self : (dir : String) → is_under_dir dir dir ≡ true
unfolding is_under_dir
is_under_dir_self dir = rw (eq_refl (clean dir))

managed_target : is_managed_nft_target "inet" "podlaz" ≡ true
unfolding is_managed_nft_target trim_space
managed_target = refl

ruleset lines = (
  delete_link, delete_table, revert_dns, delete_own_rule, delete_own_route, managed_target,
  not-eq-false,
)

ruleset steps =
    (safely_rules, Safely-run, Safely-remove_all, ip, nft, resolvectl, lines, is_under_dir_self)

module _ (env : Env) (runtime_dir : String) where
  pub cleanup_tun_interface-Safely :
      (c : Candidate) → Undoes runtime_dir (cleanup_tun_interface env c)
  unfolding cleanup_tun_interface
  cleanup_tun_interface-Safely c = search steps

  delete_nft_table-Safely :
      (c : Candidate) (t : Option (String × String)) → Undoes runtime_dir (delete_nft_table env c t)
  unfolding delete_nft_table
  delete_nft_table-Safely c none = search steps
  delete_nft_table-Safely c (some (family, table)) = search steps

  pub cleanup_nftables_table-Safely :
      (c : Candidate) → Undoes runtime_dir (cleanup_nftables_table env c)
  unfolding cleanup_nftables_table
  cleanup_nftables_table-Safely c = delete_nft_table-Safely c (parse_nft_target c.target)

  pub cleanup_generated_runtime_configs-Safely :
      (c : Candidate) → Undoes runtime_dir (cleanup_generated_runtime_configs env runtime_dir c)
  unfolding cleanup_generated_runtime_configs
  cleanup_generated_runtime_configs-Safely c = search steps

  and_error-Safely :
      (e : Option String) (m : M (List String))
      → Undoes runtime_dir m
      → Undoes runtime_dir (and_error env e m)
  unfolding and_error
  and_error-Safely none m k = k
  and_error-Safely (some e) m k = search steps

  delete_managed_table-Safely : Undoes runtime_dir (delete_managed_table env)
  unfolding delete_managed_table
  delete_managed_table-Safely = search steps

  nftables_errors-Safely :
      (seen : List String) (entries : List NftablesRollback)
      → Undoes runtime_dir (nftables_errors env seen entries)
  unfolding nftables_errors
  nftables_errors-Safely seen [] = search steps
  nftables_errors-Safely seen (entry ∷ entries) =
      let rest : (s : List String) → Undoes runtime_dir (nftables_errors env s entries) =
        λ s. nftables_errors-Safely s entries in
      search (steps, rest, delete_managed_table-Safely, and_error-Safely)

  pub rollback_nftables-Safely :
      (entries : List NftablesRollback) → Undoes runtime_dir (rollback_nftables env entries)
  unfolding rollback_nftables
  rollback_nftables-Safely entries = search (steps, nftables_errors-Safely)

  pub rollback_dns-Safely : (dns : DnsRollback) → Undoes runtime_dir (rollback_dns env dns)
  unfolding rollback_dns
  rollback_dns-Safely dns = search steps

  delete_policy_rule-Safely :
      (rule : PolicyRuleRollback) (token : Option String)
      → managed_table_token rule.table ≡ token
      → Undoes runtime_dir (delete_policy_rule env rule token)
  unfolding delete_policy_rule
  delete_policy_rule-Safely rule none h = search steps
  delete_policy_rule-Safely rule (some token) h =
      rw (managed_table_token-eq rule.table token h) (search steps)

  pub rollback_policy_rule-Safely :
      (rule : PolicyRuleRollback) → Undoes runtime_dir (rollback_policy_rule env rule)
  unfolding rollback_policy_rule
  rollback_policy_rule-Safely rule =
      search (steps, delete_policy_rule-Safely rule (managed_table_token rule.table) refl)

  route_command-Safely :
      (route : RouteRollback) (device : List String)
      → (device ≡ []) ⊎ (device ≡ "dev" ∷ "podlaz0" ∷ [])
      → Undoes runtime_dir (route_command env "51820" route device)
  unfolding route_command
  route_command-Safely route device h = search steps

  -- the device of a route that has passed the test of its device
  own_device :
      (dev : String)
      → not (dev == managed_interface) ≡ false
      → "dev" ∷ dev ∷ [] ≡ "dev" ∷ "podlaz0" ∷ []
  own_device dev h =
      ap (λ (d : String). "dev" ∷ d ∷ []) ((eq_iff dev "podlaz0").0 (not-eq-false _ h))

  delete_route-Safely :
      (route : RouteRollback) (token : Option String)
      → managed_table_token route.table ≡ token
      → Undoes runtime_dir (delete_route env route token)
  unfolding delete_route
  delete_route-Safely route none h = search steps
  delete_route-Safely route (some token) h = rw (managed_table_token-eq route.table token h) (
      search (
        steps,
        route_command-Safely route [] (inl refl),
        λ (own : not (route.dev == managed_interface) ≡ false).
            route_command-Safely route ("dev" ∷ route.dev ∷ []) (inr (own_device route.dev own)),
      ))

  pub rollback_route-Safely :
      (route : RouteRollback) → Undoes runtime_dir (rollback_route env route)
  unfolding rollback_route
  rollback_route-Safely route =
      search (steps, delete_route-Safely route (managed_table_token route.table) refl)

  pub rollback_tun-Safely : (tun : TunRollback) → Undoes runtime_dir (rollback_tun env tun)
  unfolding rollback_tun
  rollback_tun-Safely tun = search steps

  pub remove_generated_config-Safely :
      (config : GeneratedConfigRollback)
      → Undoes runtime_dir (remove_generated_config env runtime_dir config)
  unfolding remove_generated_config
  remove_generated_config-Safely config = search steps
