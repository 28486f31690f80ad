-- ===== src/Recovery/Os.antt =====
-- internal/recovery/recovery.go: `OSCleanupExecutor`, which undoes one resource at a time. An error
-- is its text, and `none` is Go's nil.
pub mod Safety
use tunwarden.Prelude.{
  String, Bool, true, false, not, ◌&&◌, ◌||◌, ℤ, is_positive, Option, none, some, List, [], ◌∷◌,
  ◌++◌, is_empty, any, if◌then◌else◌, ◌==◌,
}
use tunwarden.Text.{◌<>◌, trim_space, join, int_text}
use tunwarden.FilePath.{clean, join_path}
use tunwarden.State.Lifecycle.{transaction_owner}
use tunwarden.State.Transaction.{
  TunRollback, RouteRollback, PolicyRuleRollback, DnsRollback, NftablesRollback,
  GeneratedConfigRollback,
}
use tunwarden.Recovery.Host.{Env, OsError, not_exist, other_error, M, ◌>>=◌, pure, remove_all}
use tunwarden.Recovery.Command.{run, unless_missing, command_error_is_missing}
use tunwarden.Recovery.Results.{
  Candidate, CleanupResult, recovered, skipped, failed, default_runtime_dir, generated_dir_name,
  managed_interface, managed_nft_family, managed_nft_table_name, managed_nft_table,
  parse_nft_target, is_managed_nft_target, managed_table_token, is_under_dir, same_clean_path,
}

-- the runtime directory that `withDefaults` settles on
unfoldable pub with_defaults : String → String
with_defaults runtime_dir =
    clean (if trim_space runtime_dir == "" then default_runtime_dir else runtime_dir)

abbrev pub generated_dir : String → String
generated_dir runtime_dir = join_path (runtime_dir ∷ generated_dir_name ∷ [])

-- a result from an error
abbrev pub report : Candidate → Option String → CleanupResult
report candidate none = recovered candidate
report candidate (some e) = failed candidate e

-- the text of an error other than ErrNotExist, wrapped
abbrev pub unless_gone : String → Option OsError → Option String
unless_gone wrapped none = none
unless_gone wrapped (some not_exist) = none
unless_gone wrapped (some (other_error e)) = some (wrapped <> ": " <> e)

-- the error itself, not wrapped: `failed(candidate, err)`
abbrev pub unless_missing_bare : Option String → Option String
unless_missing_bare none = none
unless_missing_bare (some e) = if command_error_is_missing e then none else some e

-- an optional selector of a command line, trimmed
abbrev pub selector : String → String → List String
selector word value = if trim_space value == "" then [] else word ∷ trim_space value ∷ []

module _ (env : Env) where
  unfoldable pub cleanup_tun_interface : Candidate → M CleanupResult
  cleanup_tun_interface candidate =
      if not (candidate.target == managed_interface)
      then pure (skipped candidate "non-podlaz TUN interface target")
      else do
        e ← run env "ip" ("link" ∷ "del" ∷ "dev" ∷ managed_interface ∷ [])
        pure (report candidate (unless_missing_bare e))

  delete_nft_table : Candidate → Option (String × String) → M CleanupResult
  delete_nft_table candidate none = pure (skipped candidate "non-podlaz nftables target")
  delete_nft_table candidate (some (family, table)) =
      if not (is_managed_nft_target family table)
      then pure (skipped candidate "non-podlaz nftables target")
      else do
        e ← run env "nft" ("delete" ∷ "table" ∷ family ∷ table ∷ [])
        pure (report candidate (unless_missing_bare e))

  unfoldable pub cleanup_nftables_table : Candidate → M CleanupResult
  unfolding delete_nft_table
  cleanup_nftables_table candidate = delete_nft_table candidate (parse_nft_target candidate.target)

  unfoldable pub cleanup_generated_runtime_configs : String → Candidate → M CleanupResult
  cleanup_generated_runtime_configs runtime_dir candidate =
      if not (same_clean_path candidate.target (generated_dir runtime_dir))
      then pure (skipped candidate "generated runtime config path is outside podlaz runtime state")
      else do
        e ← remove_all env (generated_dir runtime_dir)
        pure (
            report candidate
              (unless_gone ("remove generated runtime configs " <> generated_dir runtime_dir) e))

  delete_managed_table : M (Option String)
  delete_managed_table = do
    e ← run env "nft" ("delete" ∷ "table" ∷ managed_nft_family ∷ managed_nft_table_name ∷ [])
    pure (unless_missing ("delete nftables table " <> managed_nft_table) e)

  and_error : Option String → M (List String) → M (List String)
  and_error none rest = rest
  and_error (some e) rest = do errors ← rest; pure (e ∷ errors)

  -- the loop of `rollbackNFTables`, with the keys seen so far
  nftables_errors : List String → List NftablesRollback → M (List String)
  unfolding delete_managed_table and_error
  nftables_errors seen [] = pure []
  nftables_errors seen (entry ∷ entries) =
      let key = entry.family <> " " <> entry.table in
      let foreign =
        not (entry.owner == transaction_owner)
        || not (is_managed_nft_target entry.family entry.table) in
      let known = any (λ k. k == key) seen in
      let rest = nftables_errors (if foreign || known then seen else key ∷ seen) entries in
      if foreign
      then and_error
          (some (
            "refuse to rollback non-podlaz nftables target " <> entry.family <> " " <> entry.table))
          rest
      else if known
      then rest
      else do e ← delete_managed_table; and_error e rest

  joined_errors : List String → Option String
  joined_errors [] = none
  joined_errors (e ∷ errors) = some (join "\n" (e ∷ errors))

  unfoldable pub rollback_nftables : List NftablesRollback → M (Option String)
  unfolding nftables_errors joined_errors
  rollback_nftables entries = do errors ← nftables_errors [] entries; pure (joined_errors errors)

  unfoldable pub rollback_dns : DnsRollback → M (Option String)
  rollback_dns dns =
      if not (dns.owner == transaction_owner)
        || not (dns.link == managed_interface)
        || (not (dns.backend == "") && not (dns.backend == "systemd-resolved"))
      then pure (
          some (
            "refuse to rollback ambiguous DNS target link=" <> dns.link <> " backend="
            <> dns.backend))
      else do
        e ← run env "resolvectl" ("revert" ∷ managed_interface ∷ [])
        pure (unless_missing ("revert systemd-resolved DNS for " <> managed_interface) e)

  delete_policy_rule : PolicyRuleRollback → Option String → M (Option String)
  delete_policy_rule rule none = pure (
      some (
        "refuse to rollback policy rule priority "
        <> int_text rule.priority
        <> " with non-podlaz table "
        <> rule.table))
  delete_policy_rule rule (some table) = do
    e ← run env "ip" (
        ("-4" ∷ "rule" ∷ "del" ∷ "priority" ∷ int_text rule.priority ∷ [])
        ++ selector "from" rule.from
        ++ selector "to" rule.to
        ++ selector "fwmark" rule.mark
        ++ ("lookup" ∷ table ∷ []))
    pure (unless_missing ("delete policy rule priority " <> int_text rule.priority) e)

  unfoldable pub rollback_policy_rule : PolicyRuleRollback → M (Option String)
  unfolding delete_policy_rule
  rollback_policy_rule rule =
      if not (rule.owner == transaction_owner)
      then pure
          (some ("refuse to rollback non-podlaz policy rule priority " <> int_text rule.priority))
      else if not (is_positive rule.priority)
      then pure none
      else delete_policy_rule rule (managed_table_token rule.table)

  route_command : String → RouteRollback → List String → M (Option String)
  route_command table route device = do
    e ← run env "ip" (
        ("-4" ∷ "route" ∷ "del" ∷ trim_space route.cidr ∷ [])
        ++ selector "via" route.via
        ++ device
        ++ ("table" ∷ table ∷ []))
    pure (unless_missing ("delete route " <> route.cidr <> " table " <> route.table) e)

  delete_route : RouteRollback → Option String → M (Option String)
  unfolding route_command
  delete_route route none =
      pure (
        some
          ("refuse to rollback route " <> route.cidr <> " with non-podlaz table " <> route.table))
  delete_route route (some table) =
      if trim_space route.cidr == ""
      then pure none
      else if trim_space route.dev == ""
      then route_command table route []
      else if not (route.dev == managed_interface)
      then pure (
          some
            ("refuse to rollback route " <> route.cidr <> " with non-podlaz device " <> route.dev))
      else route_command table route ("dev" ∷ route.dev ∷ [])

  unfoldable pub rollback_route : RouteRollback → M (Option String)
  unfolding delete_route
  rollback_route route =
      if not (route.owner == transaction_owner)
      then pure
          (some ("refuse to rollback non-podlaz route " <> route.cidr <> " table " <> route.table))
      else delete_route route (managed_table_token route.table)

  unfoldable pub rollback_tun : TunRollback → M (Option String)
  rollback_tun tun =
      if not (tun.owner == transaction_owner) || not (tun.interface_name == managed_interface)
      then pure (some ("refuse to rollback non-podlaz TUN interface " <> tun.interface_name))
      else do
        e ← run env "ip" ("link" ∷ "del" ∷ "dev" ∷ managed_interface ∷ [])
        pure (unless_missing ("delete TUN device " <> managed_interface) e)

  unfoldable pub remove_generated_config : String → GeneratedConfigRollback → M (Option String)
  remove_generated_config runtime_dir config =
      if not (config.owner == transaction_owner)
      then pure (some ("refuse to remove non-podlaz generated config " <> config.path))
      else if not (is_under_dir (generated_dir runtime_dir) (clean config.path))
      then pure
          (some ("refuse to remove generated config outside podlaz runtime state: " <> config.path))
      else do
        e ← remove_all env (clean config.path)
        pure (unless_gone ("remove generated config " <> clean config.path) e)

-- `Cleanup` of the executor that is not privileged
unfoldable pub os_cleanup : Env → String → Candidate → M CleanupResult
os_cleanup env runtime_dir candidate =
    if trim_space candidate.kind == ""
    then pure (skipped candidate "missing recovery candidate kind")
    else if candidate.kind == "tun-interface"
    then cleanup_tun_interface env candidate
    else if candidate.kind == "nftables-table"
    then cleanup_nftables_table env candidate
    else if candidate.kind == "transaction-state"
    then pure (skipped candidate "transaction rollback requires daemon safety validation")
    else if candidate.kind == "generated-runtime-configs"
    then cleanup_generated_runtime_configs env (with_defaults runtime_dir) candidate
    else if candidate.kind == "runtime-directory"
    then pure (skipped candidate "runtime root cleanup is intentionally unsupported")
    else pure (skipped candidate "unsupported recovery candidate kind")
