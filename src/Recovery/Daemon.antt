-- ===== src/Recovery/Daemon.antt =====
-- internal/recovery/daemon_executor.go: `DaemonCleanupExecutor`, the privileged recovery.
pub mod Safety
pub mod Preserved
use tunwarden.Prelude.{
  String, Bool, true, false, not, ◌||◌, Option, none, some, List, [], ◌∷◌, ◌++◌, if◌then◌else◌,
  ◌==◌,
}
use tunwarden.Result.{Result, ok, err}
use tunwarden.Text.{◌<>◌, trim_space}
use tunwarden.FilePath.{clean}
use tunwarden.State.Lifecycle.{requires_cleanup}
use tunwarden.State.Transaction.{Transaction, RollbackMetadata}
use tunwarden.Recovery.Host.{Env, OsError, M, ◌>>=◌, pure, remove, load_transaction}
use tunwarden.Recovery.Results.{
  Candidate, TransactionCandidate, CleanupResult, recovered, skipped, failed, is_transaction_path,
  same_clean_path,
}
use tunwarden.Recovery.Os.{
  with_defaults, unless_gone, cleanup_tun_interface, cleanup_nftables_table,
  cleanup_generated_runtime_configs,
}
use tunwarden.Recovery.Rollback.{
  rollback_child_process_results, rollback_nftables_results, rollback_dns_results,
  rollback_policy_rule_results, rollback_route_results, rollback_tun_results,
  rollback_generated_config_results,
}
use tunwarden.Recovery.Metadata.{has_failed_cleanup, has_skipped_cleanup}

abbrev pub failures_message : String
failures_message = "transaction cleanup completed with failures; transaction state was preserved"

abbrev pub skips_message : String
skips_message = "transaction cleanup skipped ambiguous resources; transaction state was preserved"

infixl 5 ◌then_also◌
-- the results of one step behind those of the steps before it
unfoldable pub ◌then_also◌ :
    M (List CleanupResult) → M (List CleanupResult) → M (List CleanupResult)
m then_also n = m >>= λ rs. n >>= λ qs. pure (rs ++ qs)

-- the text of the error of removing the transaction file
unfoldable pub removal_report : Candidate → String → Option OsError → CleanupResult
removal_report candidate path e = elim (unless_gone ("remove transaction state " <> path) e) [
  | none ↦ recovered candidate
  | some message ↦ failed candidate message
]

module _ (env : Env) (runtime_dir : String) where
  -- every resource of the metadata, in the order of the code
  unfoldable pub rollback_all : RollbackMetadata → M (List CleanupResult)
  unfolding ◌then_also◌
  rollback_all m =
      rollback_child_process_results env m.child_processes
      then_also rollback_nftables_results env m.nftables
      then_also rollback_dns_results env m.dns
      then_also rollback_policy_rule_results env m.policy_rules
      then_also rollback_route_results env m.routes
      then_also rollback_tun_results env m.tun
      then_also rollback_generated_config_results env runtime_dir m.generated_configs

  -- the transaction file goes only if nothing failed and nothing was skipped
  unfoldable pub settle : Candidate → String → List CleanupResult → M (List CleanupResult)
  unfolding removal_report has_failed_cleanup has_skipped_cleanup
  settle candidate path results =
      if has_failed_cleanup results
      then pure (results ++ failed candidate failures_message ∷ [])
      else if has_skipped_cleanup results
      then pure (results ++ skipped candidate skips_message ∷ [])
      else (remove env path >>= λ e. pure (results ++ removal_report candidate path e ∷ []))

  unfoldable pub cleanup_loaded :
      Candidate → String → Result String Transaction → M (List CleanupResult)
  unfolding rollback_all settle
  cleanup_loaded candidate path (err e) =
      pure (failed candidate ("load transaction state: " <> e) ∷ [])
  cleanup_loaded candidate path (ok tx) =
      if not (requires_cleanup tx)
      then pure (recovered candidate ∷ [])
      else (rollback_all tx.rollback >>= settle candidate path)

  unfoldable pub cleanup_transaction :
      Candidate → Option TransactionCandidate → M (List CleanupResult)
  unfolding cleanup_loaded
  cleanup_transaction candidate none = pure (skipped candidate "missing transaction summary" ∷ [])
  cleanup_transaction candidate (some transaction) =
      let path = clean transaction.path in
      if not (same_clean_path path candidate.target) || not (is_transaction_path runtime_dir path)
      then pure (skipped candidate "transaction path is outside podlaz runtime state" ∷ [])
      else (load_transaction env path >>= cleanup_loaded candidate path)

  unfoldable pub cleanup_transaction_state : Candidate → M (List CleanupResult)
  unfolding cleanup_transaction
  cleanup_transaction_state candidate = cleanup_transaction candidate candidate.transaction

module _ (env : Env) (runtime_dir : String) where
  one : M CleanupResult → M (List CleanupResult)
  one m = m >>= λ r. pure (r ∷ [])

  unfoldable pub cleanup_many : Candidate → M (List CleanupResult)
  unfolding one
  cleanup_many candidate =
      if trim_space candidate.kind == ""
      then pure (skipped candidate "missing recovery candidate kind" ∷ [])
      else if candidate.kind == "tun-interface"
      then one (cleanup_tun_interface env candidate)
      else if candidate.kind == "nftables-table"
      then one (cleanup_nftables_table env candidate)
      else if candidate.kind == "transaction-state"
      then cleanup_transaction_state env (with_defaults runtime_dir) candidate
      else if candidate.kind == "generated-runtime-configs"
      then one (cleanup_generated_runtime_configs env (with_defaults runtime_dir) candidate)
      else if candidate.kind == "runtime-directory"
      then pure (skipped candidate "runtime root cleanup is intentionally unsupported" ∷ [])
      else pure (skipped candidate "unsupported recovery candidate kind" ∷ [])

  -- the one result that stands for many
  summarise : Candidate → List CleanupResult → CleanupResult
  unfolding has_failed_cleanup has_skipped_cleanup
  summarise candidate [] = skipped candidate "no cleanup action produced a result"
  summarise candidate (r ∷ []) = r
  summarise candidate results =
      if has_failed_cleanup results
      then failed candidate "transaction cleanup completed with failures"
      else if has_skipped_cleanup results
      then skipped candidate "transaction cleanup skipped at least one resource"
      else recovered candidate

  unfoldable pub cleanup : Candidate → M CleanupResult
  unfolding summarise
  cleanup candidate = cleanup_many candidate >>= λ results. pure (summarise candidate results)
