-- ===== src/Examples/Recovery.antt =====
-- Runs of internal/recovery at a concrete host.
use tunwarden.Prelude.{◌≡◌, refl, true, not, ◌||◌, pos, none, some, List, [], ◌∷◌, ◌++◌, any, All}
use tunwarden.Result.{ok}
use tunwarden.Text.{◌<>◌}
use tunwarden.State.Status.{applying}
use tunwarden.State.Transaction.{Transaction, empty_rollback}
use tunwarden.State.Lifecycle.{new_transaction, requires_cleanup}
use tunwarden.Recovery.Host.{Action, Env}
use tunwarden.Recovery.Results.{Candidate, resource}
use tunwarden.Recovery.Os.{with_defaults}
use tunwarden.Recovery.Metadata.{has_failed_cleanup, has_skipped_cleanup}
use tunwarden.Recovery.Allowed.{Allowed}
use tunwarden.Recovery.Daemon.{
  rollback_all, cleanup_loaded, cleanup_transaction_state, cleanup_many,
}
use tunwarden.Recovery.Daemon.Preserved.{
  is_removal, RecoveredButLast, removed_only_if_recovered, removed_iff_recovered,
}
use tunwarden.Recovery.Plan.{ScanResult, execute, order_cleanup_candidates}
use tunwarden.Recovery.Plan.Order.{of_kind, of_other_kinds, order_is_stable_sort}
use tunwarden.Recovery.Plan.Outcome.{daemon_executor, execute-Allowed}

-- an interrupted transaction that had created the TUN device
abbrev pub interrupted : Transaction
unfolding new_transaction
interrupted = record (new_transaction "tx-1" "home" "tun" 5 5) {
  state = applying;
  rollback = record empty_rollback {
    tun = record { interface_name = "podlaz0"; owner = "podlaz" } ∷ [];
  };
}

-- a host on which every command succeeds
abbrev pub host : Env
host = record {
  look_path = λ log command. some ("/usr/sbin/" <> command);
  run = λ log path args. (record { stdout = ""; stderr = ""; exit_code = pos 0 }, none);
  remove_all = λ log path. none;
  remove = λ log path. none;
  load = λ log path. ok interrupted;
}

abbrev pub state_candidate : Candidate
state_candidate = record {
  kind = "transaction-state";
  description = "transaction rollback state";
  target = "/run/podlaz/transactions/tx-1.json";
  transaction = some (record {
    id = "tx-1";
    state = "applying";
    status = "pending apply";
    rollback_available = true;
    requires_cleanup = true;
    path = "/run/podlaz/transactions/tx-1.json";
  });
}

abbrev two_candidates : ScanResult
two_candidates = record {
  candidates = resource "tun-interface" "TUN interface" "podlaz0" ∷ state_candidate ∷ [];
  warnings = [];
}

execute-Allowed_example :
    (actions : List Action) × ((execute (daemon_executor host "") two_candidates []).1
      ≡ [] ++ actions)
    × All (Allowed (with_defaults "")) actions
execute-Allowed_example = execute-Allowed host "" two_candidates []

removed_only_if_recovered_example : RecoveredButLast (cleanup_many host "" state_candidate []).0
unfolding cleanup_many tunwarden.Text.trim_space cleanup_transaction_state
    tunwarden.Recovery.Results.same_clean_path tunwarden.FilePath.clean tunwarden.Text.has_prefix
    tunwarden.Text.join tunwarden.Text.split tunwarden.Recovery.Results.is_transaction_path
    tunwarden.Recovery.Results.is_under_dir tunwarden.FilePath.join_path with_defaults
    tunwarden.FilePath.rel_below tunwarden.Recovery.Host.◌>>=◌
    tunwarden.Recovery.Host.load_transaction requires_cleanup interrupted
    tunwarden.Recovery.Host.pure tunwarden.FilePath.parts tunwarden.FilePath.render
    tunwarden.Recovery.Command.command_error_is_missing
    tunwarden.Recovery.Command.command_failure_message tunwarden.Recovery.Command.command_succeeded
    tunwarden.Recovery.Command.run tunwarden.Recovery.Command.run_found cleanup_loaded
    tunwarden.Recovery.Daemon.cleanup_transaction tunwarden.Recovery.Daemon.removal_report
    tunwarden.Recovery.Daemon.settle tunwarden.Recovery.Host.look_path
    tunwarden.Recovery.Host.remove tunwarden.Recovery.Host.run_command
    tunwarden.Recovery.Results.failed tunwarden.Recovery.Results.recovered
    tunwarden.Recovery.Results.skipped has_failed_cleanup has_skipped_cleanup new_transaction
    tunwarden.State.Status.state_requires_cleanup tunwarden.Text.contains tunwarden.Text.fields
    tunwarden.Text.has_suffix tunwarden.Text.int_text tunwarden.Text.is_space tunwarden.Text.itoa
    tunwarden.Text.to_lower rollback_all tunwarden.Recovery.Rollback.rollback_child_process_results
    tunwarden.Recovery.Rollback.rollback_nftables_results
    tunwarden.Recovery.Rollback.rollback_dns_results
    tunwarden.Recovery.Rollback.rollback_policy_rule_results
    tunwarden.Recovery.Rollback.rollback_route_results
    tunwarden.Recovery.Rollback.rollback_tun_results
    tunwarden.Recovery.Rollback.rollback_generated_config_results tunwarden.Recovery.Os.rollback_tun
    tunwarden.Recovery.Metadata.owned_rollback_metadata tunwarden.Recovery.Command.unless_missing
removed_only_if_recovered_example = removed_only_if_recovered host "" state_candidate refl

removed_iff_recovered_example :
    any is_removal
      (cleanup_loaded host "/run/podlaz" state_candidate "/run/podlaz/transactions/tx-1.json"
        (ok interrupted)
        []).1
    ≡ not (
        has_failed_cleanup (rollback_all host "/run/podlaz" interrupted.rollback []).0
        || has_skipped_cleanup (rollback_all host "/run/podlaz" interrupted.rollback []).0)
unfolding requires_cleanup interrupted new_transaction tunwarden.State.Status.state_requires_cleanup
removed_iff_recovered_example =
    removed_iff_recovered host "/run/podlaz" state_candidate "/run/podlaz/transactions/tx-1.json"
      interrupted [] refl refl

order_is_stable_sort_example :
    order_cleanup_candidates two_candidates.candidates
    ≡ of_kind "transaction-state" two_candidates.candidates
      ++ (of_kind "nftables-table" two_candidates.candidates
          ++ (of_kind "tun-interface" two_candidates.candidates
              ++ (of_kind "generated-runtime-configs" two_candidates.candidates
                  ++ (of_kind "runtime-directory" two_candidates.candidates
                      ++ of_other_kinds two_candidates.candidates))))
order_is_stable_sort_example = order_is_stable_sort two_candidates.candidates
