-- ===== src/Examples/Daemon.antt =====
-- The metadata that internal/daemon writes for a concrete plan, under recovery.
use tunwarden.Prelude.{◌≡◌, refl, false, [], any}
use tunwarden.Result.{ok}
use tunwarden.State.Status.{applying, state_requires_cleanup}
use tunwarden.State.Transaction.{Transaction}
use tunwarden.State.Lifecycle.{new_transaction, requires_cleanup}
use tunwarden.Network.Planner.{plan_tun}
use tunwarden.Daemon.Metadata.{rollback_metadata_from_tun_plan}
use tunwarden.Daemon.Recoverable.{planned_dns_blocks_recovery}
use tunwarden.Recovery.Daemon.{cleanup_loaded}
use tunwarden.Recovery.Daemon.Preserved.{is_removal}
use tunwarden.Examples.Network.{parse_ip, profile, options, plan}
use tunwarden.Examples.Network
use tunwarden.Examples.Recovery.{state_candidate}
use tunwarden.Examples.Recovery

-- an interrupted transaction with the metadata of the plan
abbrev planned_tx : Transaction
unfolding new_transaction
planned_tx = record (new_transaction "tx-1" "home" "tun" 5 5) {
  state = applying;
  rollback = rollback_metadata_from_tun_plan plan;
}

planned_dns_blocks_recovery_example :
    any is_removal
      (cleanup_loaded Recovery.host "/run/podlaz" state_candidate
        "/run/podlaz/transactions/tx-1.json"
        (ok planned_tx)
        []).1
    ≡ false
unfolding plan_tun planned_tx requires_cleanup state_requires_cleanup new_transaction
planned_dns_blocks_recovery_example =
    planned_dns_blocks_recovery Recovery.host "/run/podlaz" state_candidate
      "/run/podlaz/transactions/tx-1.json" planned_tx parse_ip profile Network.host options plan
      refl refl refl refl
