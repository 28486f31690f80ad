-- ===== src/Examples/Connect.antt =====
-- Runs of the whole executor and of the daemon's TUN transaction.
use tunwarden.Prelude.{◌≡◌, refl, sym, ◌↔◌, true, none, some, String, [], ◌∷◌, ◌++◌}
use tunwarden.Result.{err}
use tunwarden.Text.{trim_space}
use tunwarden.State.Transaction.{Transaction}
use tunwarden.Recovery.Host.{Action, removed, Env}
use tunwarden.Network.Snapshot.{Snapshot}
use tunwarden.Network.TunPlan.{TunPlan}
use tunwarden.Network.Planner.{plan_for}
use tunwarden.Network.Firewall.{loopback_firewall_rule}
use tunwarden.Network.Executor.Undone.{commands, undoing}
use tunwarden.Network.Executor.Resolved.{should_apply_dns}
use tunwarden.Network.Executor.Nftables.{nft_output_contains_rule, should_apply_firewall}
use tunwarden.Network.Executor.Nftables.Match.{ShowsRule, nft_output_contains_rule_iff}
use tunwarden.Network.Executor.Nftables.Run.{apply_firewall, rollback_firewall}
use tunwarden.Network.Executor.Nftables.Owned.{Adds, OnOwnTable, firewall_stays_in_own_table}
use tunwarden.Network.Executor.Nftables.Failing.{Clean, table_args, failed_apply_is_clean}
use tunwarden.Network.Executor.Full.{new_os_dns_executor, full_rollback, validate_plan}
use tunwarden.Network.Executor.Full.Undone.{full_rollback_tries_everything}
use tunwarden.Network.Executor.Full.Planned.{IsReady, planned_tun_is_accepted}
use tunwarden.Daemon.Metadata.{rollback_metadata_from_tun_plan}
use tunwarden.Daemon.Restored.{tun_plan_from_transaction}
use tunwarden.Daemon.RoundTrip.{disconnect_undoes_plan}
use tunwarden.Daemon.World.{World}
use tunwarden.Daemon.Run.{Surroundings, os_plan_executor}
use tunwarden.Daemon.Connect.{first_tx, run_tun_transaction}
use tunwarden.Daemon.Connect.Outcome.{Ended, run_tun_transaction_ends}
use tunwarden.Examples.Network
use tunwarden.Examples.Network.{profile, options, detected, missing}
use tunwarden.Examples.Executor.{quiet_host, host_without_flush}
use tunwarden.Examples.State.{platform, failing_disk}

-- a host on which nft can be used
abbrev ready_host : Snapshot
ready_host = record Network.host {
  nftables = record { availability = detected; podlaz_table = missing };
}

abbrev ready : IsReady ready_host
ready = record { resolved = refl; nft = refl; no_table = refl }

abbrev pub plan : TunPlan
plan = plan_for profile ready_host options "203.0.113.10"

-- a host on which every command of nft but the first fails
abbrev host_without_rules : Env
host_without_rules = record quiet_host {
  run = λ log name args.
      (tunwarden.Examples.Executor.success, elim log [ [] ↦ none | _ ∷ _ ↦ some "denied" ]);
}

shown_table : String
shown_table =
    "table inet podlaz {\n oifname \"lo\" counter packets 0 bytes 0 accept comment \"podlaz:firewall:loopback\"\n}"

nft_output_contains_rule_iff_example :
    (nft_output_contains_rule shown_table (loopback_firewall_rule "add") ≡ true)
    ↔ ShowsRule shown_table (loopback_firewall_rule "add")
nft_output_contains_rule_iff_example =
    nft_output_contains_rule_iff shown_table (loopback_firewall_rule "add")

shown_table_shows : nft_output_contains_rule shown_table (loopback_firewall_rule "add") ≡ true
unfolding shown_table nft_output_contains_rule loopback_firewall_rule tunwarden.Text.split
    tunwarden.Text.is_space tunwarden.Network.Executor.Nftables.contains_ordered_fields
    tunwarden.Text.fields tunwarden.Network.Executor.Nftables.nft_expression_fields
    tunwarden.Network.Executor.Nftables.nft_rule_fields
    tunwarden.Network.Executor.Nftables.trim_quotes
shown_table_shows = refl

firewall_stays_in_own_table_example :
    Adds OnOwnTable (apply_firewall host_without_rules plan.firewall) []
    × Adds OnOwnTable (rollback_firewall host_without_rules plan.firewall) []
firewall_stays_in_own_table_example =
    firewall_stays_in_own_table host_without_rules plan.firewall []

abbrev denied : String
denied =
    "create nftables chain inet podlaz output: nft add chain inet podlaz output { type filter hook output priority 0 ; policy accept ; }: denied\nrollback nftables table after failed apply: delete nftables table inet podlaz: nft delete table inet podlaz: denied"

failed_apply_is_clean_example :
    Clean host_without_rules plan.firewall [] (apply_firewall host_without_rules plan.firewall []).1
unfolding apply_firewall plan_for trim_space rollback_firewall loopback_firewall_rule
    tunwarden.Network.Executor.Nftables.validate_firewall_plan
    tunwarden.Network.Executor.Nftables.first_error tunwarden.Network.Executor.Nftables.chain_error
    tunwarden.Network.Executor.Nftables.rule_error
    tunwarden.Network.Executor.Nftables.validate_owned_firewall_target
    tunwarden.Network.Firewall.firewall_plan tunwarden.Network.Firewall.table_action_of
    tunwarden.Network.Firewall.firewall_rules tunwarden.Network.Firewall.server_bypass_firewall_rule
    tunwarden.Network.Firewall.firewall_rule_action
    tunwarden.Network.Firewall.tun_egress_firewall_rule
    tunwarden.Network.Firewall.kill_switch_firewall_rule
    tunwarden.Network.Firewall.normalize_kill_switch_policy tunwarden.Text.has_prefix
    tunwarden.Text.to_lower tunwarden.Text.contains tunwarden.Text.join tunwarden.Text.itoa
    tunwarden.Text.int_text tunwarden.Recovery.Host.◌>>=◌ tunwarden.Recovery.Host.pure
    tunwarden.Recovery.Host.run_command tunwarden.Recovery.Command.command_succeeded
    tunwarden.Network.Executor.Command.run_tool
    tunwarden.Network.Executor.Command.command_error_text
    tunwarden.Network.Executor.Command.error_is_missing
    tunwarden.Network.Executor.Command.failure_of tunwarden.Network.Executor.Command.observe_command
    tunwarden.Network.Executor.Nftables.Run.add_chain
    tunwarden.Network.Executor.Nftables.Run.after_table
    tunwarden.Network.Executor.Nftables.Run.delete_owned_table
    tunwarden.Network.Executor.Nftables.Run.each_wanted
    tunwarden.Network.Executor.Nftables.Run.install tunwarden.Network.Executor.Nftables.Run.settled
failed_apply_is_clean_example =
    failed_apply_is_clean host_without_rules plan.firewall [] denied refl

full_rollback_tries_everything_example :
    commands (full_rollback (new_os_dns_executor host_without_flush) plan []).1
    ≡ commands []
      ++ (("nft" ∷ table_args "delete")
          ∷ ("resolvectl" ∷ "revert" ∷ trim_space plan.dns.target_link ∷ [])
          ∷ undoing plan)
unfolding plan_for tunwarden.Network.Parts.dns_plan tunwarden.Network.Firewall.firewall_plan
    trim_space
full_rollback_tries_everything_example =
    full_rollback_tries_everything host_without_flush plan [] (refl, refl) refl

planned_tun_is_accepted_example :
    (validate_plan plan ≡ none)
    × (should_apply_dns plan.dns ≡ true)
    × (should_apply_firewall plan.firewall ≡ true)
planned_tun_is_accepted_example =
    planned_tun_is_accepted profile ready_host options "203.0.113.10" ready

abbrev pub surroundings : Surroundings
surroundings = record {
  platform = platform;
  host = host_without_flush;
  processes = record {
    cmdline = λ log pid. err tunwarden.Recovery.Host.not_exist;
    terminate = λ log pid. none;
  };
  error_text = λ e. "failed";
  format_id = λ t. "20260101T000000.000000000Z";
}

abbrev world : World Transaction
world = record { disk = failing_disk; log = [] }

run_tun_transaction_ends_example :
    Ended surroundings
      (os_plan_executor host_without_flush)
      ""
      plan
      []
      (run_tun_transaction surroundings
        (os_plan_executor host_without_flush)
        ""
        "home"
        plan
        world).0
      (run_tun_transaction surroundings
        (os_plan_executor host_without_flush)
        ""
        "home"
        plan
        world).1
run_tun_transaction_ends_example =
    run_tun_transaction_ends surroundings (os_plan_executor host_without_flush) "" "home" plan world
      (λ t b h. sym h)

abbrev committed_tx : Transaction
unfolding first_tx
committed_tx = record (first_tx surroundings (os_plan_executor quiet_host) "" plan "home" 1 2 3) {
  rollback = rollback_metadata_from_tun_plan plan;
}

disconnect_undoes_plan_example :
    commands
      (full_rollback (new_os_dns_executor quiet_host) (tun_plan_from_transaction committed_tx) []).1
    ≡ commands (full_rollback (new_os_dns_executor quiet_host) plan []).1
unfolding trim_space committed_tx
disconnect_undoes_plan_example =
    disconnect_undoes_plan quiet_host profile ready_host options "203.0.113.10" committed_tx []
      ready (refl, refl) refl
