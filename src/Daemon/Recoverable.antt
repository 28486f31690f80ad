-- ===== src/Daemon/Recoverable.antt =====
-- How recovery treats the rollback metadata of a planned tunnel.
use tunwarden.Prelude.{
  ◌≡◌, refl, ◌∙◌, String, true, false, Option, List, [], ◌∷◌, any, any-append, arith, ◌==◌,
}
use tunwarden.Result.{ok}
use tunwarden.Text.{trim_space}
use tunwarden.State.Transaction.{Transaction, RollbackMetadata}
use tunwarden.Network.Snapshot.{Snapshot, status_detected}
use tunwarden.Network.TunPlan.{TunOptions, TunPlan}
use tunwarden.Network.Parts.{concrete_server_bypass_ip, dns_plan}
use tunwarden.Network.Planner.{Profile, plan_for, plan_tun}
use tunwarden.Network.Planner.Routing.{ok_plan}
use tunwarden.Recovery.Host.{Action, Env, M, ◌>>=◌, pure}
use tunwarden.Recovery.Metadata.{owned_rollback_metadata, has_skipped_cleanup}
use tunwarden.State.Lifecycle.{requires_cleanup}
use tunwarden.Recovery.Daemon.{◌then_also◌, rollback_all, cleanup_loaded}
use tunwarden.Recovery.Daemon.Preserved.{is_removal, removed_iff_recovered}
use tunwarden.Recovery.Results.{Candidate, is_passed_over, CleanupResult, skipped, resource}
use tunwarden.Recovery.Rollback.{
  rollback_dns_results, rollback_child_process_results, rollback_nftables_results,
  rollback_policy_rule_results, rollback_route_results, rollback_tun_results,
  rollback_generated_config_results,
}
use tunwarden.Daemon.Metadata.{rollback_metadata_from_tun_plan}

dns_entry_is_skipped :
    (env : Env) (p : Profile) (s : Snapshot) (opts : TunOptions) (server_ip : String)
    (log : List Action)
    → (s.dns.resolved.status == status_detected) ≡ true
    → rollback_dns_results env
        (rollback_metadata_from_tun_plan (plan_for p s opts server_ip)).dns
        log
      ≡ (
        skipped
              (resource "dns" "DNS link state" "podlaz0")
              "ambiguous or non-podlaz DNS rollback target"
            ∷ [],
        log,
      )
unfolding rollback_metadata_from_tun_plan plan_for dns_plan rollback_dns_results
    owned_rollback_metadata trim_space pure ◌>>=◌
dns_entry_is_skipped env p s opts server_ip log h = rw h refl

-- some result of `m` says that a resource was skipped
record Skips (m : M (List CleanupResult)) : Type 0 where
  at : (log : List Action) → has_skipped_cleanup (m log).0 ≡ true

Skips-left : (m n : M (List CleanupResult)) → Skips m → Skips (m then_also n)
unfolding ◌then_also◌ ◌>>=◌ pure has_skipped_cleanup
Skips-left m n k = record {
  at = λ log. ground (
    arith,
    k.at log,
    any-append (λ (r : CleanupResult). is_passed_over r.status) (m log).0 (n (m log).1).0,
  );
}

Skips-right : (m n : M (List CleanupResult)) → Skips n → Skips (m then_also n)
unfolding ◌then_also◌ ◌>>=◌ pure has_skipped_cleanup
Skips-right m n k = record {
  at = λ log. ground (
    arith,
    k.at (m log).1,
    any-append (λ (r : CleanupResult). is_passed_over r.status) (m log).0 (n (m log).1).0,
  );
}

rollback_all-Skips :
    (env : Env) (runtime_dir : String) (m : RollbackMetadata)
    → Skips (rollback_dns_results env m.dns)
    → Skips (rollback_all env runtime_dir m)
unfolding rollback_all
rollback_all-Skips env runtime_dir m k =
    let first =
      rollback_child_process_results env m.child_processes
      then_also rollback_nftables_results env m.nftables in
    let dns = first then_also rollback_dns_results env m.dns in
    let rules = dns then_also rollback_policy_rule_results env m.policy_rules in
    let routes = rules then_also rollback_route_results env m.routes in
    let tun = routes then_also rollback_tun_results env m.tun in
    Skips-left tun (rollback_generated_config_results env runtime_dir m.generated_configs) (
      Skips-left routes (rollback_tun_results env m.tun) (
        Skips-left rules (rollback_route_results env m.routes) (
          Skips-left dns (rollback_policy_rule_results env m.policy_rules)
            (Skips-right first (rollback_dns_results env m.dns) k))))

planned-Skips :
    (env : Env) (p : Profile) (s : Snapshot) (opts : TunOptions) (server_ip : String)
    → (s.dns.resolved.status == status_detected) ≡ true
    → Skips (
        rollback_dns_results env
          (rollback_metadata_from_tun_plan (plan_for p s opts server_ip)).dns)
unfolding has_skipped_cleanup skipped
planned-Skips env p s opts server_ip h = record {
  at = λ log. rw (dns_entry_is_skipped env p s opts server_ip log h) refl;
}

-- Take a plan whose snapshot found systemd-resolved, and a transaction that needs cleanup and holds the rollback
-- metadata that the daemon writes for this plan. Then the privileged cleanup of the transaction never removes its
-- file, whatever the host answers: the DNS entry names the backend in the planner's words, which recovery does
-- not know, and is skipped.
pub planned_dns_blocks_recovery :
    (env : Env) (runtime_dir : String) (candidate : Candidate) (path : String) (tx : Transaction)
    (parse_ip : String → Option String) (p : Profile) (s : Snapshot) (opts : TunOptions)
    (plan : TunPlan)
    → plan_tun parse_ip p s opts ≡ ok plan
    → (s.dns.resolved.status == status_detected) ≡ true
    → tx.rollback ≡ rollback_metadata_from_tun_plan plan
    → requires_cleanup tx ≡ true
    → any is_removal (cleanup_loaded env runtime_dir candidate path (ok tx) []).1 ≡ false
unfolding plan_tun
planned_dns_blocks_recovery env runtime_dir candidate path tx parse_ip p s opts plan h resolved same
      needed =
    let server_ip = concrete_server_bypass_ip parse_ip s in
    let q = ok_plan parse_ip p s opts plan p.validation h in
    let k : Skips (rollback_dns_results env tx.rollback.dns) =
      rw (same, ← q) (planned-Skips env p s opts server_ip resolved) in
    let skips = (rollback_all-Skips env runtime_dir tx.rollback k).at [] in
    removed_iff_recovered env runtime_dir candidate path tx [] needed refl ∙ ground (arith, skips)
