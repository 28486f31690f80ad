-- ===== src/Daemon/Interrupted.antt =====
-- What recovery makes of a transaction whose daemon died while `Apply` ran.
use tunwarden.Prelude.{String, ◌≡◌, refl, List, [], ◌∷◌, ◌++◌}
use tunwarden.Result.{ok}
use tunwarden.State.Status.{applying, state_requires_cleanup}
use tunwarden.State.Transaction.{Transaction, empty_rollback}
use tunwarden.State.Lifecycle.{requires_cleanup}
use tunwarden.Recovery.Host.{Action, removed, Env, ◌>>=◌, pure, remove}
use tunwarden.Recovery.Results.{Candidate}
use tunwarden.Recovery.Metadata.{has_failed_cleanup, has_skipped_cleanup}
use tunwarden.Recovery.Daemon.{◌then_also◌, rollback_all, settle, cleanup_loaded}
use tunwarden.Recovery.Rollback.{
  rollback_dns_results, rollback_child_process_results, rollback_nftables_results,
  rollback_policy_rule_results, rollback_route_results, rollback_tun_results,
  rollback_generated_config_results,
}
use tunwarden.Network.TunPlan.{TunPlan}
use tunwarden.Daemon.Run.{Surroundings, TunPlanExecutor}
use tunwarden.State.Store.Atomic.{IsFaithful}
use tunwarden.State.Store.Durable.{Holds}
use tunwarden.Daemon.World
use tunwarden.Daemon.World.{World, on_host}
use tunwarden.Daemon.Connect.{after_apply, apply_run, before_apply, run_tun_transaction}
use tunwarden.Daemon.Connect.Prepared.{before_apply-Ready}

-- recovery of a transaction that is applying and has no rollback metadata
empty_metadata_is_forgotten :
    (env : Env) (runtime_dir : String) (candidate : Candidate) (path : String) (tx : Transaction)
    (log : List Action)
    → tx.state ≡ applying
    → tx.rollback ≡ empty_rollback
    → (cleanup_loaded env runtime_dir candidate path (ok tx) log).1 ≡ log ++ removed path ∷ []
unfolding cleanup_loaded settle requires_cleanup state_requires_cleanup has_failed_cleanup
    has_skipped_cleanup remove pure ◌>>=◌ rollback_all ◌then_also◌ rollback_child_process_results
    rollback_nftables_results rollback_dns_results rollback_policy_rule_results
    rollback_route_results rollback_tun_results rollback_generated_config_results
empty_metadata_is_forgotten env runtime_dir candidate path tx log s r = rw s (rw r refl)

-- `runTunTransaction` records how to undo a plan only behind `Apply`. If the store has done all that comes before
-- `Apply`, and the decoder reads back what was encoded, then the next thing that the run does is `Apply`, on the
-- disk as it is; and there the transaction's file holds the loaded transaction, in the state `applying`. If the
-- daemon dies while `Apply` runs, a recovery that loads this file only removes it: that is all it does to the
-- host, whatever the plan was and whatever was already applied.
pub interrupted_apply_is_forgotten :
    (x : Surroundings) (executor : TunPlanExecutor) (runtime_dir profile_id : String)
    (plan : TunPlan) (w w' : World x.platform.Bytes) (path at : String) (tx : Transaction)
    (env : Env) (candidate : Candidate) (file : String) (log : List Action)
    → IsFaithful x.platform
    → before_apply x executor runtime_dir profile_id plan w ≡ (ok (path, (tx, at)), w')
    → (run_tun_transaction x executor runtime_dir profile_id plan w
        ≡ after_apply x executor runtime_dir plan path tx
            (executor.apply plan w'.log).0
            (record w' { log = (executor.apply plan w'.log).1 }))
      × Holds x.platform runtime_dir tx w'.disk
      × (tx.state ≡ applying)
      × ((cleanup_loaded env runtime_dir candidate file (ok tx) log).1 ≡ log ++ removed file ∷ [])
unfolding run_tun_transaction apply_run World.◌>>=◌ on_host
interrupted_apply_is_forgotten x executor runtime_dir profile_id plan w w' path at tx env candidate
      file log faithful h =
    let (l, s, r, k) =
      rw h at (before_apply-Ready x executor runtime_dir profile_id plan w faithful) in
    (rw h refl, k, s, empty_metadata_is_forgotten env runtime_dir candidate file tx log s r)
