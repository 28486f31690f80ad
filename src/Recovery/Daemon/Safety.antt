-- ===== src/Recovery/Daemon/Safety.antt =====
-- Recovery touches nothing but the program's own resources.
use tunwarden.Prelude.{String, ◌≡◌, Bool, true, false, not, ◌||◌, Option, none, some, List, arith}
use tunwarden.Result.{Result, ok, err}
use tunwarden.State.Transaction.{Transaction, RollbackMetadata}
use tunwarden.Recovery.Host.{Env, M}
use tunwarden.Recovery.Results.{Candidate, TransactionCandidate, CleanupResult, is_transaction_path}
use tunwarden.Recovery.Os.{
  with_defaults, cleanup_tun_interface, cleanup_nftables_table, cleanup_generated_runtime_configs,
}
use tunwarden.Recovery.Daemon.{
  rollback_all, settle, cleanup_loaded, cleanup_transaction, cleanup_transaction_state,
  cleanup_many,
}
use tunwarden.Recovery.Allowed.{
  Allowed, Safely, Undo, Undoes, undo, Safely-weaken, safely_rules, Safely-remove, Safely-load,
}
use tunwarden.Recovery.Os.Safety.{
  cleanup_tun_interface-Safely, cleanup_nftables_table-Safely,
  cleanup_generated_runtime_configs-Safely,
}
use tunwarden.Recovery.Rollback.Safety.{
  child_processes-Safely, nftables-Safely, dns-Safely, policy_rules-Safely, routes-Safely,
  tun-Safely, configs-Safely,
}

path_of_test :
    (runtime_dir path : String) (b : Bool)
    → (not b || not (is_transaction_path runtime_dir path)) ≡ false
    → is_transaction_path runtime_dir path ≡ true
path_of_test runtime_dir path b h = ground arith

ruleset kinds = (
  child_processes-Safely, nftables-Safely, dns-Safely, policy_rules-Safely, routes-Safely,
  tun-Safely, configs-Safely,
)

module _ (env : Env) (runtime_dir : String) where
  pub rollback_all-Safely :
      (m : RollbackMetadata) → Undoes runtime_dir (rollback_all env runtime_dir m)
  unfolding rollback_all
  rollback_all-Safely m = search (safely_rules, kinds) depth 10

  weaker : {A : Type 0} (m : M A) → Undoes runtime_dir m → Safely (Allowed runtime_dir) m
  weaker m = Safely-weaken (Undo runtime_dir) (Allowed runtime_dir) m undo

  rollback_all-Allowed :
      (m : RollbackMetadata) → Safely (Allowed runtime_dir) (rollback_all env runtime_dir m)
  rollback_all-Allowed m = weaker _ (rollback_all-Safely m)

  settle-Safely :
      (c : Candidate) (path : String) (results : List CleanupResult)
      → is_transaction_path runtime_dir path ≡ true
      → Safely (Allowed runtime_dir) (settle env runtime_dir c path results)
  unfolding settle
  settle-Safely c path results h = search (safely_rules, Safely-remove)

  cleanup_loaded-Safely :
      (c : Candidate) (path : String) (r : Result String Transaction)
      → is_transaction_path runtime_dir path ≡ true
      → Safely (Allowed runtime_dir) (cleanup_loaded env runtime_dir c path r)
  unfolding cleanup_loaded
  cleanup_loaded-Safely c path (err e) h = search safely_rules
  cleanup_loaded-Safely c path (ok tx) h =
      search (safely_rules, rollback_all-Allowed, settle-Safely)

  cleanup_transaction-Safely :
      (c : Candidate) (t : Option TransactionCandidate)
      → Safely (Allowed runtime_dir) (cleanup_transaction env runtime_dir c t)
  unfolding cleanup_transaction
  cleanup_transaction-Safely c none = search safely_rules
  cleanup_transaction-Safely c (some t) =
      search (safely_rules, Safely-load, cleanup_loaded-Safely, path_of_test)

  cleanup_transaction_state-Safely :
      (c : Candidate) → Safely (Allowed runtime_dir) (cleanup_transaction_state env runtime_dir c)
  unfolding cleanup_transaction_state
  cleanup_transaction_state-Safely c = cleanup_transaction-Safely c c.transaction

module _ (env : Env) (runtime_dir : String) where
  tun-Allowed :
      (c : Candidate) → Safely (Allowed (with_defaults runtime_dir)) (cleanup_tun_interface env c)
  tun-Allowed c = weaker env _ _ (cleanup_tun_interface-Safely env _ c)

  table-Allowed :
      (c : Candidate) → Safely (Allowed (with_defaults runtime_dir)) (cleanup_nftables_table env c)
  table-Allowed c = weaker env _ _ (cleanup_nftables_table-Safely env _ c)

  configs-Allowed :
      (c : Candidate)
      → Safely
          (Allowed (with_defaults runtime_dir))
          (cleanup_generated_runtime_configs env (with_defaults runtime_dir) c)
  configs-Allowed c = weaker env _ _ (cleanup_generated_runtime_configs-Safely env _ c)

  pub cleanup_many-Safely :
      (c : Candidate)
      → Safely (Allowed (with_defaults runtime_dir)) (cleanup_many env runtime_dir c)
  unfolding cleanup_many
  cleanup_many-Safely c =
      search
        (
          safely_rules,
          tun-Allowed,
          table-Allowed,
          configs-Allowed,
          cleanup_transaction_state-Safely env (with_defaults runtime_dir),
        )
        depth 12
