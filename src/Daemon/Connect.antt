-- ===== src/Daemon/Connect.antt =====
-- internal/daemon/tun_transaction.go: `runTunTransaction` and what follows it.
pub mod Outcome
pub mod Prepared
use tunwarden.Prelude.{
  String, Bool, not, Option, none, some, List, [], ◌∷◌, ◌++◌, is_positive, ℤ, pos, if◌then◌else◌,
  ◌==◌,
}
use tunwarden.Result.{Result, ok, err}
use tunwarden.Text.{◌<>◌}
use tunwarden.State.Status.{applying, applied, verifying, committed}
use tunwarden.State.Transaction.{Time, Transaction, CorePlan}
use tunwarden.State.Lifecycle.{new_transaction, transaction_owner}
use tunwarden.State.Store.{Platform, StoreError, load, store_transition}
use tunwarden.Network.TunPlan.{TunPlan}
use tunwarden.Network.Executor.Command.{Step}
use tunwarden.Network.Executor.Tun.{Applied}
use tunwarden.Daemon.Metadata.{rollback_metadata_from_tun_plan}
use tunwarden.Daemon.Desired.{
  snapshot_metadata, desired_plan_from_tun_plan, applied_steps_from_executor,
}
use tunwarden.Daemon.Partial.{rollback_plan_from_applied_steps}
use tunwarden.Daemon.World
use tunwarden.Daemon.World.{World, W, on_disk, on_host}
use tunwarden.Daemon.Run.{
  TunPlanExecutor, TunError, store_failed, apply_failed, verify_failed, record_failed,
  TunTransactionResult, Surroundings, error_of, done, read_clock, save_tx, rollback_tun_failure,
}

module _ (x : Surroundings) (executor : TunPlanExecutor) (runtime_dir : String) where
  open x use {platform, format_id}

  infixl 5 ◌>>=◌
  abbrev ◌>>=◌ : {A B : Type 0} → W platform A → (A → W platform B) → W platform B
  m >>= f = World.◌>>=◌ platform m f

  abbrev pub Outcome : Type 0
  Outcome = Result TunError TunTransactionResult

  -- `if err != nil { return err }` behind a call of the store
  abbrev pub stop_on :
      {A : Type 0} → (A → W platform Outcome) → Result StoreError A → W platform Outcome
  stop_on next (err e) = done x executor runtime_dir (err (store_failed e))
  stop_on next (ok a) = next a

  -- roll back what the steps name, and return the error
  unfoldable pub fail_run : TunPlan → Transaction → List Step → TunError → W platform Outcome
  fail_run plan tx steps cause =
      rollback_tun_failure x executor runtime_dir tx (rollback_plan_from_applied_steps plan steps)
        steps cause
      >>= λ e. done x executor runtime_dir (err e)

  unfoldable pub after_verify :
      TunPlan → String → List Step → Transaction → Option String → W platform Outcome
  unfolding fail_run
  after_verify plan path steps tx (some m) = fail_run plan tx steps (verify_failed m)
  after_verify plan path steps tx none =
      done x executor runtime_dir
        (ok (record { transaction_id = tx.id; transaction_path = path; plan = plan }))

  unfoldable pub verify_run :
      TunPlan → String → List Step → Transaction × String → W platform Outcome
  unfolding after_verify
  verify_run plan path steps (tx, at) =
      on_host platform (executor.verify plan) >>= after_verify plan path steps tx

  unfoldable pub after_verifying :
      TunPlan
      → String
      → List Step
      → Transaction
      → Result StoreError (Transaction × String)
      → W platform Outcome
  unfolding fail_run verify_run
  after_verifying plan path steps tx (err e) = fail_run plan tx steps (store_failed e)
  after_verifying plan path steps tx (ok moved) =
      on_disk platform (load platform runtime_dir tx.id) >>= stop_on (verify_run plan path steps)

  unfoldable pub after_applied :
      TunPlan
      → String
      → List Step
      → Transaction
      → Result StoreError (Transaction × String)
      → W platform Outcome
  unfolding fail_run after_verifying
  after_applied plan path steps tx (err e) = fail_run plan tx steps (store_failed e)
  after_applied plan path steps tx (ok moved) =
      on_disk platform (store_transition platform runtime_dir tx.id verifying)
      >>= after_verifying plan path steps tx

  unfoldable pub after_record :
      TunPlan → String → List Step → Transaction → Result StoreError String → W platform Outcome
  unfolding fail_run after_applied
  after_record plan path steps tx (err e) = fail_run plan tx steps (record_failed e)
  after_record plan path steps tx (ok saved) =
      on_disk platform (store_transition platform runtime_dir tx.id applied)
      >>= after_applied plan path steps tx

  unfoldable pub after_apply : TunPlan → String → Transaction → Applied → W platform Outcome
  unfolding fail_run after_record
  after_apply plan path tx (steps, some m) = fail_run plan tx steps (apply_failed m)
  after_apply plan path tx (steps, none) = read_clock x executor runtime_dir >>= λ t.
      let tx' = record tx {
        applied_steps = applied_steps_from_executor steps t;
        rollback = rollback_metadata_from_tun_plan (rollback_plan_from_applied_steps plan steps);
      } in
      save_tx x executor runtime_dir tx' >>= after_record plan path steps tx'

  unfoldable pub apply_run : TunPlan → String → Transaction × String → W platform Outcome
  unfolding after_apply
  apply_run plan path (tx, at) = on_host platform (executor.apply plan) >>= after_apply plan path tx

  -- the transaction that is saved first
  unfoldable pub first_tx : TunPlan → String → Time → Time → Time → Transaction
  first_tx plan profile_id id_time created captured =
      record (new_transaction ("tun-" <> format_id id_time) profile_id "tun" created
        platform.wall) {
          before_snapshot = snapshot_metadata plan.snapshot captured;
          desired_plan = desired_plan_from_tun_plan plan;
        }

  -- what the store has returned before `Apply`: the path of the first save, and the transaction as loaded
  abbrev pub Prepared : Type 0
  Prepared = Result StoreError (String × (Transaction × String))

  abbrev pub go_on :
      {A : Type 0} → (A → W platform Prepared) → Result StoreError A → W platform Prepared
  go_on next (err e) = done x executor runtime_dir (err e)
  go_on next (ok a) = next a

  -- from the first save to the load before `Apply`
  unfoldable pub prepare_run : Transaction → W platform Prepared
  prepare_run tx =
      save_tx x executor runtime_dir tx
      >>= go_on λ path.
        on_disk platform (store_transition platform runtime_dir tx.id applying)
        >>= go_on λ moved.
          on_disk platform (load platform runtime_dir tx.id)
          >>= go_on λ loaded. done x executor runtime_dir (ok (path, loaded))

  -- everything before `Apply`
  unfoldable pub before_apply : String → TunPlan → W platform Prepared
  unfolding first_tx prepare_run
  before_apply profile_id plan = read_clock x executor runtime_dir >>= λ id_time.
      read_clock x executor runtime_dir >>= λ created.
      read_clock x executor runtime_dir >>= λ captured.
      prepare_run (first_tx plan profile_id id_time created captured)

  unfoldable pub run_tun_transaction : String → TunPlan → W platform Outcome
  unfolding before_apply apply_run
  run_tun_transaction profile_id plan =
      before_apply profile_id plan >>= stop_on λ (path, loaded). apply_run plan path loaded

  unfoldable pub commit_tun_transaction : String → W platform (Option TunError)
  commit_tun_transaction id =
      on_disk platform (store_transition platform runtime_dir id committed) >>= λ r.
      done x executor runtime_dir (error_of r)

  -- the transaction with the rollback of the core's process and configuration
  unfoldable pub with_core : Transaction → String → ℤ → Time → Transaction
  with_core tx config pid now = record tx {
    desired_plan = record tx.desired_plan {
      core = record {
        runtime_config_path = config;
        process_label = "xray";
        owner = transaction_owner;
      };
    };
    rollback = record tx.rollback {
      generated_configs = record { path = config; owner = transaction_owner } ∷ [];
      child_processes =
          if is_positive pid
          then record {
            pid = pid;
            pid_file = "";
            label = "xray";
            config_ref = config;
            owner = transaction_owner;
          }
            ∷ []
          else tx.rollback.child_processes;
    };
    health = record {
      status = "core-started";
      checked_at = now;
      message = "Xray process stayed alive during startup verification";
    };
  }

  unfoldable pub save_core_rollback_metadata :
      String → String → ℤ → Time → W platform (Option TunError)
  unfolding with_core
  save_core_rollback_metadata id config pid now =
      on_disk platform (load platform runtime_dir id) >>= λ r. elim r [
        | err e ↦ done x executor runtime_dir (some (store_failed e))
        | ok (tx, at) ↦ save_tx x executor runtime_dir (with_core tx config pid now) >>= λ saved.
            done x executor runtime_dir (error_of saved)
      ]
