-- ===== src/Daemon/Run.antt =====
-- internal/daemon/{tun_transaction,tun_transaction_rollback}.go: the run of a TUN transaction and its rollback.
pub mod Undone
use tunwarden.Prelude.{
  String, Bool, not, Option, none, some, List, [], ◌∷◌, ◌++◌, is_positive, ℤ, if◌then◌else◌, ◌==◌,
  is_empty,
}
use tunwarden.Result.{Result, ok, err}
use tunwarden.Text.{◌<>◌, join}
use tunwarden.State.Status.{
  TransactionState, applying, applied, verifying, committed, rolling_back, rolled_back, same_state,
}
use tunwarden.State.Transaction.{Time, Transaction, CorePlan}
use tunwarden.State.Lifecycle.{
  TransitionError, new_transaction, transition, mark_failure, transaction_owner,
}
use tunwarden.State.Store.{Platform, StoreError, refused, save, load, store_transition, now}
use tunwarden.Recovery.Host.{Env, M}
use tunwarden.Network.TunPlan.{TunPlan}
use tunwarden.Network.Executor.Command.{Step}
use tunwarden.Network.Executor.Tun.{Applied}
use tunwarden.Network.Executor.Full.{
  new_os_dns_executor, full_apply, full_verify, full_rollback, joined_errors,
}
use tunwarden.Daemon.Metadata.{rollback_metadata_from_tun_plan}
use tunwarden.Daemon.Desired.{
  snapshot_metadata, desired_plan_from_tun_plan, applied_steps_from_executor,
}
use tunwarden.Daemon.Partial.{rollback_plan_from_applied_steps}
use tunwarden.Daemon.Processes.{Processes, stop_rollback_child_processes, remove_generated_configs}
use tunwarden.Daemon.World
use tunwarden.Daemon.World.{World, W, pure, on_disk, on_host}

-- `tunPlanExecutor`, with the errors of a rollback that it joins
pub record TunPlanExecutor : Type 0 where
  pub apply : TunPlan → M Applied
  pub verify : TunPlan → M (Option String)
  pub rollback : TunPlan → M (List String)

unfoldable pub os_plan_executor : Env → TunPlanExecutor
os_plan_executor env = record {
  apply = full_apply (new_os_dns_executor env);
  verify = full_verify (new_os_dns_executor env);
  rollback = full_rollback (new_os_dns_executor env);
}

pub data TunError : Type 0 where
  store_failed : StoreError → TunError
  apply_failed verify_failed : String → TunError
  -- "record applied TUN plan"
  record_failed : StoreError → TunError
  rollback_errors : List String → TunError
  -- the cause, with a rollback behind it that succeeded or failed
  rolled_back_after : TunError → TunError
  rollback_failed : TunError → TunError → TunError

pub record TunTransactionResult : Type 0 where
  pub transaction_id : String
  pub transaction_path : String
  pub plan : TunPlan

-- What Go's library and the host supply besides the store's platform: the text of an error, which holds the words of
-- the system, and the printed form of the time in an id.
pub record Surroundings : Type 1 where
  pub platform : Platform
  pub host : Env
  pub processes : Processes
  pub error_text : TunError → String
  pub format_id : Time → String

unfoldable pub refusal : Result TransitionError Bool → Option TunError
refusal (ok changed) = none
refusal (err e) = some (store_failed (refused e))

unfoldable pub error_of : {A : Type 0} → Result StoreError A → Option TunError
error_of (ok a) = none
error_of (err e) = some (store_failed e)

module _ (x : Surroundings) (executor : TunPlanExecutor) (runtime_dir : String) where
  open x use {platform, host, processes, error_text, format_id}

  infixl 5 ◌>>=◌
  abbrev pub ◌>>=◌ : {A B : Type 0} → W platform A → (A → W platform B) → W platform B
  m >>= f = World.◌>>=◌ platform m f

  abbrev pub done : {A : Type 0} → A → W platform A
  done a = pure platform a

  -- `store.Now`; a clock that can be read does not fail
  unfoldable pub read_clock : W platform Time
  read_clock w = (platform.clock w.disk.reads, record w { disk = (now platform w.disk).1 })

  abbrev pub save_tx : Transaction → W platform (Result StoreError String)
  save_tx tx = on_disk platform (save platform runtime_dir tx)

  -- the end of `rollbackTunTransaction`
  unfoldable pub finish_rollback :
      Transaction → List String → W platform (Option TunError × Transaction)
  unfolding refusal error_of
  finish_rollback tx (e ∷ errors) = done (some (rollback_errors (e ∷ errors)), tx)
  finish_rollback tx [] = read_clock >>= λ t.
      let (r, tx') = transition tx rolled_back t platform.wall in
      elim (refusal r) [
        | some e ↦ done (some e, tx')
        | none ↦ save_tx tx' >>= λ saved. done (error_of saved, tx')
      ]

  -- an error of its own for each part that failed, as errors.Join prints them
  abbrev as_list : Option String → List String
  as_list none = []
  as_list (some e) = e ∷ []

  unfoldable pub undo_on_host : Transaction → TunPlan → W platform (List String)
  undo_on_host tx plan =
      on_host platform (stop_rollback_child_processes processes tx.rollback.child_processes)
      >>= λ stopped.
          on_host platform (remove_generated_configs host tx.rollback.generated_configs)
          >>= λ removed. on_host platform (executor.rollback plan) >>= λ undone.
              done (as_list (joined_errors stopped) ++ as_list (joined_errors undone))

  unfoldable pub undo_and_finish :
      Transaction → TunPlan → W platform (Option TunError × Transaction)
  unfolding undo_on_host finish_rollback
  undo_and_finish tx plan = undo_on_host tx plan >>= finish_rollback tx

  unfoldable pub rollback_saved :
      TunPlan → Transaction → Result StoreError String → W platform (Option TunError × Transaction)
  unfolding undo_and_finish
  rollback_saved plan tx (err e) = done (some (store_failed e), tx)
  rollback_saved plan tx (ok path) = undo_and_finish tx plan

  -- the transaction comes back, which the code changes in place
  unfoldable pub rollback_tun_transaction :
      Transaction → TunPlan → W platform (Option TunError × Transaction)
  unfolding refusal rollback_saved undo_and_finish
  rollback_tun_transaction tx plan =
      if same_state tx.state rolled_back
      then done (none, tx)
      else if same_state tx.state rolling_back
      then undo_and_finish tx plan
      else (read_clock >>= λ t.
          let (r, tx') = transition tx rolling_back t platform.wall in
          elim (refusal r) [
            | some e ↦ done (some e, tx')
            | none ↦ save_tx tx' >>= rollback_saved plan tx'
          ])

  unfoldable pub report_rollback : TunError → Option TunError × Transaction → W platform TunError
  report_rollback cause (none, tx) = done (rolled_back_after cause)
  report_rollback cause (some e, tx) = read_clock >>= λ t.
      save_tx (mark_failure tx (error_text e) t platform.wall).1 >>= λ saved.
      done (rollback_failed cause e)

  unfoldable pub rollback_tun_failure :
      Transaction → TunPlan → List Step → TunError → W platform TunError
  unfolding rollback_tun_transaction report_rollback
  rollback_tun_failure tx rollback_plan steps cause = read_clock >>= λ t.
      let tx' = record tx {
        applied_steps = applied_steps_from_executor steps t;
        rollback = rollback_metadata_from_tun_plan rollback_plan;
      } in
      save_tx tx' >>= λ saved. rollback_tun_transaction tx' rollback_plan >>= report_rollback cause
