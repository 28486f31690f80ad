-- ===== src/Daemon/Processes.antt =====
-- internal/daemon/tun_child_process_rollback.go and `removeGeneratedConfig` of xray_runtime_config_helpers.go.
-- The processes of the host are a `Processes`: what /proc shows, and how a signal is answered.
-- os.FindProcess has no failure on Linux.
use tunwarden.Prelude.{
  String, Bool, false, not, ◌&&◌, ◌||◌, ℤ, is_positive, Option, none, some, List, [], ◌∷◌, ◌++◌,
  if◌then◌else◌, ◌==◌,
}
use tunwarden.Result.{Result, ok, err}
use tunwarden.Text.{◌<>◌, trim_space, contains, blanks_for_nul, int_text}
use tunwarden.FilePath.{dir}
use tunwarden.State.Transaction.{ChildProcessRollback, GeneratedConfigRollback}
use tunwarden.Recovery.Host.{
  Action, signalled, Env, OsError, not_exist, other_error, M, ◌>>=◌, pure, remove,
}

pub data SignalError : Type 0 where
  -- os.ErrProcessDone and syscall.ESRCH
  process_done : SignalError
  signal_error : String → SignalError

pub record Processes : Type 0 where
  -- the content of /proc/PID/cmdline
  pub cmdline : List Action → ℤ → Result OsError String
  pub terminate : List Action → ℤ → Option SignalError

unfoldable pub rollback_child_process_matches : ChildProcessRollback → String → Bool
rollback_child_process_matches child content =
    let cmdline = blanks_for_nul content in
    let label = trim_space child.label in
    if label == "xray"
    then contains cmdline "xray" && (child.config_ref == "" || contains cmdline child.config_ref)
    else if label == "tun2socks"
    then contains cmdline "tun2socks"
    else false

module _ (processes : Processes) where
  signal_failure : ChildProcessRollback → Option SignalError → List String
  signal_failure child none = []
  signal_failure child (some process_done) = []
  signal_failure child (some (signal_error e)) =
      ("stop child process " <> int_text child.pid <> " (" <> child.label <> "): " <> e) ∷ []

  unfoldable pub terminate_child : ChildProcessRollback → M (List String)
  unfolding signal_failure
  terminate_child child log =
      (signal_failure child (processes.terminate log child.pid), log ++ signalled child.pid ∷ [])

  stop_found : ChildProcessRollback → Result OsError String → M (List String)
  unfolding terminate_child
  stop_found child (err not_exist) = pure []
  stop_found child (err (other_error e)) = pure (e ∷ [])
  stop_found child (ok content) =
      if not (rollback_child_process_matches child content) then pure [] else terminate_child child

  unfoldable pub stop_child : ChildProcessRollback → M (List String)
  unfolding stop_found
  stop_child child log =
      if not (is_positive child.pid)
      then pure [] log
      else stop_found child (processes.cmdline log child.pid) log

  -- the errors that it joins
  unfoldable pub stop_rollback_child_processes : List ChildProcessRollback → M (List String)
  unfolding stop_child
  stop_rollback_child_processes [] = pure []
  stop_rollback_child_processes (child ∷ children) = stop_child child >>= λ errors.
      stop_rollback_child_processes children >>= λ more. pure (errors ++ more)

module _ (env : Env) where
  unfoldable pub remove_generated_config : String → M (Unit {0})
  remove_generated_config path =
      if path == ""
      then pure tt
      else (remove env path >>= λ e. remove env (dir path) >>= λ e'. pure tt)

  unfoldable pub remove_generated_configs : List GeneratedConfigRollback → M (Unit {0})
  unfolding remove_generated_config
  remove_generated_configs [] = pure tt
  remove_generated_configs (config ∷ configs) =
      remove_generated_config config.path >>= λ done. remove_generated_configs configs
