-- ===== src/Examples/Executor.antt =====
-- Runs of internal/network/executor at a host that answers.
use tunwarden.Prelude.{◌≡◌, refl, String, pos, none, some, List, [], ◌∷◌, ◌++◌, All, if◌then◌else◌}
use tunwarden.Result.{Result, err}
use tunwarden.Recovery.Host.{Action, CommandResult, Env}
use tunwarden.Network.Executor.Command.{Step}
use tunwarden.Network.Executor.Route.{route_args}
use tunwarden.Network.Executor.TunDevice.{device_step}
use tunwarden.Network.Executor.Tun.{new_os_executor, apply, verify, rollback}
use tunwarden.Network.Executor.Undone.{
  commands, route_deletion, rule_deletion, backwards, device_commands, is_flush,
  rollback_tries_everything,
}
use tunwarden.Network.Executor.ReadOnly.{Shows, verify_only_shown}
use tunwarden.Network.Executor.Applied.{Recorded}
use tunwarden.Network.Executor.Steps.{applied_steps_succeeded}
use tunwarden.Network.Planner.{planned_device}
use tunwarden.Examples.Network.{plan}

-- a host on which every command succeeds, and one on which the flush of the route cache fails
abbrev pub success : CommandResult
success = record { stdout = ""; stderr = ""; exit_code = pos 0 }

abbrev pub no_load : Result String tunwarden.State.Transaction.Transaction
no_load = err "not a transaction"

abbrev pub quiet_host : Env
quiet_host = record {
  look_path = λ log command. none;
  run = λ log path args. (success, none);
  remove_all = λ log path. none;
  remove = λ log path. none;
  load = λ log path. no_load;
}

abbrev pub host_without_flush : Env
host_without_flush = record quiet_host {
  run = λ log path args. (success, if is_flush path args then some "denied" else none);
}

rollback_tries_everything_example :
    commands (rollback (new_os_executor host_without_flush) plan []).1
    ≡ commands []
      ++ (backwards (λ r. r.action) rule_deletion plan.policy_rules
          ++ backwards (λ r. r.action) route_deletion plan.routes
          ++ device_commands plan.tun_device)
rollback_tries_everything_example = rollback_tries_everything host_without_flush plan []

verify_only_shown_example :
    (actions : List Action) × ((verify (new_os_executor quiet_host) plan []).1 ≡ [] ++ actions)
    × All Shows actions
verify_only_shown_example = verify_only_shown quiet_host plan []

applied_steps_succeeded_example :
    All
      (Recorded host_without_flush (apply (new_os_executor host_without_flush) plan []).1)
      (apply (new_os_executor host_without_flush) plan []).0.0
applied_steps_succeeded_example = applied_steps_succeeded host_without_flush plan []

-- A route is added, the flush behind it fails, and the steps that `Apply` returns do not name the route.
lost_route :
    (apply (new_os_executor host_without_flush) plan []).0.0 ≡ device_step planned_device ∷ []
unfolding apply tunwarden.Recovery.Host.◌>>=◌ new_os_executor
    tunwarden.Network.Executor.TunDevice.create_device tunwarden.Network.Planner.plan_for
    tunwarden.Network.Executor.Command.run_ip tunwarden.Recovery.Host.pure
    tunwarden.Network.Executor.Command.observe_command tunwarden.Recovery.Command.command_succeeded
    tunwarden.Recovery.Host.run_command tunwarden.Network.Executor.Tun.apply_all
    tunwarden.Network.Executor.Route.add_route
    tunwarden.Network.Executor.Route.main_server_bypass_route
    tunwarden.Network.Executor.Route.route_table tunwarden.Text.itoa
    tunwarden.Network.Executor.Route.add_missing_route route_args
    tunwarden.Network.Executor.Command.flush_ipv4_route_cache
    tunwarden.Network.Executor.Tun.append_applied_step tunwarden.Text.trim_space tunwarden.Text.join
    tunwarden.Network.Executor.Command.command_error_text
lost_route = refl
