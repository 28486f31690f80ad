-- ===== src/Network/Executor/TunDevice.antt =====
-- internal/network/executor/tun_device.go.
use tunwarden.Prelude.{
  is_positive, String, not, Option, none, some, List, [], ◌∷◌, ◌++◌, if◌then◌else◌, ◌==◌,
}
use tunwarden.Result.{Result, ok, err}
use tunwarden.Text.{◌<>◌, trim_space, int_text}
use tunwarden.Recovery.Host.{Env, M, ◌>>=◌, pure}
use tunwarden.Network.TunPlan.{TunDevicePlan}
use tunwarden.Network.Executor.Command.{Step, run_ip, failure_of, wrapped}

abbrev pub device_step : TunDevicePlan → Step
device_step plan = record {
  kind = "tun-device";
  target = plan.name;
  description = plan.reason;
  owner = "podlaz:tun-device";
}

-- an optional word and its value
abbrev owner_args : String → String → List String
owner_args word value = if not (trim_space value == "") then word ∷ trim_space value ∷ [] else []

abbrev pub create_args : String → String → TunDevicePlan → List String
create_args user group plan =
    ("tuntap" ∷ "add" ∷ "dev" ∷ plan.name ∷ "mode" ∷ "tun" ∷ [])
    ++ owner_args "user" user
    ++ owner_args "group" group

-- the step that follows a command, unless the command failed
abbrev pub then_step : String → M (Result String Step) → Option String → M (Result String Step)
then_step doing next none = next
then_step doing next (some m) = pure (err (doing <> ": " <> m))

module _ (env : Env) where
  unfoldable pub bring_up : TunDevicePlan → M (Result String Step)
  bring_up plan =
      run_ip env ("link" ∷ "set" ∷ "dev" ∷ plan.name ∷ "up" ∷ [])
      >>= then_step ("bring TUN device " <> plan.name <> " up") (pure (ok (device_step plan)))

  unfoldable pub set_mtu : TunDevicePlan → M (Result String Step)
  unfolding bring_up
  set_mtu plan =
      if is_positive plan.mtu
      then (run_ip env ("link" ∷ "set" ∷ "dev" ∷ plan.name ∷ "mtu" ∷ int_text plan.mtu ∷ [])
          >>= then_step ("set TUN device " <> plan.name <> " MTU") (bring_up plan))
      else bring_up plan

  -- with the user and the group of the executor
  unfoldable pub create_device : String → String → TunDevicePlan → M (Result String Step)
  unfolding set_mtu
  create_device user group plan =
      if plan.name == ""
      then pure (err "missing TUN device name")
      else (run_ip env (create_args user group plan)
          >>= then_step ("create TUN device " <> plan.name) (set_mtu plan))

  unfoldable pub verify_device : TunDevicePlan → M (Option String)
  verify_device plan = run_ip env ("link" ∷ "show" ∷ "dev" ∷ plan.name ∷ []) >>= λ e.
      pure (wrapped ("verify TUN device " <> plan.name) e)

  unfoldable pub rollback_device : TunDevicePlan → M (Option String)
  rollback_device plan =
      if plan.name == ""
      then pure none
      else (run_ip env ("link" ∷ "del" ∷ "dev" ∷ plan.name ∷ []) >>= λ e.
          pure (wrapped ("delete TUN device " <> plan.name) (failure_of e)))
