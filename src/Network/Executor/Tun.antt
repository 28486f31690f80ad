-- ===== src/Network/Executor/Tun.antt =====
-- internal/network/executor/tun.go: `TunExecutor`. Its three parts are interfaces, here records of operations.
use tunwarden.Prelude.{String, not, Option, none, some, List, [], ◌∷◌, ◌++◌, if◌then◌else◌, ◌==◌}
use tunwarden.Result.{Result, ok, err}
use tunwarden.Text.{trim_space}
use tunwarden.Recovery.Host.{Env, M, ◌>>=◌, pure}
use tunwarden.Network.TunPlan.{TunDevicePlan, TunRoutePlan, TunPolicyRulePlan, TunPlan}
use tunwarden.Network.Executor.Command.{Step}
use tunwarden.Network.Executor.Route.{add_route, verify_route, rollback_route_plan}
use tunwarden.Network.Executor.PolicyRule.{
  add_policy_rule, verify_policy_rule, rollback_policy_rule_plan,
}
use tunwarden.Network.Executor.TunDevice.{create_device, verify_device, rollback_device}

-- `TunDeviceExecutor`, `RouteExecutor` and `PolicyRuleExecutor`: the same three operations on a part of a plan
pub record Part (P : Type 0) : Type 0 where
  pub add : P → M (Result String Step)
  pub verify : P → M (Option String)
  pub undo : P → M (Option String)

-- with parts that are all there
pub record TunExecutor : Type 0 where
  pub tun_device : Part TunDevicePlan
  pub routes : Part TunRoutePlan
  pub policy_rules : Part TunPolicyRulePlan

unfoldable pub new_os_executor : Env → TunExecutor
new_os_executor env = record {
  tun_device = record {
    add = create_device env "podlaz-xray" "podlaz-xray";
    verify = verify_device env;
    undo = rollback_device env;
  };
  routes = record {
    add = add_route env;
    verify = verify_route env;
    undo = rollback_route_plan env;
  };
  policy_rules = record {
    add = add_policy_rule env;
    verify = verify_policy_rule env;
    undo = rollback_policy_rule_plan env;
  };
}

-- the steps that were applied, and the error that stopped them
abbrev pub Applied : Type 0
Applied = List Step × Option String

unfoldable pub append_applied_step : List Step → Step → List Step
append_applied_step steps step = if trim_space step.kind == "" then steps else steps ++ step ∷ []

abbrev pub continue_with : List Step → (List Step → M Applied) → Result String Step → M Applied
continue_with steps next (err m) = pure (steps, some m)
continue_with steps next (ok step) = next (append_applied_step steps step)

-- one loop of `Apply` over the entries whose action is "add", and what comes after it
unfoldable pub apply_all :
    {P : Type 0}
    → (P → String)
    → (P → M (Result String Step))
    → List P
    → (List Step → M Applied)
    → List Step
    → M Applied
apply_all action add [] next steps = next steps
apply_all action add (x ∷ xs) next steps =
    let rest = apply_all action add xs next in
    if not (action x == "add") then rest steps else (add x >>= continue_with steps rest)

-- the first error of a loop of `Verify`, or what comes after it
unfoldable pub verify_all :
    {P : Type 0}
    → (P → String)
    → (P → M (Option String))
    → List P
    → M (Option String)
    → M (Option String)
verify_all action verify [] next = next
verify_all action verify (x ∷ xs) next =
    let rest = verify_all action verify xs next in
    if not (action x == "add")
    then rest
    else (verify x >>= λ e. elim e [ none ↦ rest | some m ↦ pure (some m) ])

abbrev pub with_error : List String → Option String → List String
with_error errors none = errors
with_error errors (some m) = errors ++ m ∷ []

-- one loop of `Rollback`: from the last entry to the first, on through errors
unfoldable pub undo_all :
    {P : Type 0} → (P → String) → (P → M (Option String)) → List P → List String → M (List String)
undo_all action undo [] errors = pure errors
undo_all action undo (x ∷ xs) errors = undo_all action undo xs errors >>= λ errors.
    if not (action x == "add") then pure errors else (undo x >>= λ e. pure (with_error errors e))

module _ (executor : TunExecutor) where
  unfoldable pub apply : TunPlan → M Applied
  apply plan =
      executor.tun_device.add plan.tun_device
      >>= continue_with [] (
          apply_all (λ r. r.action) executor.routes.add plan.routes
            (apply_all (λ r. r.action) executor.policy_rules.add plan.policy_rules
              (λ steps. pure (steps, none))))

  unfoldable pub verify : TunPlan → M (Option String)
  verify plan = executor.tun_device.verify plan.tun_device >>= λ e. elim e [
    | some m ↦ pure (some m)
    | none ↦
        verify_all (λ r. r.action) executor.routes.verify plan.routes
          (verify_all (λ r. r.action) executor.policy_rules.verify plan.policy_rules (pure none))
  ]

  -- the errors that it joins
  unfoldable pub rollback : TunPlan → M (List String)
  rollback plan =
      undo_all (λ r. r.action) executor.policy_rules.undo plan.policy_rules []
      >>= undo_all (λ r. r.action) executor.routes.undo plan.routes
      >>= λ errors. executor.tun_device.undo plan.tun_device >>= λ e. pure (with_error errors e)
