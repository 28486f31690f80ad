-- ===== src/Network/Executor/ReadOnly.antt =====
-- `Verify` looks and does not touch.
use tunwarden.Prelude.{String, ◌≡◌, not, Option, none, some, List, [], ◌∷◌, ◌++◌, All, ◌==◌}
use tunwarden.Text.{int_text}
use tunwarden.Recovery.Host.{Action, ran, Env, M, pure, run_command}
use tunwarden.Recovery.Allowed.{
  Safely, Safely-pure, Safely-bind, Safely-then, Safely-if, one_action,
}
use tunwarden.Network.TunPlan.{TunDevicePlan, TunRoutePlan, TunPolicyRulePlan, TunPlan}
use tunwarden.Network.Executor.Command.{observe_command, run_ip}
use tunwarden.Network.Executor.Route.{verify_route, existing_route_line, route_table}
use tunwarden.Network.Executor.PolicyRule.{verify_policy_rule, existing_policy_rule_line}
use tunwarden.Network.Executor.TunDevice.{verify_device}
use tunwarden.Network.Executor.Tun.{new_os_executor, verify_all, verify}

-- the commands that show a link, a route or a rule
pub data Shows : Action → Type 0 where
  link : (name : String) → Shows (ran "ip" ("link" ∷ "show" ∷ "dev" ∷ name ∷ []))
  route :
      (table destination : String)
      → Shows (ran "ip" ("-4" ∷ "route" ∷ "show" ∷ "table" ∷ table ∷ destination ∷ []))
  rule :
      (priority : String) → Shows (ran "ip" ("-4" ∷ "rule" ∷ "show" ∷ "priority" ∷ priority ∷ []))

module _ (env : Env) where
  Shows-observe :
      (args : List String) → Shows (ran "ip" args) → Safely Shows (observe_command env "ip" args)
  unfolding observe_command run_command
  Shows-observe args k = Safely-then Shows _ _ (one_action Shows (ran "ip" args) _ k)

  Shows-run_ip : (args : List String) → Shows (ran "ip" args) → Safely Shows (run_ip env args)
  unfolding run_ip
  Shows-run_ip args k = Safely-then Shows _ _ (Shows-observe args k)

  Shows-device : (plan : TunDevicePlan) → Safely Shows (verify_device env plan)
  unfolding verify_device
  Shows-device plan = Safely-then Shows _ _ (Shows-run_ip _ (link plan.name))

  Shows-route : (plan : TunRoutePlan) → Safely Shows (verify_route env plan)
  unfolding verify_route existing_route_line
  Shows-route plan =
      Safely-then Shows _ _
        (Safely-then Shows _ _ (Shows-observe _ (route (route_table plan.table) plan.destination)))

  Shows-rule : (plan : TunPolicyRulePlan) → Safely Shows (verify_policy_rule env plan)
  unfolding verify_policy_rule existing_policy_rule_line
  Shows-rule plan =
      Safely-then Shows _ _
        (Safely-then Shows _ _ (Shows-observe _ (rule (int_text plan.priority))))

or_next :
    (next : M (Option String)) (e : Option String)
    → Safely Shows next
    → Safely Shows (elim e [ none ↦ next | some m ↦ pure (some m) ])
or_next next none k = k
or_next next (some m) k = Safely-pure Shows (some m)

Shows-verify_all :
    {P : Type 0} (action : P → String) (check : P → M (Option String)) (xs : List P)
    (next : M (Option String))
    → ((x : P) → Safely Shows (check x))
    → Safely Shows next
    → Safely Shows (verify_all action check xs next)
unfolding verify_all
Shows-verify_all action check [] next k n = n
Shows-verify_all action check (x ∷ xs) next k n =
    let rest = Shows-verify_all action check xs next k n in
    Safely-if Shows (not (action x == "add")) _ _ (λ _. rest)
      (λ _. Safely-bind Shows (check x) _ (k x) (λ e. or_next _ e rest))

verify-Shows : (env : Env) (plan : TunPlan) → Safely Shows (verify (new_os_executor env) plan)
unfolding verify new_os_executor
verify-Shows env plan =
    let rules =
      Shows-verify_all (λ (r : TunPolicyRulePlan). r.action) (verify_policy_rule env)
        plan.policy_rules (pure none) (Shows-rule env) (Safely-pure Shows none) in
    let routes =
      Shows-verify_all (λ (r : TunRoutePlan). r.action) (verify_route env) plan.routes _
        (Shows-route env) rules in
    Safely-bind Shows (verify_device env plan.tun_device) _ (Shows-device env plan.tun_device)
      (λ e. or_next _ e routes)

-- Whatever the plan and the host's answers are, `Verify` only runs commands that show a link, a route or a rule.
pub verify_only_shown :
    (env : Env) (plan : TunPlan) (log : List Action)
    → (actions : List Action) × ((verify (new_os_executor env) plan log).1 ≡ log ++ actions)
      × All Shows actions
verify_only_shown env plan log =
    let k = verify-Shows env plan in (k.new log, k.appends log, k.holds log)
