-- ===== src/Network/Executor/Adding.antt =====
-- Adding a device, a route or a rule: a step that comes back is backed by a command that succeeded.
use tunwarden.Prelude.{is_positive, String, ◌≡◌, refl, true, not, Option, none, some, List, ◌==◌}
use tunwarden.Result.{Result, ok, err}
use tunwarden.Text.{trim_space}
use tunwarden.Recovery.Host.{Action, Env, ◌>>=◌, pure, run_command}
use tunwarden.Network.TunPlan.{TunDevicePlan, TunRoutePlan, TunPolicyRulePlan}
use tunwarden.Network.Executor.Command.{observe_command}
use tunwarden.Network.Executor.Route
use tunwarden.Network.Executor.PolicyRule
use tunwarden.Network.Executor.Route.{
  main_server_bypass_route, verify_route_line, route_args, route_step, add_missing_route, add_route,
  keep_or_add, existing_matches, existing_route_line, no_step,
}
use tunwarden.Network.Executor.PolicyRule.{
  verify_policy_rule_line, rule_args, rule_step, add_missing_rule, add_policy_rule,
  existing_policy_rule_line,
}
use tunwarden.Network.Executor.TunDevice.{
  create_args, device_step, create_device, set_mtu, bring_up,
}
use tunwarden.Network.Executor.Applied.{
  Succeeded, Recorded, After-err, After-ok, After-dropped, Any, After-bind, After-also, After-first,
  After-flush, After-if, After, device, route, rule,
}

module _ (env : Env) where
  missing_route : (plan : TunRoutePlan) → After env (Any env) (add_missing_route env plan)
  unfolding add_missing_route
  missing_route plan =
      After-first env (route_args "add" plan) _ (λ m. After-err env (Any env) _)
        (After-flush env (route_args "add" plan) _ (route_step plan) (λ log. route plan))

  missing_rule : (plan : TunPolicyRulePlan) → After env (Any env) (add_missing_rule env plan)
  unfolding add_missing_rule
  missing_rule plan =
      After-first env (rule_args "add" plan) _ (λ m. After-err env (Any env) _)
        (After-flush env (rule_args "add" plan) _ (rule_step plan) (λ log. rule plan))

  up_device :
      (args : List String) (plan : TunDevicePlan)
      → ((log : List Action) → Succeeded env args log → Recorded env log (device_step plan))
      → After env (Succeeded env args) (bring_up env plan)
  unfolding bring_up
  up_device args plan k =
      After-also env args _ _ (λ m. After-err env (Succeeded env args) _)
        (After-ok env (Succeeded env args) (device_step plan) k)

  sized_device :
      (args : List String) (plan : TunDevicePlan)
      → ((log : List Action) → Succeeded env args log → Recorded env log (device_step plan))
      → After env (Succeeded env args) (set_mtu env plan)
  unfolding set_mtu
  sized_device args plan k =
      After-if env (Succeeded env args) (is_positive plan.mtu) _ _
        (After-also env args _ _ (λ m. After-err env (Succeeded env args) _)
          (up_device args plan k))
        (up_device args plan k)

  pub created_device :
      (plan : TunDevicePlan)
      → After env (Any env) (create_device env "podlaz-xray" "podlaz-xray" plan)
  unfolding create_device
  created_device plan =
      let args = create_args "podlaz-xray" "podlaz-xray" plan in
      After-if env (Any env) (plan.name == "") _ _ (After-err env (Any env) _) (
        After-first env args _ (λ m. After-err env (Any env) _)
          (sized_device args plan (λ log. device plan)))

  dropped : trim_space "" == "" ≡ true
  unfolding trim_space
  dropped = refl

  kept_route :
      (plan : TunRoutePlan) (line : String) (e : Option String)
      → verify_route_line line plan ≡ e
      → After env (Any env) (pure (Route.existing_matches env plan line))
  unfolding Route.existing_matches
  kept_route plan line none h =
      rw (h, Route.existing_matches) (After-dropped env (Any env) no_step dropped)
  kept_route plan line (some m) h = rw (h, Route.existing_matches) (After-err env (Any env) _)

  kept_or_added_route :
      (plan : TunRoutePlan) (r : Result String String)
      → After env (Any env) (Route.keep_or_add env plan r)
  unfolding Route.keep_or_add
  kept_or_added_route plan (err m) = After-err env (Any env) _
  kept_or_added_route plan (ok line) =
      After-if env (Any env) (not (line == "")) _ _ (kept_route plan line _ refl)
        (missing_route plan)

  pub added_route : (plan : TunRoutePlan) → After env (Any env) (add_route env plan)
  unfolding add_route existing_route_line observe_command run_command ◌>>=◌ pure
  added_route plan =
      After-if env (Any env) (main_server_bypass_route plan) _ _
        (After-bind env (existing_route_line env plan) (Route.keep_or_add env plan)
          (λ log. (_, refl)) (kept_or_added_route plan))
        (missing_route plan)

  kept_rule :
      (plan : TunPolicyRulePlan) (line : String) (e : Option String)
      → verify_policy_rule_line line plan ≡ e
      → After env (Any env) (pure (PolicyRule.existing_matches env plan line))
  unfolding PolicyRule.existing_matches
  kept_rule plan line none h =
      rw (h, PolicyRule.existing_matches) (After-dropped env (Any env) no_step dropped)
  kept_rule plan line (some m) h = rw (h, PolicyRule.existing_matches) (After-err env (Any env) _)

  kept_or_added_rule :
      (plan : TunPolicyRulePlan) (r : Result String String)
      → After env (Any env) (PolicyRule.keep_or_add env plan r)
  unfolding PolicyRule.keep_or_add
  kept_or_added_rule plan (err m) = After-err env (Any env) _
  kept_or_added_rule plan (ok line) =
      After-if env (Any env) (not (line == "")) _ _ (kept_rule plan line _ refl) (missing_rule plan)

  pub added_rule : (plan : TunPolicyRulePlan) → After env (Any env) (add_policy_rule env plan)
  unfolding add_policy_rule existing_policy_rule_line observe_command run_command ◌>>=◌ pure
  added_rule plan =
      After-bind env (existing_policy_rule_line env plan) (PolicyRule.keep_or_add env plan)
        (λ log. (_, refl)) (kept_or_added_rule plan)
