-- ===== src/Network/Executor/Steps.antt =====
-- `Apply` of the `ip` executors returns only steps that were really taken.
use tunwarden.Prelude.{
  String, ◌≡◌, inl, inr, Bool, true, false, not, none, List, [], ◌∷◌, ◌++◌, All, All-map,
  All-append, if◌then◌else◌, ◌==◌, Bool-cases,
}
use tunwarden.Result.{Result, ok, err}
use tunwarden.Text.{trim_space}
use tunwarden.Recovery.Host.{Action, Env, M, ◌>>=◌, pure}
use tunwarden.Network.TunPlan.{TunPlan}
use tunwarden.Network.Executor.Command.{Step}
use tunwarden.Network.Executor.Tun.{
  Applied, append_applied_step, continue_with, apply_all, apply, new_os_executor,
}
use tunwarden.Network.Executor.Route.{add_route}
use tunwarden.Network.Executor.PolicyRule.{add_policy_rule}
use tunwarden.Network.Executor.Applied.{Recorded, Recorded-append, Justified, After, Any}
use tunwarden.Network.Executor.Adding.{created_device, added_route, added_rule}

module _ (env : Env) where
  -- what comes after a list of steps keeps all steps recorded
  Backed : (List Step → M Applied) → Type 0
  Backed next =
      (steps : List Step) (log : List Action)
      → All (Recorded env log) steps
      → All (Recorded env (next steps log).1) (next steps log).0.0

  All-extended :
      (steps : List Step) (log log' new : List Action)
      → log' ≡ log ++ new
      → All (Recorded env log) steps
      → All (Recorded env log') steps
  All-extended steps log log' new e h = rw e (All-map _ _ (Recorded-append env log new) steps h)

  appended :
      (steps : List Step) (step : Step) (log : List Action)
      → All (Recorded env log) steps
      → Justified env log (ok step)
      → All (Recorded env log) (append_applied_step steps step)
  unfolding append_applied_step Justified
  appended steps step log h (inl e) = rw e h
  appended steps step log h (inr r) = elim (Bool-cases (trim_space step.kind == "")) [
    | inl e ↦ rw e h
    | inr e ↦ rw e (All-append _ steps (step ∷ []) h (r, tt))
  ]

  continued :
      (next : List Step → M Applied) (steps : List Step) (r : Result String Step)
      (log : List Action)
      → Backed next
      → All (Recorded env log) steps
      → Justified env log r
      → All (Recorded env (continue_with steps next r log).1) (continue_with steps next r log).0.0
  unfolding pure Backed
  continued next steps (err m) log b h j = h
  continued next steps (ok step) log b h j =
      b (append_applied_step steps step) log (appended steps step log h j)

  Backed-add :
      (m : M (Result String Step)) (next : List Step → M Applied)
      → After env (Any env) m
      → Backed next
      → Backed (λ steps. m >>= continue_with steps next)
  unfolding Backed ◌>>=◌
  Backed-add m next a b steps log h =
      let (new, e) = a.grows log in
      continued next steps (m log).0 (m log).1 b (All-extended steps log (m log).1 new e h)
        (a.justified log tt)

  Backed-if :
      (b : Bool) (m n : List Step → M Applied)
      → Backed m
      → Backed n
      → Backed (λ steps. if b then m steps else n steps)
  Backed-if true m n k j = k
  Backed-if false m n k j = j

  Backed-apply_all :
      {P : Type 0} (action : P → String) (add : P → M (Result String Step)) (xs : List P)
      (next : List Step → M Applied)
      → ((x : P) → After env (Any env) (add x))
      → Backed next
      → Backed (apply_all action add xs next)
  unfolding apply_all
  Backed-apply_all action add [] next k b = b
  Backed-apply_all action add (x ∷ xs) next k b =
      let rest = Backed-apply_all action add xs next k b in
      Backed-if (not (action x == "add")) (apply_all action add xs next) _ rest
        (Backed-add (add x) (apply_all action add xs next) (k x) rest)

-- Every step that `Apply` returns, also when it fails half way, names a device, a route or a rule of which the
-- command that adds it stands in the log and was answered with success.
pub applied_steps_succeeded :
    (env : Env) (plan : TunPlan) (log : List Action)
    → All
        (Recorded env (apply (new_os_executor env) plan log).1)
        (apply (new_os_executor env) plan log).0.0
unfolding apply new_os_executor Backed pure
applied_steps_succeeded env plan log =
    let finish : List Step → M Applied = λ steps. pure (steps, none) in
    let with_rules : List Step → M Applied =
      apply_all (λ r. r.action) (add_policy_rule env) plan.policy_rules finish in
    let with_routes : List Step → M Applied =
      apply_all (λ r. r.action) (add_route env) plan.routes with_rules in
    let rules =
      Backed-apply_all env (λ r. r.action) (add_policy_rule env) plan.policy_rules finish
        (added_rule env) (λ steps log h. h) in
    let routes =
      Backed-apply_all env (λ r. r.action) (add_route env) plan.routes with_rules (added_route env)
        rules in
    Backed-add env _ with_routes (created_device env plan.tun_device) routes [] log tt
