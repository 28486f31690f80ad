-- ===== src/Network/Executor/Undone.antt =====
-- What `Rollback` runs on the host, whatever the host answers.
use tunwarden.Prelude.{
  String, ◌≡◌, refl, sym, ap, ◌∙◌, Bool, true, false, not, ◌&&◌, Option, none, some, List, [], ◌∷◌,
  ◌++◌, append-nil, append_assoc, if◌then◌else◌, ◌==◌, Bool-cases, inl, inr,
}
use tunwarden.Text.{◌<>◌}
use tunwarden.Recovery.Host.{Action, ran, Env, M, ◌>>=◌, pure, run_command}
use tunwarden.Network.TunPlan.{TunDevicePlan, TunRoutePlan, TunPolicyRulePlan, TunPlan}
use tunwarden.Network.Executor.Command.{
  observe_command, run_ip, failure_of, wrapped, flush_ipv4_route_cache, delete_and_flush,
}
use tunwarden.Network.Executor.Route.{route_args, rollback_route_plan}
use tunwarden.Network.Executor.PolicyRule.{rule_args, rollback_policy_rule_plan}
use tunwarden.Network.Executor.TunDevice.{rollback_device}
use tunwarden.Network.Executor.Tun.{new_os_executor, undo_all, with_error, rollback}

abbrev pub same_words : List String → List String → Bool
same_words [] [] = true
same_words (x ∷ xs) (y ∷ ys) = x == y && same_words xs ys
same_words _ _ = false

-- the command is `ip -4 route flush cache`
abbrev pub is_flush : String → List String → Bool
is_flush path args = path == "ip" && same_words args ("-4" ∷ "route" ∷ "flush" ∷ "cache" ∷ [])

-- the program and the arguments of an action, unless it flushes the route cache
abbrev pub command_of : Action → List (List String)
command_of (ran path args) = if is_flush path args then [] else (path ∷ args) ∷ []
command_of _ = []

abbrev pub commands : List Action → List (List String)
commands [] = []
commands (a ∷ log) = command_of a ++ commands log

pub commands-append :
    (log more : List Action) → commands (log ++ more) ≡ commands log ++ commands more
commands-append [] more = refl
commands-append (a ∷ log) more =
    ap (λ l. command_of a ++ l) (commands-append log more)
    ∙ sym (append_assoc (command_of a) (commands log) (commands more))

-- whatever the host answers, `m` runs these commands and flushes
pub record Runs (cs : List (List String)) {A : Type 0} (m : M A) : Type 0 where
  pub at : (log : List Action) → commands (m log).1 ≡ commands log ++ cs

pub Runs-pure : {A : Type 0} (a : A) → Runs [] (pure a)
unfolding pure
Runs-pure a = record { at = λ log. sym (append-nil (commands log)) }

pub Runs-bind :
    (cs ds : List (List String)) {A B : Type 0} (m : M A) (f : A → M B)
    → Runs cs m
    → ((a : A) → Runs ds (f a))
    → Runs (cs ++ ds) (m >>= f)
unfolding ◌>>=◌
Runs-bind cs ds m f k j = record {
  at = λ log.
      (j (m log).0).at (m log).1 ∙ ap (λ l. l ++ ds) (k.at log) ∙ append_assoc (commands log) cs ds;
}

pub Runs-then :
    (cs : List (List String)) {A B : Type 0} (m : M A) (f : A → B)
    → Runs cs m
    → Runs cs (m >>= λ a. pure (f a))
unfolding ◌>>=◌ pure
Runs-then cs m f k = record { at = k.at }

-- the commands that delete a route and a rule
abbrev pub route_deletion : TunRoutePlan → List String
route_deletion plan = "ip" ∷ route_args "del" plan

abbrev pub rule_deletion : TunPolicyRulePlan → List String
rule_deletion plan = "ip" ∷ rule_args "del" plan

module _ (env : Env) where
  Runs-run_ip :
      (args : List String)
      → is_flush "ip" args ≡ false
      → Runs (("ip" ∷ args) ∷ []) (run_ip env args)
  unfolding run_ip observe_command run_command ◌>>=◌ pure
  Runs-run_ip args h = record { at = λ log. commands-append log (ran "ip" args ∷ []) ∙ rw h refl }

  Runs-flush : Runs [] (flush_ipv4_route_cache env)
  unfolding flush_ipv4_route_cache run_ip observe_command run_command ◌>>=◌ pure
  Runs-flush = record {
    at = λ log. commands-append log (ran "ip" ("-4" ∷ "route" ∷ "flush" ∷ "cache" ∷ []) ∷ []);
  }

  after_deletion :
      (deleting flushing : String) (e : Option String)
      → Runs [] (elim e [
        | some m ↦ pure (some (deleting <> ": " <> m))
        | none ↦ flush_ipv4_route_cache env >>= λ f. pure (wrapped flushing f)
      ])
  after_deletion deleting flushing (some m) = Runs-pure _
  after_deletion deleting flushing none = Runs-then [] _ (wrapped flushing) Runs-flush

  Runs-delete :
      (args : List String) (deleting flushing : String)
      → is_flush "ip" args ≡ false
      → Runs (("ip" ∷ args) ∷ []) (delete_and_flush env args deleting flushing)
  unfolding delete_and_flush
  Runs-delete args deleting flushing h =
      Runs-bind (("ip" ∷ args) ∷ []) [] _ _ (Runs-run_ip args h)
        (λ e. after_deletion deleting flushing (failure_of e))

  Runs-route :
      (plan : TunRoutePlan) → Runs (route_deletion plan ∷ []) (rollback_route_plan env plan)
  unfolding rollback_route_plan route_args
  Runs-route plan = Runs-delete _ _ _ refl

  Runs-rule :
      (plan : TunPolicyRulePlan)
      → Runs (rule_deletion plan ∷ []) (rollback_policy_rule_plan env plan)
  unfolding rollback_policy_rule_plan rule_args
  Runs-rule plan = Runs-delete _ _ _ refl

-- the command that removes a device, if it has a name
abbrev pub device_commands : TunDevicePlan → List (List String)
device_commands plan =
    if plan.name == "" then [] else ("ip" ∷ "link" ∷ "del" ∷ "dev" ∷ plan.name ∷ []) ∷ []

pub Runs-device :
    (env : Env) (plan : TunDevicePlan) → Runs (device_commands plan) (rollback_device env plan)
unfolding rollback_device
Runs-device env plan = elim (Bool-cases (plan.name == "")) [
  | inl e ↦ rw e (Runs-pure none)
  | inr e ↦ rw e (Runs-then _ _ _ (Runs-run_ip env ("link" ∷ "del" ∷ "dev" ∷ plan.name ∷ []) refl))
]

-- the deletions of the entries that were to be added, from the last entry to the first
abbrev pub backwards : {P : Type 0} → (P → String) → (P → List String) → List P → List (List String)
backwards action deletion [] = []
backwards action deletion (x ∷ xs) =
    backwards action deletion xs ++ (if not (action x == "add") then [] else deletion x ∷ [])

Runs-undo_one :
    {P : Type 0} (action : P → String) (deletion : P → List String) (undo : P → M (Option String))
    (x : P) (errors : List String)
    → Runs (deletion x ∷ []) (undo x)
    → Runs (if not (action x == "add") then [] else deletion x ∷ []) (
        if not (action x == "add")
        then pure errors
        else (undo x >>= λ e. pure (with_error errors e)))
Runs-undo_one action deletion undo x errors k = elim (Bool-cases (action x == "add")) [
  | inl e ↦ rw e (Runs-then _ (undo x) (with_error errors) k)
  | inr e ↦ rw e (Runs-pure errors)
]

Runs-undo_all :
    {P : Type 0} (action : P → String) (deletion : P → List String) (undo : P → M (Option String))
    (xs : List P) (errors : List String)
    → ((x : P) → Runs (deletion x ∷ []) (undo x))
    → Runs (backwards action deletion xs) (undo_all action undo xs errors)
unfolding undo_all
Runs-undo_all action deletion undo [] errors k = Runs-pure errors
Runs-undo_all action deletion undo (x ∷ xs) errors k =
    Runs-bind _ _ _ _ (Runs-undo_all action deletion undo xs errors k)
      (λ errors'. Runs-undo_one action deletion undo x errors' (k x))

-- the commands of `Rollback`
abbrev pub undoing : TunPlan → List (List String)
undoing plan =
    backwards (λ r. r.action) rule_deletion plan.policy_rules
    ++ backwards (λ r. r.action) route_deletion plan.routes
    ++ device_commands plan.tun_device

pub Runs-rollback :
    (env : Env) (plan : TunPlan) → Runs (undoing plan) (rollback (new_os_executor env) plan)
unfolding rollback new_os_executor
Runs-rollback env plan =
    Runs-bind _ _ _ _
      (Runs-bind _ _ _ _
        (Runs-undo_all (λ r. r.action) rule_deletion (rollback_policy_rule_plan env)
          plan.policy_rules [] (Runs-rule env))
        (λ errors.
          Runs-undo_all (λ r. r.action) route_deletion (rollback_route_plan env) plan.routes errors
            (Runs-route env)))
      (λ errors.
        Runs-then _ (rollback_device env plan.tun_device) (with_error errors)
          (Runs-device env plan.tun_device))

-- `Rollback` of the `ip` executors runs, besides `ip -4 route flush cache`, exactly these commands, whichever of
-- them fail: it deletes the rules of the plan that were to be added from the last to the first, then the routes in
-- the same way, and then the device. So no failure keeps it from trying the rest.
pub rollback_tries_everything :
    (env : Env) (plan : TunPlan) (log : List Action)
    → commands (rollback (new_os_executor env) plan log).1
      ≡ commands log
        ++ (backwards (λ r. r.action) rule_deletion plan.policy_rules
            ++ backwards (λ r. r.action) route_deletion plan.routes
            ++ device_commands plan.tun_device)
rollback_tries_everything env plan log = (Runs-rollback env plan).at log
