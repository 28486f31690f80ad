-- ===== src/Network/Executor/Applied.antt =====
-- The steps that `Apply` returns are backed by commands that succeeded.
use tunwarden.Prelude.{
  String, ◌≡◌, refl, sym, ap, ◌∙◌, ◌⊎◌, inl, inr, Bool, true, false, Option, none, some, List, [],
  ◌∷◌, ◌++◌, append-nil, append_assoc, if◌then◌else◌, ◌==◌,
}
use tunwarden.Result.{Result, ok, err}
use tunwarden.Text.{trim_space}
use tunwarden.Recovery.Host.{Action, ran, Env, M, ◌>>=◌, pure, run_command}
use tunwarden.Recovery.Command.{command_succeeded}
use tunwarden.Network.TunPlan.{TunDevicePlan, TunRoutePlan, TunPolicyRulePlan}
use tunwarden.Network.Executor.Command.{Step, observe_command, run_ip, flush_ipv4_route_cache}
use tunwarden.Network.Executor.Route.{route_args, route_step}
use tunwarden.Network.Executor.PolicyRule.{rule_args, rule_step}
use tunwarden.Network.Executor.TunDevice.{create_args, device_step}

module _ (env : Env) where
  -- the command stands in the log, and the host answered it with success
  abbrev pub Succeeded : List String → List Action → Type 0
  Succeeded args log =
      (before : List Action) × (after : List Action) × (log ≡ before ++ (ran "ip" args ∷ after))
      × (command_succeeded (env.run before "ip" args).0 (env.run before "ip" args).1 ≡ true)

  -- a step that names a thing which was really added
  pub data Recorded (log : List Action) : Step → Type 0 where
    device :
        (plan : TunDevicePlan)
        → Succeeded (create_args "podlaz-xray" "podlaz-xray" plan) log
        → Recorded log (device_step plan)
    route :
        (plan : TunRoutePlan)
        → Succeeded (route_args "add" plan) log
        → Recorded log (route_step plan)
    rule :
        (plan : TunPolicyRulePlan)
        → Succeeded (rule_args "add" plan) log
        → Recorded log (rule_step plan)

  Succeeded-append :
      (args : List String) (log more : List Action)
      → Succeeded args log
      → Succeeded args (log ++ more)
  Succeeded-append args log more (before, after, e, h) = (
    before,
    after ++ more,
    ap (λ l. l ++ more) e ∙ append_assoc before (ran "ip" args ∷ after) more,
    h,
  )

  pub Recorded-append :
      (log more : List Action) (s : Step) → Recorded log s → Recorded (log ++ more) s
  Recorded-append log more _ (device plan k) = device plan (Succeeded-append _ log more k)
  Recorded-append log more _ (route plan k) = route plan (Succeeded-append _ log more k)
  Recorded-append log more _ (rule plan k) = rule plan (Succeeded-append _ log more k)

  -- a result is a failure, a step that is dropped, or one that is recorded
  unfoldable pub Justified : List Action → Result String Step → Type 0
  Justified log (err m) = Unit
  Justified log (ok step) = ((trim_space step.kind == "") ≡ true) ⊎ Recorded log step

  -- `m` adds to the log, and its result is justified if `Q` held before
  pub record After (Q : List Action → Type 0) (m : M (Result String Step)) : Type 0 where
    pub grows : (log : List Action) → (new : List Action) × ((m log).1 ≡ log ++ new)
    pub justified : (log : List Action) → Q log → Justified (m log).1 (m log).0

  pub After-err : (Q : List Action → Type 0) (message : String) → After Q (pure (err message))
  unfolding pure Justified
  After-err Q message = record {
    grows = λ log. ([], sym (append-nil log));
    justified = λ log q. tt;
  }

  pub After-ok :
      (Q : List Action → Type 0) (step : Step)
      → ((log : List Action) → Q log → Recorded log step)
      → After Q (pure (ok step))
  unfolding pure Justified
  After-ok Q step k = record {
    grows = λ log. ([], sym (append-nil log));
    justified = λ log q. inr (k log q);
  }

  pub After-dropped :
      (Q : List Action → Type 0) (step : Step)
      → (trim_space step.kind == "") ≡ true
      → After Q (pure (ok step))
  unfolding pure Justified
  After-dropped Q step h = record {
    grows = λ log. ([], sym (append-nil log));
    justified = λ log q. inl h;
  }

  abbrev no_error : Option String
  no_error = none

  none_if : (b : Bool) (x : String) → (if b then none else some x) ≡ no_error → b ≡ true
  none_if true x h = refl
  none_if false x h = cc

  success_of_run :
      (args : List String) (log : List Action)
      → (run_ip env args log).0 ≡ none
      → Succeeded args (run_ip env args log).1
  unfolding run_ip observe_command run_command ◌>>=◌ pure
  success_of_run args log h = (log, [], refl, none_if _ _ h)

  grows_run :
      (args : List String) (log : List Action) → (run_ip env args log).1 ≡ log ++ ran "ip" args ∷ []
  unfolding run_ip observe_command run_command ◌>>=◌ pure
  grows_run args log = refl

  module _ (Q : List Action → Type 0) (args : List String)
      (k : Option String → M (Result String Step))
      (failing : (m : String) → After Q (k (some m))) where
    grown :
        (R : List Action → Type 0) (e : Option String) (log log' : List Action)
        → log' ≡ log ++ ran "ip" args ∷ []
        → After R (k none)
        → (new : List Action) × ((k e log').1 ≡ log ++ new)
    grown R none log log' h a =
        let (new, g) = a.grows log' in
        (ran "ip" args ∷ new, g ∙ ap (λ l. l ++ new) h ∙ append_assoc log (ran "ip" args ∷ []) new)
    grown R (some m) log log' h a =
        let (new, g) = (failing m).grows log' in
        (ran "ip" args ∷ new, g ∙ ap (λ l. l ++ new) h ∙ append_assoc log (ran "ip" args ∷ []) new)

    outcome :
        (R : List Action → Type 0) (e : Option String) (log : List Action)
        → After R (k none)
        → (e ≡ none → R log)
        → Q log
        → Justified (k e log).1 (k e log).0
    outcome R none log a r q = a.justified log (r refl)
    outcome R (some m) log a r q = (failing m).justified log q

    After-run :
        (R : List Action → Type 0)
        → ((log : List Action) → Q log → Q (run_ip env args log).1)
        → ((log : List Action) → Q log → (run_ip env args log).0 ≡ none → R (run_ip env args log).1)
        → After R (k none)
        → After Q (run_ip env args >>= k)
    unfolding ◌>>=◌
    After-run R keeps gives a = record {
      grows =
          λ log. grown R (run_ip env args log).0 log (run_ip env args log).1 (grows_run args log) a;
      justified = λ log q.
          outcome R (run_ip env args log).0 (run_ip env args log).1 a (gives log q) (keeps log q);
    }

  abbrev pub Any : List Action → Type 0
  Any log = Unit

  pub After-bind :
      {A : Type 0} (m : M A) (k : A → M (Result String Step))
      → ((log : List Action) → (new : List Action) × ((m log).1 ≡ log ++ new))
      → ((a : A) → After Any (k a))
      → After Any (m >>= k)
  unfolding ◌>>=◌
  After-bind m k g a = record {
    grows = λ log.
        let (new, e) = g log in
        let (more, e') = (a (m log).0).grows (m log).1 in
        (new ++ more, e' ∙ ap (λ l. l ++ more) e ∙ append_assoc log new more);
    justified = λ log q. (a (m log).0).justified (m log).1 tt;
  }

  keeps :
      (args other : List String) (log : List Action)
      → Succeeded args log
      → Succeeded args (run_ip env other log).1
  keeps args other log k =
      rw (grows_run other log) (Succeeded-append args log (ran "ip" other ∷ []) k)

  -- a command that keeps what succeeded before it
  pub After-also :
      (args other : List String) (k : Option String → M (Result String Step))
      → ((m : String) → After (Succeeded args) (k (some m)))
      → After (Succeeded args) (k none)
      → After (Succeeded args) (run_ip env other >>= k)
  After-also args other k failing a =
      After-run (Succeeded args) other k failing (Succeeded args) (keeps args other)
        (λ log q h. keeps args other log q) a

  -- a command that comes first
  pub After-first :
      (args : List String) (k : Option String → M (Result String Step))
      → ((m : String) → After Any (k (some m)))
      → After (Succeeded args) (k none)
      → After Any (run_ip env args >>= k)
  After-first args k failing a =
      After-run Any args k failing (Succeeded args) (λ log q. tt)
        (λ log q h. success_of_run args log h) a

  -- the flush behind an addition
  pub After-flush :
      (args : List String) (message : String → String) (step : Step)
      → ((log : List Action) → Succeeded args log → Recorded log step)
      → After (Succeeded args) (
          flush_ipv4_route_cache env >>= λ f.
          pure (elim f [ some m ↦ err (message m) | none ↦ ok step ]))
  unfolding flush_ipv4_route_cache
  After-flush args message step k =
      After-also args _ (λ f. pure (elim f [ some m ↦ err (message m) | none ↦ ok step ]))
        (λ m. After-err (Succeeded args) (message m)) (After-ok (Succeeded args) step k)

  pub After-if :
      (Q : List Action → Type 0) (b : Bool) (m n : M (Result String Step))
      → After Q m
      → After Q n
      → After Q (if b then m else n)
  After-if Q true m n k j = k
  After-if Q false m n k j = j
