-- ===== src/Network/Executor/Nftables/Owned.antt =====
-- What the firewall executor does to the host: its own table, and nothing of it behind a failure.
use tunwarden.Prelude.{
  String, Bool, not, ◌&&◌, ◌≡◌, refl, Option, none, some, List, [], ◌∷◌, ◌++◌, All, ◌==◌, eq_iff,
  arith, is_empty,
}
use tunwarden.Recovery.Host.{Action, ran, Env, M, pure, run_command}
use tunwarden.Recovery.Allowed.{
  Safely, Safely-pure, Safely-bind, Safely-if, Safely-then, one_action,
}
use tunwarden.Network.TunPlan.{TunFirewallPlan, TunFirewallChainPlan, TunFirewallRulePlan}
use tunwarden.Network.Executor.Command.{observe_command, run_tool}
use tunwarden.Network.Executor.Nftables.{
  firewall_family, firewall_table, validate_owned_firewall_target, validate_firewall_plan,
  chain_is_wanted, rule_is_wanted, nft_expression_fields,
}
use tunwarden.Network.Executor.Nftables.Run.{
  each_wanted, add_chain, add_rule, delete_owned_table, rollback_firewall, install, settled,
  after_table, apply_firewall,
}

-- a command of nft on the program's own table
pub data OnOwnTable : Action → Type 0 where
  on_own_table :
      (verb noun : String) (rest : List String)
      → OnOwnTable (ran "nft" (verb ∷ noun ∷ "inet" ∷ "podlaz" ∷ rest))

module _ (env : Env) (P : Action → Type 0) where
  pub Safely-run_tool :
      (name : String) (args : List String) → P (ran name args) → Safely P (run_tool env name args)
  unfolding run_tool observe_command
  Safely-run_tool name args k = Safely-then P _ _ (Safely-then P _ _ (run_one k))
    where
      run_one : P (ran name args) → Safely P (run_command env name args)
      run_one k = unfold run_command in one_action P (ran name args) _ k

owned_target :
    (family table : String)
    → validate_owned_firewall_target family table ≡ none
    → (family ≡ "inet") × (table ≡ "podlaz")
unfolding validate_owned_firewall_target
owned_target family table h = ground (arith, eq_iff family "inet", eq_iff table "podlaz")

-- the plan names the program's own table
abbrev pub TargetsOwn : TunFirewallPlan → Type 0
TargetsOwn plan = (firewall_family plan ≡ "inet") × (firewall_table plan ≡ "podlaz")

valid_target :
    (plan : TunFirewallPlan)
    → validate_firewall_plan plan ≡ none
    → validate_owned_firewall_target (firewall_family plan) (firewall_table plan) ≡ none
unfolding validate_firewall_plan
valid_target plan h = ground arith

pub valid_plan-TargetsOwn :
    (plan : TunFirewallPlan) → validate_firewall_plan plan ≡ none → TargetsOwn plan
valid_plan-TargetsOwn plan h = owned_target _ _ (valid_target plan h)

module _ (env : Env) where
  Safely-each_wanted :
      {X : Type 0} (wanted : X → Bool) (act : X → M (Option String)) (xs : List X)
      (next : M (Option String))
      → ((x : X) → Safely OnOwnTable (act x))
      → Safely OnOwnTable next
      → Safely OnOwnTable (each_wanted wanted act xs next)
  unfolding each_wanted
  Safely-each_wanted wanted act [] next k j = j
  Safely-each_wanted wanted act (x ∷ xs) next k j =
      let rest = Safely-each_wanted wanted act xs next k j in
      Safely-if _ (not (wanted x)) _ _ (λ _. rest) (λ _. Safely-bind _ (act x) _ (k x) (stop rest))
    where
      stop :
          Safely OnOwnTable (each_wanted wanted act xs next)
          → (e : Option String)
          → Safely OnOwnTable
              (elim e [ some m ↦ pure (some m) | none ↦ each_wanted wanted act xs next ])
      stop rest none = rest
      stop rest (some m) = Safely-pure _ (some m)

  Safely-add_chain :
      (chain : TunFirewallChainPlan) → Safely OnOwnTable (add_chain env "inet" "podlaz" chain)
  unfolding add_chain
  Safely-add_chain chain =
      Safely-then _ _ _ (Safely-run_tool env _ "nft" _ (on_own_table "add" "chain" _))

  Safely-add_rule :
      (rule : TunFirewallRulePlan) → Safely OnOwnTable (add_rule env "inet" "podlaz" rule)
  unfolding add_rule
  Safely-add_rule rule =
      Safely-if _ (is_empty (nft_expression_fields rule.expr)) _ _ (λ _. Safely-pure _ _)
        (λ _. Safely-then _ _ _ (Safely-run_tool env _ "nft" _ (on_own_table "add" "rule" _)))

  Safely-delete :
      (family table : String) (v : Option String)
      → validate_owned_firewall_target family table ≡ v
      → Safely OnOwnTable (delete_owned_table env family table)
  unfolding delete_owned_table
  Safely-delete family table (some m) h = rw (h, delete_owned_table) (Safely-pure _ _)
  Safely-delete family table none h =
      rw (h, delete_owned_table)
        (let (f, t) = owned_target family table h in
          Safely-then _ _ _
            (Safely-run_tool env _ "nft" _ (rw (f, t) (on_own_table "delete" "table" []))))

  pub Safely-rollback_firewall :
      (plan : TunFirewallPlan) → Safely OnOwnTable (rollback_firewall env plan)
  unfolding rollback_firewall
  Safely-rollback_firewall plan =
      Safely-if _ (firewall_family plan == "" && firewall_table plan == "") _ _
        (λ _. Safely-pure _ none)
        (λ _. Safely-delete (firewall_family plan) (firewall_table plan) _ refl)

  module _ (plan : TunFirewallPlan) (own : TargetsOwn plan) where
    Safely-install : Safely OnOwnTable (install env plan)
    unfolding install
    Safely-install =
        rw (own.0, own.1)
          (Safely-each_wanted chain_is_wanted _ plan.chains _ Safely-add_chain
            (Safely-each_wanted rule_is_wanted _ plan.rules _ Safely-add_rule (Safely-pure _ none)))

    Safely-settled : (e : Option String) → Safely OnOwnTable (settled env plan e)
    unfolding settled
    Safely-settled none = Safely-pure _ _
    Safely-settled (some m) = Safely-then _ _ _ (Safely-rollback_firewall plan)

    Safely-after_table : (e : Option String) → Safely OnOwnTable (after_table env plan e)
    unfolding after_table
    Safely-after_table (some m) = Safely-pure _ _
    Safely-after_table none = Safely-bind _ _ _ Safely-install Safely-settled

  Safely-apply :
      (plan : TunFirewallPlan) (v : Option String)
      → validate_firewall_plan plan ≡ v
      → Safely OnOwnTable (apply_firewall env plan)
  unfolding apply_firewall
  Safely-apply plan (some m) h = rw (h, apply_firewall) (Safely-pure _ _)
  Safely-apply plan none h =
      let own = valid_plan-TargetsOwn plan h in
      rw (h, apply_firewall)
        (Safely-bind _ _ _
          (Safely-run_tool env _ "nft" _ (rw (own.0, own.1) (on_own_table "add" "table" [])))
          (Safely-after_table plan own))

  pub Safely-apply_firewall : (plan : TunFirewallPlan) → Safely OnOwnTable (apply_firewall env plan)
  Safely-apply_firewall plan = Safely-apply plan (validate_firewall_plan plan) refl

-- what a step adds to the log
abbrev pub Adds : (Action → Type 0) → {A : Type 0} → M A → List Action → Type 0
Adds P m log = (new : List Action) × ((m log).1 ≡ log ++ new) × All P new

-- Whatever plan the firewall executor is given, valid or not, and whatever the host answers, each command that `Apply`
-- or `Rollback` runs is one of nft on the table "podlaz" of the family "inet".
pub firewall_stays_in_own_table :
    (env : Env) (plan : TunFirewallPlan) (log : List Action)
    → Adds OnOwnTable (apply_firewall env plan) log
      × Adds OnOwnTable (rollback_firewall env plan) log
firewall_stays_in_own_table env plan log =
    let a = Safely-apply_firewall env plan in
    let r = Safely-rollback_firewall env plan in
    ((a.new log, a.appends log, a.holds log), (r.new log, r.appends log, r.holds log))
