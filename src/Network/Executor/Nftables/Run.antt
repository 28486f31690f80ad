-- ===== src/Network/Executor/Nftables/Run.antt =====
-- internal/network/executor/nftables.go: `Apply`, `Verify` and `Rollback` of `NftablesExecutor`.
use tunwarden.Prelude.{
  String, Bool, not, ◌&&◌, Option, none, some, List, [], ◌∷◌, is_empty, if◌then◌else◌, ◌==◌,
}
use tunwarden.Result.{Result, ok, err}
use tunwarden.Text.{◌<>◌, contains}
use tunwarden.Recovery.Host.{CommandResult, Env, M, ◌>>=◌, pure}
use tunwarden.Network.TunPlan.{TunFirewallPlan, TunFirewallChainPlan, TunFirewallRulePlan}
use tunwarden.Network.Executor.Command.{
  Step, observe_command, run_tool, failure_of, wrapped, joined,
}
use tunwarden.Network.Executor.Nftables.{
  firewall_family, firewall_table, validate_owned_firewall_target, validate_firewall_plan,
  nft_expression_fields, nft_output_contains_rule, chain_is_wanted, rule_is_wanted, chain_args,
  firewall_rule_args, firewall_step,
}

-- a loop that leaves out the entries that are not wanted and stops at the first error
unfoldable pub each_wanted :
    {P : Type 0}
    → (P → Bool)
    → (P → M (Option String))
    → List P
    → M (Option String)
    → M (Option String)
each_wanted wanted act [] next = next
each_wanted wanted act (x ∷ xs) next =
    let rest = each_wanted wanted act xs next in
    if not (wanted x)
    then rest
    else (act x >>= λ e. elim e [ some m ↦ pure (some m) | none ↦ rest ])

-- the first wanted entry that is not shown, as an error
unfoldable pub first_missing :
    {P : Type 0} → (P → Bool) → (P → Bool) → (P → String) → List P → Option String → Option String
first_missing wanted shown message [] next = next
first_missing wanted shown message (x ∷ xs) next =
    let rest = first_missing wanted shown message xs next in
    if wanted x && not (shown x) then some (message x) else rest

unfoldable pub shown_firewall : TunFirewallPlan → CommandResult × Option String → Option String
unfolding first_missing
shown_firewall plan (result, some m) =
    some
      ("verify nftables table " <> firewall_family plan <> " " <> firewall_table plan <> ": " <> m)
shown_firewall plan (result, none) =
    let table = firewall_family plan <> " " <> firewall_table plan in
    first_missing chain_is_wanted (λ chain. contains result.stdout ("chain " <> chain.name))
      (λ chain. "verify nftables table " <> table <> ": chain " <> chain.name <> " not found")
      plan.chains
      (first_missing rule_is_wanted (nft_output_contains_rule result.stdout)
        (λ rule.
          "verify nftables table " <> table <> ": rule " <> rule.rollback_key <> " not found")
        plan.rules none)

module _ (env : Env) where
  unfoldable pub add_chain : String → String → TunFirewallChainPlan → M (Option String)
  add_chain family table chain = run_tool env "nft" (chain_args family table chain) >>= λ e.
      pure (wrapped ("create nftables chain " <> family <> " " <> table <> " " <> chain.name) e)

  unfoldable pub add_rule : String → String → TunFirewallRulePlan → M (Option String)
  add_rule family table rule =
      if is_empty (nft_expression_fields rule.expr)
      then pure (some ("missing nftables rule expression for " <> rule.rollback_key))
      else (run_tool env "nft" (firewall_rule_args family table rule) >>= λ e. pure (
          wrapped ("create nftables rule " <> family <> " " <> table <> " " <> rule.rollback_key)
            e))

  unfoldable pub delete_owned_table : String → String → M (Option String)
  delete_owned_table family table = elim (validate_owned_firewall_target family table) [
    | some m ↦ pure (some m)
    | none ↦ run_tool env "nft" ("delete" ∷ "table" ∷ family ∷ table ∷ []) >>= λ e.
        pure (wrapped ("delete nftables table " <> family <> " " <> table) (failure_of e))
  ]

  -- `Rollback`
  unfoldable pub rollback_firewall : TunFirewallPlan → M (Option String)
  unfolding delete_owned_table
  rollback_firewall plan =
      if firewall_family plan == "" && firewall_table plan == ""
      then pure none
      else delete_owned_table (firewall_family plan) (firewall_table plan)

  -- the two loops of `Apply`
  unfoldable pub install : TunFirewallPlan → M (Option String)
  install plan =
      each_wanted chain_is_wanted (add_chain (firewall_family plan) (firewall_table plan))
        plan.chains
        (each_wanted rule_is_wanted (add_rule (firewall_family plan) (firewall_table plan))
          plan.rules (pure none))

  -- the end of `Apply` behind the creation of the table, with its deferred function
  unfoldable pub settled : TunFirewallPlan → Option String → M (Result String Step)
  settled plan none = pure (ok (firewall_step plan))
  settled plan (some m) = rollback_firewall plan >>= λ e.
      pure (err (joined m (wrapped "rollback nftables table after failed apply" e)))

  unfoldable pub after_table : TunFirewallPlan → Option String → M (Result String Step)
  unfolding install settled
  after_table plan (some m) = pure (
      err (
        "create nftables table "
        <> firewall_family plan
        <> " "
        <> firewall_table plan
        <> ": "
        <> m))
  after_table plan none = install plan >>= settled plan

  -- `Apply`
  unfoldable pub apply_firewall : TunFirewallPlan → M (Result String Step)
  unfolding after_table
  apply_firewall plan = elim (validate_firewall_plan plan) [
    | some m ↦ pure (err m)
    | none ↦
        run_tool env "nft" ("add" ∷ "table" ∷ firewall_family plan ∷ firewall_table plan ∷ [])
        >>= after_table plan
  ]

  -- `Verify`
  unfoldable pub verify_firewall : TunFirewallPlan → M (Option String)
  unfolding shown_firewall
  verify_firewall plan = elim (validate_firewall_plan plan) [
    | some m ↦ pure (some m)
    | none ↦
        observe_command env "nft"
          ("list" ∷ "table" ∷ firewall_family plan ∷ firewall_table plan ∷ [])
        >>= λ shown. pure (shown_firewall plan shown)
  ]
