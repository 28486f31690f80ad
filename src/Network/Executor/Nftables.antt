-- ===== src/Network/Executor/Nftables.antt =====
-- internal/network/executor/nftables.go: the tests and the command lines of `NftablesExecutor`.
pub mod Run
pub mod Match
pub mod Owned
pub mod Failing
use Prim.Native.Char.{code}
use Prim.Native.String.{[], ◌∷◌}
use tunwarden.Prelude.{
  String, Bool, true, false, not, ◌&&◌, ◌||◌, Option, none, some, List, [], ◌∷◌, ◌++◌, is_empty,
  any, map, nat_eq, if◌then◌else◌, ◌==◌,
}
use tunwarden.Result.{Result, ok, err}
use tunwarden.Text.{◌<>◌, trim_space, fields, has_prefix, contains, split, int_text}
use tunwarden.Recovery.Host.{CommandResult, Env, M, ◌>>=◌, pure}
use tunwarden.Network.TunPlan.{
  TunFirewallPlan, TunFirewallChainPlan, TunFirewallRulePlan, action_blocked, firewall_table_action,
  firewall_action_add,
}
use tunwarden.Network.Firewall.{quoted}
use tunwarden.Network.Executor.Command.{
  Step, observe_command, run_tool, failure_of, wrapped, joined,
}

abbrev pub owner_firewall : String
owner_firewall = "podlaz:nftables"

abbrev pub owned_nft_family : String
owned_nft_family = "inet"

abbrev pub owned_nft_table : String
owned_nft_table = "podlaz"

trim_quotes_left : String → String
trim_quotes_left [] = ""
trim_quotes_left (c ∷ s) =
    let rest = trim_quotes_left s in if nat_eq (code c) 34 then rest else c ∷ s

trim_quotes_right : String → String
trim_quotes_right [] = ""
trim_quotes_right (c ∷ s) =
    let rest = trim_quotes_right s in if rest == "" && nat_eq (code c) 34 then "" else c ∷ rest

-- strings.Trim of the quotation marks at both ends
unfoldable pub trim_quotes : String → String
unfolding trim_quotes_left trim_quotes_right
trim_quotes s = trim_quotes_right (trim_quotes_left s)

unfoldable pub nft_expression_fields : String → List String
nft_expression_fields expr = map trim_quotes (fields expr)

escaped : String → String
escaped [] = ""
escaped (c ∷ s) =
    if nat_eq (code c) 92 || nat_eq (code c) 34 then "\\" <> (c ∷ escaped s) else c ∷ escaped s

-- a backslash before each backslash and each quotation mark
unfoldable pub nft_string_literal : String → String
unfolding escaped
nft_string_literal value = "\"" <> escaped value <> "\""

-- `want` is what is left of it from the place that the loop has reached
unfoldable pub contains_ordered_fields : List String → List String → Bool
contains_ordered_fields fields [] = true
contains_ordered_fields [] (w ∷ want) = false
contains_ordered_fields (f ∷ fields) (w ∷ want) =
    contains_ordered_fields fields (if f == w then want else w ∷ want)

unfoldable pub nft_rule_fields : TunFirewallRulePlan → List String
nft_rule_fields rule =
    nft_expression_fields rule.expr ++ ("counter" ∷ rule.verdict ∷ "comment" ∷ rule.ownership ∷ [])

unfoldable pub nft_output_contains_rule : String → TunFirewallRulePlan → Bool
nft_output_contains_rule output rule =
    any (λ line. contains_ordered_fields (nft_expression_fields line) (nft_rule_fields rule))
      (split 10 output)

-- `firewallFamilyTable`
abbrev pub firewall_family : TunFirewallPlan → String
firewall_family plan = trim_space plan.family

abbrev pub firewall_table : TunFirewallPlan → String
firewall_table plan = trim_space plan.table

unfoldable pub executor_firewall_target : TunFirewallPlan → String
executor_firewall_target plan = firewall_family plan <> " " <> firewall_table plan

unfoldable pub validate_owned_firewall_target : String → String → Option String
validate_owned_firewall_target family table =
    if not (family == owned_nft_family) || not (table == owned_nft_table)
    then some ("refuse to mutate non-podlaz nftables target " <> family <> " " <> table)
    else none

unfoldable pub should_apply_firewall : TunFirewallPlan → Bool
should_apply_firewall plan =
    plan.table_action == firewall_table_action && not (trim_space plan.table == "")

unfoldable pub chain_error : TunFirewallChainPlan → Option String
chain_error chain =
    if trim_space chain.name == ""
    then some "missing nftables chain name"
    else if trim_space chain.type == ""
        || trim_space chain.hook == ""
        || trim_space chain.policy == ""
    then some ("incomplete nftables chain " <> chain.name)
    else none

unfoldable pub rule_error : TunFirewallRulePlan → Option String
rule_error rule =
    if not (rule.action == firewall_action_add)
    then none
    else if trim_space rule.chain == ""
        || trim_space rule.expr == ""
        || trim_space rule.verdict == ""
    then some ("incomplete nftables rule " <> rule.rollback_key)
    else if not (has_prefix rule.ownership "podlaz:firewall:")
    then some
        ("nftables rule " <> rule.rollback_key <> " has non-podlaz owner " <> quoted rule.ownership)
    else none

-- the first error of a loop, or what comes after the loop
unfoldable pub first_error :
    {P : Type 0} → (P → Option String) → List P → Option String → Option String
first_error error [] next = next
first_error error (x ∷ xs) next =
    let rest = first_error error xs next in elim (error x) [ some m ↦ some m | none ↦ rest ]

unfoldable pub validate_firewall_plan : TunFirewallPlan → Option String
unfolding validate_owned_firewall_target chain_error rule_error
validate_firewall_plan plan =
    if plan.table_action == action_blocked
    then some ("firewall desired state is blocked: " <> plan.reason)
    else if not (plan.table_action == "") && not (plan.table_action == firewall_table_action)
    then some ("unsupported firewall table action " <> quoted plan.table_action)
    else if not (plan.backend == "") && not (plan.backend == "nftables")
    then some ("unsupported firewall backend " <> quoted plan.backend)
    else if firewall_family plan == ""
    then some "missing nftables family"
    else if firewall_table plan == ""
    then some "missing nftables table"
    else elim (validate_owned_firewall_target (firewall_family plan) (firewall_table plan)) [
      | some m ↦ some m
      | none ↦
          if is_empty plan.chains
          then some "missing nftables chains"
          else first_error chain_error plan.chains (first_error rule_error plan.rules none)
    ]

-- the chains and rules that `Apply` installs
abbrev pub chain_is_wanted : TunFirewallChainPlan → Bool
chain_is_wanted chain = chain.action == firewall_table_action || chain.action == firewall_action_add

abbrev pub rule_is_wanted : TunFirewallRulePlan → Bool
rule_is_wanted rule = rule.action == firewall_action_add

abbrev pub chain_args : String → String → TunFirewallChainPlan → List String
chain_args family table chain =
    "add"
    ∷ "chain"
    ∷ family
    ∷ table
    ∷ chain.name
    ∷ "{"
    ∷ "type"
    ∷ chain.type
    ∷ "hook"
    ∷ chain.hook
    ∷ "priority"
    ∷ int_text chain.priority
    ∷ ";"
    ∷ "policy"
    ∷ chain.policy
    ∷ ";"
    ∷ "}"
    ∷ []

abbrev pub firewall_rule_args : String → String → TunFirewallRulePlan → List String
firewall_rule_args family table rule =
    ("add" ∷ "rule" ∷ family ∷ table ∷ rule.chain ∷ [])
    ++ nft_expression_fields rule.expr
    ++ ("counter" ∷ rule.verdict ∷ "comment" ∷ nft_string_literal rule.ownership ∷ [])

abbrev pub firewall_step : TunFirewallPlan → Step
firewall_step plan = record {
  kind = "nftables";
  target = executor_firewall_target plan;
  description = plan.reason;
  owner = owner_firewall;
}
