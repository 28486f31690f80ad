-- ===== src/Network/Executor/PolicyRule.antt =====
-- internal/network/executor/policy_rule.go.
use tunwarden.Prelude.{
  String, Bool, true, false, not, ◌&&◌, ◌||◌, Option, none, some, List, [], ◌∷◌, ◌++◌, map,
  if◌then◌else◌, ◌==◌,
}
use tunwarden.Result.{Result, ok, err}
use tunwarden.Text.{◌<>◌, fields, trim_suffix, int_text}
use tunwarden.Recovery.Host.{Env, M, ◌>>=◌, pure}
use tunwarden.Network.TunPlan.{TunPolicyRulePlan}
use tunwarden.Network.Firewall.{quoted}
use tunwarden.Network.Executor.Command.{
  Step, observe_command, run_ip, flush_ipv4_route_cache, delete_and_flush,
}
use tunwarden.Network.Executor.Route.{route_table, contains_field, first_non_empty_line, no_step}

unfoldable pub rule_args : String → TunPolicyRulePlan → List String
rule_args op plan =
    ("-4" ∷ "rule" ∷ op ∷ "priority" ∷ int_text plan.priority ∷ [])
    ++ fields plan.selector
    ++ ("lookup" ∷ route_table plan.table ∷ [])

unfoldable pub normalize_rule_fields : List String → List String
normalize_rule_fields = map (λ field. trim_suffix field ":")

unfoldable pub contains_lookup_table : List String → String → Bool
contains_lookup_table [] table = false
contains_lookup_table (a ∷ []) table = false
contains_lookup_table (a ∷ b ∷ rest) table =
    (a == "lookup" && (b == table || route_table b == table))
    || contains_lookup_table (b ∷ rest) table

contains_all : List String → List String → Bool
contains_all line [] = true
contains_all line (want ∷ rest) = contains_field line want && contains_all line rest

unfoldable pub verify_policy_rule_line : String → TunPolicyRulePlan → Option String
unfolding contains_all
verify_policy_rule_line line plan =
    let seen = normalize_rule_fields (fields line) in
    if not (contains_all seen (fields plan.selector))
    then some ("selector mismatch: expected " <> quoted plan.selector <> " in " <> quoted line)
    else if not (contains_lookup_table seen (route_table plan.table))
    then some
        ("lookup table mismatch: expected " <> route_table plan.table <> " in " <> quoted line)
    else none

abbrev pub rule_step : TunPolicyRulePlan → Step
rule_step plan = record {
  kind = "policy-rule";
  target =
      "priority " <> int_text plan.priority <> " " <> plan.selector <> " lookup " <> plan.table;
  description = plan.reason;
  owner = "podlaz:policy-rule";
}

abbrev about : TunPolicyRulePlan → String
about plan = "policy rule priority " <> int_text plan.priority

module _ (env : Env) where
  -- the command of `existingPolicyRuleLine` and of `Verify`
  unfoldable pub existing_policy_rule_line : TunPolicyRulePlan → M (Result String String)
  existing_policy_rule_line plan =
      observe_command env "ip" ("-4" ∷ "rule" ∷ "show" ∷ "priority" ∷ int_text plan.priority ∷ [])
      >>= λ (result, e).
          pure (elim e [ none ↦ ok (first_non_empty_line result.stdout) | some m ↦ err m ])

  unfoldable pub add_missing_rule : TunPolicyRulePlan → M (Result String Step)
  add_missing_rule plan = run_ip env (rule_args "add" plan) >>= λ e. elim e [
    | some m ↦ pure (err ("add " <> about plan <> ": " <> m))
    | none ↦ flush_ipv4_route_cache env >>= λ f. pure (elim f [
      | some m ↦ err ("flush IPv4 route cache after add " <> about plan <> ": " <> m)
      | none ↦ ok (rule_step plan)
    ])
  ]

  unfoldable pub existing_matches : TunPolicyRulePlan → String → Result String Step
  existing_matches plan line = elim (verify_policy_rule_line line plan) [
    | some m ↦ err ("existing " <> about plan <> " differs from planned rule: " <> m)
    | none ↦ ok no_step
  ]

  unfoldable pub keep_or_add : TunPolicyRulePlan → Result String String → M (Result String Step)
  unfolding existing_matches
  keep_or_add plan (err m) = pure (err ("inspect existing " <> about plan <> ": " <> m))
  keep_or_add plan (ok line) =
      if not (line == "") then pure (existing_matches plan line) else add_missing_rule plan

  unfoldable pub add_policy_rule : TunPolicyRulePlan → M (Result String Step)
  unfolding keep_or_add
  add_policy_rule plan = existing_policy_rule_line plan >>= keep_or_add plan

  verdict : TunPolicyRulePlan → Result String String → Option String
  verdict plan (err m) = some ("verify " <> about plan <> ": " <> m)
  verdict plan (ok line) =
      if line == ""
      then some ("verify " <> about plan <> ": rule not found")
      else elim (verify_policy_rule_line line plan) [
        | none ↦ none
        | some m ↦ some ("verify " <> about plan <> ": " <> m)
      ]

  unfoldable pub verify_policy_rule : TunPolicyRulePlan → M (Option String)
  unfolding verdict
  verify_policy_rule plan = existing_policy_rule_line plan >>= λ r. pure (verdict plan r)

  unfoldable pub rollback_policy_rule_plan : TunPolicyRulePlan → M (Option String)
  rollback_policy_rule_plan plan =
      delete_and_flush env (rule_args "del" plan) ("delete " <> about plan)
        ("flush IPv4 route cache after delete " <> about plan)
