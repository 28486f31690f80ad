-- ===== src/Network/Undo.antt =====
-- internal/network/planner/tun.go: the steps that undo a plan.
use tunwarden.Prelude.{String, not, List, [], ◌∷◌, ◌++◌, if◌then◌else◌, ◌==◌}
use Prim.Native.String.{[], ◌∷◌}
use tunwarden.Text.{◌<>◌, join, int_text}
use tunwarden.Network.TunPlan.{
  TunDevicePlan, TunRoutePlan, TunPolicyRulePlan, TunDnsPlan, TunFirewallPlan,
}

abbrev pub part_if : String → String → List String
part_if word value = if value == "" then [] else word ∷ value ∷ []

unfoldable pub rollback_route_step : TunRoutePlan → String
rollback_route_step route = join " " (
    ("Delete route" ∷ route.destination ∷ [])
    ++ part_if "from table" route.table
    ++ part_if "via" route.gateway
    ++ part_if "dev" route.interface
    ++ ("if created by this transaction" ∷ []))

unfoldable pub rollback_rule_step : TunPolicyRulePlan → String
rollback_rule_step rule =
    "Delete policy rule priority "
    <> int_text rule.priority
    <> " "
    <> rule.selector
    <> " lookup "
    <> rule.table
    <> " if created by this transaction"

-- the loops from the last entry to the first
unfoldable pub rules_undone : List TunPolicyRulePlan → List String
rules_undone [] = []
rules_undone (rule ∷ rules) = rules_undone rules ++ rollback_rule_step rule ∷ []

unfoldable pub routes_undone : List TunRoutePlan → List String
routes_undone [] = []
routes_undone (route ∷ routes) =
    routes_undone routes
    ++ (if not (route.action == "add") then [] else rollback_route_step route ∷ [])

unfoldable pub rollback_steps :
    TunDevicePlan
    → List TunRoutePlan
    → List TunPolicyRulePlan
    → TunDnsPlan
    → TunFirewallPlan
    → List String
unfolding rules_undone routes_undone
rollback_steps device routes rules dns firewall =
    firewall.rollback_steps
    ++ dns.rollback_steps
    ++ rules_undone rules
    ++ routes_undone routes
    ++ ("Delete TUN interface " <> device.name
        <> " only if this transaction created it and ownership matches podlaz")
      ∷ []
