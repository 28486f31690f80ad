-- ===== src/Network/Planner/Routing.antt =====
-- Where a planned full tunnel sends traffic, and what it reports.
use tunwarden.Prelude.{
  ℕ, int_ltb, ◌≡◌, refl, String, Bool, true, false, not, ◌&&◌, ◌||◌, Option, none, some, List, [],
  ◌∷◌, ◌++◌, if◌then◌else◌, ◌==◌, arith, ap, ◌∙◌, any-append, eq_iff, eq_refl, Bool-cases, inl, inr,
}
use Prim.Native.Char.{code}
use Prim.Native.String.append
use Prim.Native.String.{[], ◌∷◌}
use tunwarden.Result.{Result, ok, err}
use tunwarden.Text.{◌<>◌, trim_space}
use tunwarden.Network.Snapshot.{Snapshot, status_detected, default_tun_name}
use tunwarden.Network.TunPlan.{
  TunOptions, TunPolicyRulePlan, TunPlan, main_routing_table, tun_routing_table,
}
use tunwarden.Network.Compact.{has}
use tunwarden.Network.Compact.Laws.{occurs, compact_warnings_lem}
use tunwarden.Network.Warnings.{tun_route_loop_risks, warn_if}
use tunwarden.Network.Parts.{concrete_server_bypass_ip}
use tunwarden.Network.Planner.{
  Profile, plan_for, plan_tun, default_rule_plan, server_rule_plan, warnings_before,
}

-- Linux policy routing: among the rules of a packet's family that are added and whose selector fits its
-- destination, the one with the smallest priority number decides the table.
abbrev pub fits : String → String → TunPolicyRulePlan → Bool
fits family destination rule =
    (rule.action == "add" && family == rule.family)
    && (rule.selector == "from all" || rule.selector == "to " <> destination <> "/32")

abbrev pub better : TunPolicyRulePlan → Option TunPolicyRulePlan → TunPolicyRulePlan
better rule none = rule
better rule (some other) = if int_ltb other.priority rule.priority then other else rule

abbrev pub chosen : String → String → List TunPolicyRulePlan → Option TunPolicyRulePlan
chosen family destination [] = none
chosen family destination (rule ∷ rules) =
    let rest = chosen family destination rules in
    if fits family destination rule then some (better rule rest) else rest

-- the table that routes a packet of a family to a destination
abbrev pub table_for : String → String → List TunPolicyRulePlan → Option String
table_for family destination rules = elim (chosen family destination rules) [
  | none ↦ none
  | some rule ↦ some rule.table
]

-- the selector of one address
abbrev pub only : String → String
only address = "to " <> address <> "/32"

first : String → ℕ
first [] = 0
first (c ∷ s) = code c

first-only : (address : String) → first (only address) ≡ 116
unfolding first
first-only address = ap first (append.cons "t" "o " (address <> "/32"))

not_all : (address : String) → (only address == "from all") ≡ false
not_all address = elim (Bool-cases (only address == "from all")) [
  | inl e ↦
      (let q : first (only address) ≡ first "from all" =
          ap first ((eq_iff (only address) "from all").0 e) in
        absurd (unfold first in omega (arith, q, first-only address)))
  | inr e ↦ e
]

fits_server :
    (server_ip destination : String)
    → fits "ipv4" destination (server_rule_plan server_ip) ≡ (only server_ip == only destination)
fits_server server_ip destination = rw (not_all server_ip) refl

two_rules :
    (server_ip destination : String) (b : Bool)
    → fits "ipv4" destination (server_rule_plan server_ip) ≡ b
    → table_for "ipv4" destination (server_rule_plan server_ip ∷ default_rule_plan ∷ [])
      ≡ some (if b then main_routing_table else tun_routing_table)
two_rules server_ip destination true h = rw (h, table_for, fits, chosen) refl
two_rules server_ip destination false h = rw (h, table_for, fits, chosen) refl

planned_table :
    (p : Profile) (s : Snapshot) (opts : TunOptions) (server_ip destination : String)
    (unknown : Bool)
    → (server_ip == "") ≡ unknown
    → table_for "ipv4" destination (plan_for p s opts server_ip).policy_rules
      ≡ some (
          if not unknown && only server_ip == only destination
          then main_routing_table
          else tun_routing_table)
unfolding plan_for
planned_table p s opts server_ip destination true h = rw h refl
planned_table p s opts server_ip destination false h = rw h (
    two_rules server_ip destination (only server_ip == only destination)
      (fits_server server_ip destination))

no_rules :
    (server_ip family destination : String)
    → (family == "ipv4") ≡ false
    → table_for family destination (server_rule_plan server_ip ∷ default_rule_plan ∷ []) ≡ none
no_rules server_ip family destination h = rw (h, table_for, fits, chosen) refl

planned_family :
    (p : Profile) (s : Snapshot) (opts : TunOptions) (server_ip family destination : String)
    → (family == "ipv4") ≡ false
    → (unknown : Bool) → (server_ip == "") ≡ unknown
    → table_for family destination (plan_for p s opts server_ip).policy_rules ≡ none
unfolding plan_for
planned_family p s opts server_ip family destination h true e =
    rw e (rw (h, table_for, fits, chosen) refl)
planned_family p s opts server_ip family destination h false e =
    rw e (no_rules server_ip family destination h)

abbrev pub ok_of : TunPlan → Result String TunPlan
ok_of plan = ok plan

pub ok_plan :
    (parse_ip : String → Option String) (p : Profile) (s : Snapshot) (opts : TunOptions)
    (plan : TunPlan) (v : Option String)
    → (elim v [
      | some e ↦ err e
      | none ↦ ok (plan_for p s opts (concrete_server_bypass_ip parse_ip s))
    ])
      ≡ ok_of plan
    → plan_for p s opts (concrete_server_bypass_ip parse_ip s) ≡ plan
ok_plan parse_ip p s opts plan none h = cc
ok_plan parse_ip p s opts plan (some e) h = cc

-- In a plan that is given, policy routing sends an IPv4 packet to the address of the VPN server to the main
-- table, if the server's address is known, and an IPv4 packet to any other destination to the table of the
-- tunnel: among the rules that the executor adds, are of the packet's family and fit its destination, the one
-- with the smallest priority number looks up that table. No rule of the plan is about packets of another
-- family, so an IPv6 server has no bypass and IPv6 traffic stays outside the tunnel's table. Addresses
-- are compared as they stand in the selectors.
pub server_traffic_bypasses :
    (parse_ip : String → Option String) (p : Profile) (s : Snapshot) (opts : TunOptions)
    (plan : TunPlan) (family destination : String)
    → plan_tun parse_ip p s opts ≡ ok plan
    → let server_ip = concrete_server_bypass_ip parse_ip s in
      table_for family destination plan.policy_rules ≡ (
        if not (family == "ipv4")
        then none
        else some (
            if not (server_ip == "") && only server_ip == only destination
            then main_routing_table
            else tun_routing_table))
unfolding plan_tun
server_traffic_bypasses parse_ip p s opts plan family destination h =
    let q = ok_plan parse_ip p s opts plan p.validation h in
    let ip = concrete_server_bypass_ip parse_ip s in
    elim (Bool-cases (family == "ipv4")) [
      | inl e ↦ rw ((eq_iff family "ipv4").0 e, ← q) (planned_table p s opts ip destination _ refl)
      | inr e ↦ rw (e, ← q) (planned_family p s opts ip family destination e _ refl)
    ]

abbrev pub server_loop : String
server_loop = "route to VPN server candidate points at podlaz0; this would create a routing loop"

abbrev pub uplink_loop : String
uplink_loop =
    "current default IPv4 route points at podlaz0; full-tunnel planning needs a direct uplink snapshot"

risks_reported :
    (s : Snapshot) (message : String)
    → (message == "") ≡ false
    → has message (tun_route_loop_risks s)
      ≡ occurs message (
          warn_if
            (s.server_route.status == status_detected
              && s.server_route.interface == default_tun_name)
            server_loop
          ++ warn_if
              (s.default_ipv4.status == status_detected
                && s.default_ipv4.interface == default_tun_name)
              uplink_loop)
unfolding tun_route_loop_risks
risks_reported s message h = (compact_warnings_lem _ message h).1

through_tunnel :
    (b c : Bool) → occurs server_loop (warn_if b server_loop ++ warn_if c uplink_loop) ≡ b
unfolding trim_space
through_tunnel true c = refl
through_tunnel false true = refl
through_tunnel false false = refl

occurs_of_has :
    (v : String) (xs : List String) → trim_space v ≡ v → has v xs ≡ true → occurs v xs ≡ true
occurs_of_has v [] t h = cc
occurs_of_has v (x ∷ xs) t h = elim (Bool-cases (x == v)) [
  | inl e ↦ rw ((eq_iff x v).0 e, t) (ground (arith, eq_refl v))
  | inr e ↦ ground (arith, occurs_of_has v xs t)
]

occurs_right : (v : String) (xs ys : List String) → occurs v ys ≡ true → occurs v (xs ++ ys) ≡ true
occurs_right v xs ys h = ground (arith, any-append (λ x. trim_space x == v) xs ys)

server_loop_trimmed : trim_space server_loop ≡ server_loop
unfolding trim_space
server_loop_trimmed = refl

loop_in_warnings :
    (p : Profile) (s : Snapshot) (opts : TunOptions) (server_ip : String)
    → has server_loop (plan_for p s opts server_ip).loop_risks ≡ true
    → has server_loop (plan_for p s opts server_ip).warnings ≡ true
unfolding plan_for
loop_in_warnings p s opts server_ip h =
    let before =
      warnings_before s server_ip (plan_for p s opts server_ip).dns
        (plan_for p s opts server_ip).firewall in
    (compact_warnings_lem (before ++ tun_route_loop_risks s) server_loop refl).1
    ∙ occurs_right server_loop before (tun_route_loop_risks s)
        (occurs_of_has server_loop (tun_route_loop_risks s) server_loop_trimmed h)

implied : (a b : Bool) → (a ≡ true → b ≡ true) → (not a || b) ≡ true
implied true b h = h refl
implied false b h = refl

-- A plan names the routing loop among its risks exactly if the route to the VPN server was found on podlaz0,
-- and whenever it does, the loop stands among the plan's warnings too.
pub loops_are_reported :
    (parse_ip : String → Option String) (p : Profile) (s : Snapshot) (opts : TunOptions)
    (plan : TunPlan)
    → plan_tun parse_ip p s opts ≡ ok plan
    → (has server_loop plan.loop_risks ≡ (
        s.server_route.status == status_detected && s.server_route.interface == default_tun_name))
      × ((not (has server_loop plan.loop_risks) || has server_loop plan.warnings) ≡ true)
unfolding plan_tun
loops_are_reported parse_ip p s opts plan h =
    let q = ok_plan parse_ip p s opts plan p.validation h in
    rw (← q) (
      unfold plan_for in (risks_reported s server_loop refl ∙ through_tunnel _ _),
      implied _ _ (loop_in_warnings p s opts (concrete_server_bypass_ip parse_ip s)),
    )
