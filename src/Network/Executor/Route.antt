-- ===== src/Network/Executor/Route.antt =====
-- internal/network/executor/route.go and route_idempotency.go.
use tunwarden.Prelude.{
  String, Bool, false, not, ◌&&◌, ◌||◌, Option, none, some, List, [], ◌∷◌, ◌++◌, if◌then◌else◌,
  ◌==◌,
}
use tunwarden.Result.{Result, ok, err}
use tunwarden.Text.{◌<>◌, trim_space, fields, has_suffix, trim_suffix, split, itoa}
use tunwarden.Netip.{is_ipv4_host}
use tunwarden.Recovery.Host.{Env, M, ◌>>=◌, pure}
use tunwarden.Network.TunPlan.{
  TunRoutePlan, tun_routing_table, tun_routing_table_id, main_routing_table, ipv4_default_route,
}
use tunwarden.Network.Firewall.{quoted}
use tunwarden.Network.Executor.Command.{
  Step, observe_command, run_ip, flush_ipv4_route_cache, delete_and_flush,
}

unfoldable pub route_table : String → String
route_table table =
    if table == tun_routing_table
    then itoa tun_routing_table_id
    else if table == ""
    then main_routing_table
    else table

unfoldable pub route_args : String → TunRoutePlan → List String
route_args op plan =
    ("-4" ∷ "route" ∷ op ∷ plan.destination ∷ [])
    ++ (if not (plan.gateway == "") then "via" ∷ plan.gateway ∷ [] else [])
    ++ (if not (plan.interface == "") then "dev" ∷ plan.interface ∷ [] else [])
    ++ ("table" ∷ route_table plan.table ∷ [])

unfoldable pub route_token_matches : String → String → Bool
route_token_matches got want =
    got == want
    || (has_suffix want "/32" && got == trim_suffix want "/32")
    || (has_suffix got "/32" && trim_suffix got "/32" == want)

unfoldable pub contains_field : List String → String → Bool
contains_field [] want = false
contains_field (field ∷ rest) want = route_token_matches field want || contains_field rest want

unfoldable pub contains_adjacent_fields : List String → String → String → Bool
contains_adjacent_fields [] first second = false
contains_adjacent_fields (a ∷ []) first second = false
contains_adjacent_fields (a ∷ b ∷ rest) first second =
    (a == first && route_token_matches b second) || contains_adjacent_fields (b ∷ rest) first second

first_of : List String → String
first_of [] = ""
first_of (line ∷ lines) =
    let rest = first_of lines in if not (trim_space line == "") then trim_space line else rest

unfoldable pub first_non_empty_line : String → String
unfolding first_of
first_non_empty_line s = first_of (split b'\n' s)

unfoldable pub verify_route_line : String → TunRoutePlan → Option String
verify_route_line line plan =
    if not (plan.destination == ipv4_default_route)
      && not (contains_field (fields line) plan.destination)
    then some ("destination mismatch in " <> quoted line)
    else if not (plan.interface == "")
        && not (contains_adjacent_fields (fields line) "dev" plan.interface)
    then some ("interface mismatch: expected dev " <> plan.interface <> " in " <> quoted line)
    else if not (plan.gateway == "")
        && not (contains_adjacent_fields (fields line) "via" plan.gateway)
    then some ("gateway mismatch: expected via " <> plan.gateway <> " in " <> quoted line)
    else none

unfoldable pub main_server_bypass_route : TunRoutePlan → Bool
main_server_bypass_route plan =
    route_table plan.table == main_routing_table
    && is_ipv4_host (trim_space plan.destination)
    && not (trim_space plan.gateway == "")
    && not (trim_space plan.interface == "")

abbrev pub no_step : Step
no_step = record { kind = ""; target = ""; description = ""; owner = "" }

abbrev pub route_step : TunRoutePlan → Step
route_step plan = record {
  kind = "route";
  target = plan.table <> " " <> plan.destination;
  description = plan.reason;
  owner = "podlaz:route";
}

abbrev about : TunRoutePlan → String
about plan = plan.destination <> " table " <> plan.table

module _ (env : Env) where
  -- the command of `existingRouteLine` and of `Verify`
  unfoldable pub existing_route_line : TunRoutePlan → M (Result String String)
  existing_route_line plan =
      observe_command env "ip"
        ("-4" ∷ "route" ∷ "show" ∷ "table" ∷ route_table plan.table ∷ plan.destination ∷ [])
      >>= λ (result, e).
          pure (elim e [ none ↦ ok (first_non_empty_line result.stdout) | some m ↦ err m ])

  unfoldable pub add_missing_route : TunRoutePlan → M (Result String Step)
  add_missing_route plan = run_ip env (route_args "add" plan) >>= λ e. elim e [
    | some m ↦ pure (err ("add route " <> about plan <> ": " <> m))
    | none ↦ flush_ipv4_route_cache env >>= λ f. pure (elim f [
      | some m ↦ err ("flush IPv4 route cache after add route " <> about plan <> ": " <> m)
      | none ↦ ok (route_step plan)
    ])
  ]

  unfoldable pub existing_matches : TunRoutePlan → String → Result String Step
  existing_matches plan line = elim (verify_route_line line plan) [
    | some m ↦ err ("existing route " <> about plan <> " differs from planned server bypass: " <> m)
    | none ↦ ok no_step
  ]

  unfoldable pub keep_or_add : TunRoutePlan → Result String String → M (Result String Step)
  unfolding existing_matches
  keep_or_add plan (err m) = pure (err ("inspect existing route " <> about plan <> ": " <> m))
  keep_or_add plan (ok line) =
      if not (line == "") then pure (existing_matches plan line) else add_missing_route plan

  unfoldable pub add_route : TunRoutePlan → M (Result String Step)
  unfolding keep_or_add
  add_route plan =
      if main_server_bypass_route plan
      then existing_route_line plan >>= keep_or_add plan
      else add_missing_route plan

  verdict : TunRoutePlan → Result String String → Option String
  verdict plan (err m) = some ("verify route " <> about plan <> ": " <> m)
  verdict plan (ok line) =
      if line == ""
      then some ("verify route " <> about plan <> ": route not found")
      else elim (verify_route_line line plan) [
        | none ↦ none
        | some m ↦ some ("verify route " <> about plan <> ": " <> m)
      ]

  unfoldable pub verify_route : TunRoutePlan → M (Option String)
  unfolding verdict
  verify_route plan = existing_route_line plan >>= λ r. pure (verdict plan r)

  unfoldable pub rollback_route_plan : TunRoutePlan → M (Option String)
  rollback_route_plan plan =
      delete_and_flush env (route_args "del" plan) ("delete route " <> about plan)
        ("flush IPv4 route cache after delete route " <> about plan)
