-- ===== src/Network/Executor/Full/Planned.antt =====
-- The executor takes the plans that the planner makes.
use text.Mathlib.TextLemmas.{cons-append}
use tunwarden.Prelude.{
  String, ◌≡◌, refl, Bool, true, false, not, Option, none, List, [], ◌∷◌, if◌then◌else◌, ◌==◌,
  Bool-cases, inl, inr,
}
use tunwarden.Text.{◌<>◌, trim_space, is_space, has_prefix}
use tunwarden.Text.Laws.{trim_space_of_visible}
use tunwarden.Network.Snapshot.{Snapshot, status_detected}
use tunwarden.Network.TunPlan.{TunOptions}
use tunwarden.Network.Compact.Laws.{normalize_dns_servers_lem}
use tunwarden.Network.Parts.{dns_plan}
use tunwarden.Network.Firewall.{
  firewall_plan, table_action_of, firewall_rule_action, firewall_rules, server_bypass_firewall_rule,
  loopback_firewall_rule, tun_egress_firewall_rule, kill_switch_firewall_rule,
  normalize_kill_switch_policy,
}
use tunwarden.Network.Planner.{Profile, plan_for, planned_device}
use tunwarden.Network.Executor.Resolved.{validate_dns_plan, should_apply_dns}
use tunwarden.Network.Executor.Nftables.{
  validate_firewall_plan, validate_owned_firewall_target, chain_error, rule_error, first_error,
  should_apply_firewall,
}
use tunwarden.Network.Executor.Full.{has_firewall_plan, validate_plan}

-- the snapshot shows what DNS and the firewall need, and no table of an earlier run
pub record IsReady (s : Snapshot) : Type 0 where
  pub resolved : (s.dns.resolved.status == status_detected) ≡ true
  pub nft : (s.nftables.availability.status == status_detected) ≡ true
  pub no_table : (s.nftables.podlaz_table.status == status_detected) ≡ false

output_shows : (trim_space "output" == "") ≡ false
unfolding trim_space
output_shows = refl

accept_shows : (trim_space "accept" == "") ≡ false
unfolding trim_space
accept_shows = refl

bypass_is_accepted : (ip : String) → rule_error (server_bypass_firewall_rule ip "add") ≡ none
unfolding rule_error server_bypass_firewall_rule has_prefix is_space
bypass_is_accepted ip = elim (Bool-cases (ip == "")) [
  | inl e ↦ rw e refl
  | inr e ↦
      let expr : (trim_space ("ip daddr " <> ip) == "") ≡ false =
        rw (cons-append "i" "p daddr " ip) (trim_space_of_visible "i" ("p daddr " <> ip) refl) in
      rw (e, expr, output_shows, accept_shows) refl
]

loopback_is_accepted : rule_error (loopback_firewall_rule "add") ≡ none
unfolding rule_error loopback_firewall_rule has_prefix trim_space
loopback_is_accepted = refl

egress_is_accepted : rule_error (tun_egress_firewall_rule planned_device "add") ≡ none
unfolding rule_error tun_egress_firewall_rule has_prefix trim_space
egress_is_accepted = refl

kill_switch_is_accepted :
    (policy : String) → rule_error (kill_switch_firewall_rule policy planned_device "add") ≡ none
unfolding rule_error kill_switch_firewall_rule has_prefix trim_space
kill_switch_is_accepted policy = elim (Bool-cases (policy == "off")) [
  | inl e ↦ rw e refl
  | inr e ↦ elim (Bool-cases (policy == "strict")) [
    | inl f ↦ rw (e, f) refl
    | inr f ↦ rw (e, f) refl
  ]
]

no_error_cons :
    {P : Type 0} (error : P → Option String) (x : P) (xs : List P) (next : Option String)
    → error x ≡ none
    → first_error error xs next ≡ none
    → first_error error (x ∷ xs) next ≡ none
unfolding first_error
no_error_cons error x xs next h k = rw (h, first_error) k

rules_are_accepted :
    (policy ip : String)
    → first_error rule_error (firewall_rules policy planned_device ip "add") none ≡ none
unfolding firewall_rules
rules_are_accepted policy ip = no_error_cons _ _ _ _ (bypass_is_accepted ip) (
    no_error_cons _ _ _ _ loopback_is_accepted (
      no_error_cons _ _ _ _ egress_is_accepted
        (last (not ((kill_switch_firewall_rule policy planned_device "add").action == "")))))
  where
    last :
        (b : Bool)
        → first_error rule_error
            (if b then kill_switch_firewall_rule policy planned_device "add" ∷ [] else [])
            none
          ≡ none
    last true = no_error_cons _ _ _ _ (kill_switch_is_accepted policy) (unfold first_error in refl)
    last false = unfold first_error in refl

module _ (p : Profile) (s : Snapshot) (opts : TunOptions) (server_ip : String)
    (ready : IsReady s) where
  dns_is_accepted :
      (validate_dns_plan (plan_for p s opts server_ip).dns ≡ none)
      × (should_apply_dns (plan_for p s opts server_ip).dns ≡ true)
  unfolding validate_dns_plan should_apply_dns plan_for dns_plan trim_space
  dns_is_accepted =
      rw (ready.resolved, (normalize_dns_servers_lem opts.dns_servers "x" refl).1) (refl, refl)

  chains_are_accepted :
      first_error chain_error (plan_for p s opts server_ip).firewall.chains none ≡ none
  unfolding first_error chain_error plan_for firewall_plan trim_space
  chains_are_accepted = refl

  firewall_is_accepted :
      (validate_firewall_plan (plan_for p s opts server_ip).firewall ≡ none)
      × (should_apply_firewall (plan_for p s opts server_ip).firewall ≡ true)
  unfolding validate_firewall_plan should_apply_firewall validate_owned_firewall_target plan_for
      firewall_plan table_action_of firewall_rule_action trim_space chain_error first_error
  firewall_is_accepted =
      let policy = normalize_kill_switch_policy opts.kill_switch_policy in
      rw (ready.no_table, ready.nft) (rules_are_accepted policy server_ip, refl)

-- The whole executor takes every plan of the planner whose snapshot found systemd-resolved and nft and no table of an
-- earlier run, whether or not the server's address is known: `validate` finds no fault in it, and both DNS and the
-- firewall are to be applied.
pub planned_tun_is_accepted :
    (p : Profile) (s : Snapshot) (opts : TunOptions) (server_ip : String)
    → IsReady s
    → let plan = plan_for p s opts server_ip in
      (validate_plan plan ≡ none)
      × (should_apply_dns plan.dns ≡ true)
      × (should_apply_firewall plan.firewall ≡ true)
unfolding validate_plan
planned_tun_is_accepted p s opts server_ip ready =
    let (d, d') = dns_is_accepted p s opts server_ip ready in
    let (f, f') = firewall_is_accepted p s opts server_ip ready in
    (
      rw (d, validate_plan)
          (elim (Bool-cases (has_firewall_plan (plan_for p s opts server_ip).firewall)) [
            | inl e ↦ rw e f
            | inr e ↦ rw e refl
          ]),
      d',
      f',
    )
