-- ===== src/Daemon/RoundTrip.antt =====
-- What a disconnect, which knows only the transaction's file, undoes of a plan.
use text.Mathlib.TextLemmas.{append-eq-nil_iff}
use tunwarden.Prelude.{
  String, ◌≡◌, refl, ap, ◌∙◌, sym, false, List, [], ◌∷◌, ◌++◌, append-nil, map, All, ◌==◌,
  Bool-cases, inl, inr, eq_iff,
}
use tunwarden.Text.{◌<>◌, trim_space, has_prefix, trim_prefix}
use tunwarden.Text.Laws.{has_prefix-append, trim_prefix-append}
use tunwarden.State.Transaction.{Transaction}
use tunwarden.Recovery.Host.{Action, Env}
use tunwarden.Network.Snapshot.{Snapshot}
use tunwarden.Network.TunPlan.{TunPlan, TunOptions, TunRoutePlan, TunPolicyRulePlan}
use tunwarden.Network.Planner.{Profile, plan_for, server_rule_plan, default_rule_plan}
use tunwarden.Network.Executor.Route.{route_args}
use tunwarden.Network.Executor.PolicyRule.{rule_args}
use tunwarden.Network.Parts.{dns_plan}
use tunwarden.Network.Firewall.{firewall_plan, table_action_of}
use tunwarden.Network.Executor.Nftables.Owned.{TargetsOwn}
use tunwarden.Network.Executor.Nftables.Failing.{table_args}
use tunwarden.Network.Executor.Full.{new_os_dns_executor, full_rollback}
use tunwarden.Network.Executor.Full.Undone.{full_rollback_tries_everything}
use tunwarden.Network.Executor.Full.Planned.{IsReady}
use tunwarden.Network.Executor.Undone.{
  backwards, route_deletion, rule_deletion, device_commands, undoing, commands,
}
use tunwarden.Daemon.Metadata.{
  policy_rule_rollback, route_rollbacks, rule_rollbacks, rollback_metadata_from_tun_plan,
}
use tunwarden.Daemon.Restored.{
  restored_route, restored_rule, restored_selector, tun_plan_from_transaction,
}

routes_come_back :
    (routes : List TunRoutePlan)
    → backwards (λ r. r.action) route_deletion (map restored_route (route_rollbacks routes))
      ≡ backwards (λ r. r.action) route_deletion routes
unfolding route_rollbacks route_args
routes_come_back [] = refl
routes_come_back (route ∷ routes) = elim (Bool-cases (route.action == "add")) [
  | inl e ↦ rw (e, route_rollbacks, routes_come_back routes) refl
  | inr e ↦ rw (e, route_rollbacks, routes_come_back routes) (sym (append-nil _))
]

-- the selector is read back as it was
abbrev pub ComesBack : TunPolicyRulePlan → Type 0
ComesBack rule = restored_selector (policy_rule_rollback rule) ≡ rule.selector

rules_come_back :
    (rules : List TunPolicyRulePlan)
    → All ComesBack rules
    → backwards (λ r. r.action) rule_deletion (map restored_rule (rule_rollbacks rules))
      ≡ backwards (λ r. r.action) rule_deletion rules
unfolding rule_rollbacks rule_args policy_rule_rollback
rules_come_back [] k = refl
rules_come_back (rule ∷ rules) (h, k) = elim (Bool-cases (rule.action == "add")) [
  | inl e ↦ rw (e, rule_rollbacks, rules_come_back rules k, h) refl
  | inr e ↦ rw (e, rule_rollbacks, rules_come_back rules k) (sym (append-nil _))
]

default-ComesBack : ComesBack default_rule_plan
unfolding restored_selector policy_rule_rollback trim_space has_prefix trim_prefix
default-ComesBack = refl

-- the server's address has no blanks at its ends
abbrev pub IsTrimmed : String → Type 0
IsTrimmed destination =
    (trim_space destination ≡ destination)
    × (trim_space ("to " <> destination) ≡ "to " <> destination)

bypass-ComesBack :
    (rule : TunPolicyRulePlan) (x : String)
    → rule.selector ≡ "to " <> x
    → IsTrimmed x
    → (x == "") ≡ false
    → ComesBack rule
unfolding restored_selector policy_rule_rollback
bypass-ComesBack rule x e trimmed h =
    rw (e, trimmed.1, has_prefix-append "to " x, trim_prefix-append "to " x, trimmed.0, h) refl

destination-ne-empty : (ip : String) → ((ip <> "/32") == "") ≡ false
destination-ne-empty ip = elim (Bool-cases ((ip <> "/32") == "")) [
  | inl e ↦ absurd (cc (append-eq-nil_iff.0 ((eq_iff (ip <> "/32") "").0 e)).1)
  | inr e ↦ e
]

module _ (p : Profile) (s : Snapshot) (opts : TunOptions) (server_ip : String) where
  planned_rules_come_back :
      IsTrimmed (server_ip <> "/32") → All ComesBack (plan_for p s opts server_ip).policy_rules
  unfolding plan_for
  planned_rules_come_back trimmed = elim (Bool-cases (server_ip == "")) [
    | inl e ↦ rw e (default-ComesBack, tt)
    | inr e ↦ rw e (
      bypass-ComesBack (server_rule_plan server_ip) (server_ip <> "/32") refl trimmed
          (destination-ne-empty server_ip),
      (default-ComesBack, tt),
    )
  ]

module _ (plan : TunPlan) (tx : Transaction)
    (recorded : tx.rollback ≡ rollback_metadata_from_tun_plan plan) where
  device_comes_back :
      device_commands (tun_plan_from_transaction tx).tun_device ≡ device_commands plan.tun_device
  unfolding tun_plan_from_transaction rollback_metadata_from_tun_plan
  device_comes_back = rw recorded (elim (Bool-cases (plan.tun_device.name == "")) [
    | inl e ↦ rw e refl
    | inr e ↦ rw (e, e) refl
  ])

  undoing-ComesBack :
      All ComesBack plan.policy_rules → undoing (tun_plan_from_transaction tx) ≡ undoing plan
  unfolding tun_plan_from_transaction rollback_metadata_from_tun_plan
  undoing-ComesBack k =
      rw device_comes_back
        (rw recorded (rw (rules_come_back plan.policy_rules k, routes_come_back plan.routes) refl))

module _ (p : Profile) (s : Snapshot) (opts : TunOptions) (server_ip : String) (ready : IsReady s)
    (tx : Transaction)
    (recorded : tx.rollback ≡ rollback_metadata_from_tun_plan (plan_for p s opts server_ip)) where
  restored-TargetsOwn : TargetsOwn (tun_plan_from_transaction tx).firewall
  unfolding tun_plan_from_transaction rollback_metadata_from_tun_plan plan_for firewall_plan
      table_action_of trim_space
  restored-TargetsOwn = rw (recorded, ready.no_table, ready.nft) (refl, refl)

  restored_link : (tun_plan_from_transaction tx).dns.target_link ≡ "podlaz0"
  unfolding tun_plan_from_transaction rollback_metadata_from_tun_plan plan_for dns_plan
  restored_link = rw (recorded, ready.resolved) refl

planned-TargetsOwn :
    (p : Profile) (s : Snapshot) (opts : TunOptions) (server_ip : String)
    → TargetsOwn (plan_for p s opts server_ip).firewall
unfolding plan_for firewall_plan trim_space
planned-TargetsOwn p s opts server_ip = (refl, refl)

podlaz0_shows : (trim_space "podlaz0" == "") ≡ false
unfolding trim_space
podlaz0_shows = refl

planned_link_shows :
    (p : Profile) (s : Snapshot) (opts : TunOptions) (server_ip : String)
    → (trim_space (plan_for p s opts server_ip).dns.target_link == "") ≡ false
unfolding plan_for dns_plan
planned_link_shows p s opts server_ip = podlaz0_shows

planned_link :
    (p : Profile) (s : Snapshot) (opts : TunOptions) (server_ip : String)
    → (plan_for p s opts server_ip).dns.target_link ≡ "podlaz0"
unfolding plan_for dns_plan
planned_link p s opts server_ip = refl

-- A disconnect, which reads only the transaction's file, runs the same commands (besides `ip -4 route flush cache`)
-- as a rollback of the plan itself would: for a plan of the planner whose snapshot found systemd-resolved and nft and no
-- table of an earlier run, whose server address has no blanks at its ends, and a transaction that holds the rollback
-- metadata written for this plan, whatever else it holds.
pub disconnect_undoes_plan :
    (env : Env) (p : Profile) (s : Snapshot) (opts : TunOptions) (server_ip : String)
    (tx : Transaction) (log : List Action)
    → IsReady s
    → IsTrimmed (server_ip <> "/32")
    → tx.rollback ≡ rollback_metadata_from_tun_plan (plan_for p s opts server_ip)
    → commands (full_rollback (new_os_dns_executor env) (tun_plan_from_transaction tx) log).1
      ≡ commands (full_rollback (new_os_dns_executor env) (plan_for p s opts server_ip) log).1
disconnect_undoes_plan env p s opts server_ip tx log ready trimmed recorded =
    let plan = plan_for p s opts server_ip in
    let restored = tun_plan_from_transaction tx in
    let link = restored_link p s opts server_ip ready tx recorded in
    full_rollback_tries_everything env restored log
      (restored-TargetsOwn p s opts server_ip ready tx recorded) (rw link podlaz0_shows)
    ∙ ap
        (λ l.
          commands log
          ++ ("nft" ∷ table_args "delete")
            ∷ ("resolvectl" ∷ "revert" ∷ trim_space l ∷ [])
            ∷ undoing restored)
        (link ∙ sym (planned_link p s opts server_ip))
    ∙ ap
        (λ u.
          commands log
          ++ ("nft" ∷ table_args "delete")
            ∷ ("resolvectl" ∷ "revert" ∷ trim_space plan.dns.target_link ∷ [])
            ∷ u)
        (undoing-ComesBack plan tx recorded (planned_rules_come_back p s opts server_ip trimmed))
    ∙ sym (
        full_rollback_tries_everything env plan log (planned-TargetsOwn p s opts server_ip)
          (planned_link_shows p s opts server_ip))
