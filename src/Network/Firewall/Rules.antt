-- ===== src/Network/Firewall/Rules.antt =====
-- What the planned firewall rules block.
use tunwarden.Prelude.{
  ◌≡◌, refl, String, Bool, true, false, not, ◌&&◌, List, [], ◌∷◌, any, if◌then◌else◌, ◌==◌, ◌++◌,
  eq_iff, Bool-cases, ◌⊎◌, inl, inr, All,
}
use tunwarden.Text.{◌<>◌, trim_space, to_lower}
use tunwarden.Network.Snapshot.{Snapshot, status_detected}
use tunwarden.Network.TunPlan.{
  TunDevicePlan, TunFirewallRulePlan, verdict_reject, verdict_drop, verdict_accept, policy_off,
  policy_strict, policy_soft, action_blocked, firewall_action_add, firewall_action_validate,
}
use tunwarden.Network.Firewall.{
  quoted, firewall_plan, firewall_rules, normalize_kill_switch_policy, kill_switch_firewall_rule,
  server_bypass_firewall_rule, loopback_firewall_rule, tun_egress_firewall_rule,
  firewall_rule_action, table_action_of,
}

abbrev pub with_action : String → List TunFirewallRulePlan → Bool
with_action action = any (λ r. r.action == action)

-- a rule with the verdict is added
abbrev pub adds_verdict : String → List TunFirewallRulePlan → Bool
adds_verdict verdict = any (λ r. r.verdict == verdict && r.action == firewall_action_add)

-- nft can be used, and no table of an earlier run stands
abbrev pub can_create_table : Snapshot → Bool
can_create_table s =
    not (s.nftables.podlaz_table.status == status_detected)
    && s.nftables.availability.status == status_detected

-- the policy as the user wrote it, without blanks and in small letters
abbrev pub asked : String → String
asked policy = to_lower (trim_space policy)

same_either : {A : Type 0} (b : Bool) (x : A) → (if b then x else x) ≡ x
same_either true x = refl
same_either false x = refl

-- the three policies that `normalizeKillSwitchPolicy` gives
normalized_cases :
    (p : String)
    → ((asked p == policy_strict) ≡ true) × (normalize_kill_switch_policy p ≡ policy_strict)
      ⊎ (((asked p == policy_strict) ≡ false)
          × ((asked p == policy_off) ≡ true)
          × (normalize_kill_switch_policy p ≡ policy_off))
      ⊎ (((asked p == policy_strict) ≡ false)
          × ((asked p == policy_off) ≡ false)
          × (normalize_kill_switch_policy p ≡ policy_soft))
unfolding normalize_kill_switch_policy
normalized_cases p = elim (Bool-cases (asked p == policy_strict)) [
  | inl e ↦ rw ((eq_iff (asked p) policy_strict).0 e) (inl (refl, refl))
  | inr e ↦ elim (Bool-cases (asked p == policy_off)) [
    | inl e' ↦ rw ((eq_iff (asked p) policy_off).0 e') (inr (inl (refl, refl, refl)))
    | inr e' ↦ inr (inr (e, e', rw (e, e') (same_either _ policy_soft)))
  ]
]

-- the action of the rules, and whether the table can be created
action_cases :
    (s : Snapshot)
    → ((firewall_rule_action (table_action_of s) ≡ firewall_action_add)
        × (can_create_table s ≡ true))
      ⊎ ((firewall_rule_action (table_action_of s) ≡ firewall_action_validate)
          × (can_create_table s ≡ false))
      ⊎ ((firewall_rule_action (table_action_of s) ≡ action_blocked) × (can_create_table s ≡ false))
unfolding firewall_rule_action table_action_of
action_cases s = elim (Bool-cases (s.nftables.podlaz_table.status == status_detected)) [
  | inl e ↦ rw e (inr (inl (refl, refl)))
  | inr e ↦ elim (Bool-cases (s.nftables.availability.status == status_detected)) [
    | inl e' ↦ rw (e, e') (inl (refl, refl))
    | inr e' ↦ rw (e, e') (inr (inr (refl, refl)))
  ]
]

action_is_set : (s : Snapshot) → (firewall_rule_action (table_action_of s) == "") ≡ false
unfolding firewall_rule_action table_action_of
action_is_set s = elim (Bool-cases (s.nftables.podlaz_table.status == status_detected)) [
  | inl e ↦ rw e refl
  | inr e ↦ elim (Bool-cases (s.nftables.availability.status == status_detected)) [
    | inl e' ↦ rw (e, e') refl
    | inr e' ↦ rw (e, e') refl
  ]
]

either_set :
    (b : Bool) (x y : String)
    → (x == "") ≡ false
    → (y == "") ≡ false
    → ((if b then x else y) == "") ≡ false
either_set true x y h k = h
either_set false x y h k = k

kill_switch_action_is_set :
    (policy : String) (device : TunDevicePlan) (action : String)
    → (action == "") ≡ false
    → ((kill_switch_firewall_rule policy device action).action == "") ≡ false
unfolding kill_switch_firewall_rule
kill_switch_action_is_set policy device action h = elim (Bool-cases (policy == policy_off)) [
  | inl e ↦ rw e (either_set (action == action_blocked && false) _ _ refl refl)
  | inr e ↦ rw e (either_set (action == action_blocked && true) _ _ refl h)
]

-- only the last rule does not accept, and it is about the traffic outside the device
abbrev pub BlocksLast : TunDevicePlan → List TunFirewallRulePlan → Type 0
BlocksLast device rules =
    (accepts : List TunFirewallRulePlan) × (final : TunFirewallRulePlan) × (rules
      ≡ accepts ++ final ∷ [])
    × All (λ (r : TunFirewallRulePlan). r.verdict ≡ verdict_accept) accepts
    × (final.expr ≡ "oifname != " <> quoted device.name)

module _ (s : Snapshot) (device : TunDevicePlan) (server_ip : String) where
  rules_of_plan :
      (policy : String)
      → let action = firewall_rule_action (table_action_of s) in
        (firewall_plan s policy device server_ip).rules
        ≡ server_bypass_firewall_rule server_ip action
          ∷ loopback_firewall_rule action
          ∷ tun_egress_firewall_rule device action
          ∷ kill_switch_firewall_rule policy device action
          ∷ []
  unfolding firewall_plan firewall_rules
  rules_of_plan policy =
      rw
        (kill_switch_action_is_set policy device (firewall_rule_action (table_action_of s))
          (action_is_set s))
        refl

  verdicts :
      (p : String)
      → let rules = (firewall_plan s (normalize_kill_switch_policy p) device server_ip).rules in
        (adds_verdict verdict_drop rules ≡ (can_create_table s && asked p == policy_strict))
        × (adds_verdict verdict_reject rules
            ≡ (can_create_table s && not (asked p == policy_strict) && not (asked p == policy_off)))
  unfolding kill_switch_firewall_rule server_bypass_firewall_rule loopback_firewall_rule
      tun_egress_firewall_rule
  verdicts p = rw (rules_of_plan (normalize_kill_switch_policy p)) (elim (normalized_cases p) [
    | inl (e, n) ↦
        rw (n, e)
          (elim (action_cases s) [
            | inl (a, u) ↦ rw (a, u) (refl, refl)
            | inr (inl (a, u)) ↦ rw (a, u) (refl, refl)
            | inr (inr (a, u)) ↦ rw (a, u) (refl, refl)
          ])
    | inr (inl (e, e', n)) ↦
        rw (n, e, e')
          (elim (Bool-cases (can_create_table s)) [
            | inl u ↦ rw u (refl, refl)
            | inr u ↦ rw u (refl, refl)
          ])
    | inr (inr (e, e', n)) ↦
        rw (n, e, e')
          (elim (action_cases s) [
            | inl (a, u) ↦ rw (a, u) (refl, refl)
            | inr (inl (a, u)) ↦ rw (a, u) (refl, refl)
            | inr (inr (a, u)) ↦ rw (a, u) (refl, refl)
          ])
  ])

  plan-BlocksLast :
      (policy : String) → BlocksLast device (firewall_plan s policy device server_ip).rules
  unfolding kill_switch_firewall_rule server_bypass_firewall_rule loopback_firewall_rule
      tun_egress_firewall_rule
  plan-BlocksLast policy =
      let action = firewall_rule_action (table_action_of s) in
      (
        server_bypass_firewall_rule server_ip action
            ∷ loopback_firewall_rule action
            ∷ tun_egress_firewall_rule device action
            ∷ [],
        kill_switch_firewall_rule policy device action,
        rules_of_plan policy,
        (refl, (refl, (refl, tt))),
        refl,
      )

-- The rules of the plan that are to be added include one that drops exactly if nft can be used, no table of
-- an earlier run stands and the user asked for the strict policy; and one that rejects exactly if the table can
-- be created likewise and the user asked for neither the strict policy nor `off`, so that a policy that is blank
-- or unknown still rejects. The rules of the plan that accept (server, loopback, tunnel) all stand before the last
-- one, which is about what leaves by another interface than the device.
pub kill_switch_matches_request :
    (s : Snapshot) (p : String) (device : TunDevicePlan) (server_ip : String)
    → let rules = (firewall_plan s (normalize_kill_switch_policy p) device server_ip).rules in
      (adds_verdict verdict_drop rules ≡ (can_create_table s && asked p == policy_strict))
      × (adds_verdict verdict_reject rules
          ≡ (can_create_table s && not (asked p == policy_strict) && not (asked p == policy_off)))
      × BlocksLast device rules
kill_switch_matches_request s p device server_ip =
    let (drops, rejects) = verdicts s device server_ip p in
    (drops, rejects, plan-BlocksLast s device server_ip (normalize_kill_switch_policy p))

-- If nft cannot be inspected and no podlaz table is known, no rule of the plan is to be added.
pub blocked_firewall_adds_nothing :
    (s : Snapshot) (policy : String) (device : TunDevicePlan) (server_ip : String)
    → (s.nftables.availability.status == status_detected) ≡ false
    → (s.nftables.podlaz_table.status == status_detected) ≡ false
    → with_action firewall_action_add (firewall_plan s policy device server_ip).rules ≡ false
unfolding table_action_of firewall_rule_action kill_switch_firewall_rule server_bypass_firewall_rule
    loopback_firewall_rule tun_egress_firewall_rule
blocked_firewall_adds_nothing s policy device server_ip h k =
    rw (rules_of_plan s device server_ip policy, h, k)
      (rw (same_either (server_ip == "") action_blocked)
        (elim (Bool-cases (policy == policy_off)) [ inl e ↦ rw e refl | inr e ↦ rw e refl ]))
