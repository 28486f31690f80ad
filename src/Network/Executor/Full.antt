-- ===== src/Network/Executor/Full.antt =====
-- internal/network/executor/dns_resolved.go: `DNSAwareTunExecutor`, over the executor of tun.go.
pub mod Undone
pub mod Planned
use tunwarden.Prelude.{
  String, Bool, not, ◌||◌, Option, none, some, List, [], ◌∷◌, ◌++◌, if◌then◌else◌, ◌==◌,
}
use tunwarden.Result.{Result, ok, err}
use tunwarden.Text.{◌<>◌, trim_space, join}
use tunwarden.Recovery.Host.{Env, M, ◌>>=◌, pure}
use tunwarden.Network.TunPlan.{TunPlan, TunDnsPlan, TunFirewallPlan}
use tunwarden.Network.Executor.Command.{Step, wrapped, joined}
use tunwarden.Network.Executor.Tun
use tunwarden.Network.Executor.Tun.{Part, TunExecutor, Applied, new_os_executor, with_error}
use tunwarden.Network.Executor.Resolved.{
  validate_dns_plan, should_apply_dns, apply_dns, verify_dns, rollback_dns_plan,
}
use tunwarden.Network.Executor.Nftables.{validate_firewall_plan, should_apply_firewall}
use tunwarden.Network.Executor.Nftables.Run.{apply_firewall, verify_firewall, rollback_firewall}

-- with executors that are all there
pub record DnsAwareTunExecutor : Type 0 where
  pub base : TunExecutor
  pub dns : Part TunDnsPlan
  pub firewall : Part TunFirewallPlan

unfoldable pub new_os_dns_executor : Env → DnsAwareTunExecutor
unfolding new_os_executor
new_os_dns_executor env = record {
  base = new_os_executor env;
  dns = record { add = apply_dns env; verify = verify_dns env; undo = rollback_dns_plan env };
  firewall = record {
    add = apply_firewall env;
    verify = verify_firewall env;
    undo = rollback_firewall env;
  };
}

unfoldable pub has_firewall_plan : TunFirewallPlan → Bool
has_firewall_plan plan =
    not (trim_space plan.backend == "")
    || not (trim_space plan.family == "")
    || not (trim_space plan.table == "")
    || not (trim_space plan.table_action == "")

-- `validate`
unfoldable pub validate_plan : TunPlan → Option String
unfolding has_firewall_plan
validate_plan plan = elim (validate_dns_plan plan.dns) [
  | some m ↦ some m
  | none ↦ if has_firewall_plan plan.firewall then validate_firewall_plan plan.firewall else none
]

-- what `Apply` does with the outcome of one of the two parts
unfoldable pub part_applied :
    {P : Type 0}
    → Part P
    → P
    → String
    → List Step
    → (List Step → M Applied)
    → Result String Step
    → M Applied
part_applied part x what steps next (ok step) = next (steps ++ step ∷ [])
part_applied part x what steps next (err m) = part.undo x >>= λ e.
    pure (steps, some (joined m (wrapped ("rollback " <> what <> " after failed apply") e)))

unfoldable pub apply_part :
    {P : Type 0} → Part P → P → String → Bool → (List Step → M Applied) → List Step → M Applied
unfolding part_applied
apply_part part x what wanted next steps =
    if wanted then (part.add x >>= part_applied part x what steps next) else next steps

-- the errors of a rollback as one, if there are any
unfoldable pub joined_errors : List String → Option String
joined_errors [] = none
joined_errors (e ∷ errors) = some (join "\n" (e ∷ errors))

module _ (executor : DnsAwareTunExecutor) where
  unfoldable pub after_base : TunPlan → Applied → M Applied
  unfolding apply_part
  after_base plan (steps, some m) = pure (steps, some m)
  after_base plan (steps, none) =
      apply_part executor.dns plan.dns "DNS" (should_apply_dns plan.dns)
        (apply_part executor.firewall plan.firewall "nftables" (should_apply_firewall plan.firewall)
          (λ steps. pure (steps, none)))
        steps

  unfoldable pub full_apply : TunPlan → M Applied
  unfolding after_base
  full_apply plan = elim (validate_plan plan) [
    | some m ↦ pure ([], some m)
    | none ↦ Tun.apply executor.base plan >>= after_base plan
  ]

  unfoldable pub verify_firewall_part : TunPlan → M (Option String)
  verify_firewall_part plan =
      if should_apply_firewall plan.firewall
      then executor.firewall.verify plan.firewall
      else pure none

  unfoldable pub verify_parts : TunPlan → M (Option String)
  unfolding verify_firewall_part
  verify_parts plan =
      if should_apply_dns plan.dns
      then (executor.dns.verify plan.dns >>= λ e. elim e [
        | some m ↦ pure (some m)
        | none ↦ verify_firewall_part plan
      ])
      else verify_firewall_part plan

  unfoldable pub full_verify : TunPlan → M (Option String)
  unfolding verify_parts
  full_verify plan = elim (validate_plan plan) [
    | some m ↦ pure (some m)
    | none ↦ Tun.verify executor.base plan >>= λ e. elim e [
      | some m ↦ pure (some m)
      | none ↦ verify_parts plan
    ]
  ]

  -- the errors that it joins
  unfoldable pub full_rollback : TunPlan → M (List String)
  unfolding joined_errors
  full_rollback plan =
      (if not (trim_space plan.firewall.table == "")
        then (executor.firewall.undo plan.firewall >>= λ e. pure (with_error [] e))
        else pure [])
      >>= λ errors.
          (if not (trim_space plan.dns.target_link == "")
            then (executor.dns.undo plan.dns >>= λ e. pure (with_error errors e))
            else pure errors)
          >>= λ errors. Tun.rollback executor.base plan >>= λ base.
              pure (with_error errors (joined_errors base))
