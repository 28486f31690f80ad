-- ===== src/Network/Executor/Full/Undone.antt =====
-- What the `Rollback` of the whole executor runs.
use tunwarden.Prelude.{String, ◌≡◌, refl, false, List, [], ◌∷◌, ◌++◌, ◌==◌}
use tunwarden.Text.{trim_space}
use tunwarden.Recovery.Host.{Action, ran, Env, ◌>>=◌, pure, run_command}
use tunwarden.Network.TunPlan.{TunPlan, TunDnsPlan, TunFirewallPlan}
use tunwarden.Network.Executor.Command.{observe_command, run_tool}
use tunwarden.Network.Executor.Tun.{with_error}
use tunwarden.Network.Executor.Undone.{
  is_flush, commands, commands-append, Runs, Runs-bind, Runs-then, undoing, Runs-rollback,
}
use tunwarden.Network.Executor.Resolved.{rollback_dns_plan}
use tunwarden.Network.Executor.Nftables.{validate_owned_firewall_target}
use tunwarden.Network.Executor.Nftables.Run.{rollback_firewall, delete_owned_table}
use tunwarden.Network.Executor.Nftables.Owned.{TargetsOwn}
use tunwarden.Network.Executor.Nftables.Failing.{table_args}
use tunwarden.Network.Executor.Full.{new_os_dns_executor, full_rollback, joined_errors}

module _ (env : Env) where
  Runs-run_tool :
      (name : String) (args : List String)
      → is_flush name args ≡ false
      → Runs ((name ∷ args) ∷ []) (run_tool env name args)
  unfolding run_tool observe_command run_command ◌>>=◌ pure
  Runs-run_tool name args h = record {
    at = λ log. rw (commands-append log (ran name args ∷ []), h) refl;
  }

  Runs-firewall :
      (plan : TunFirewallPlan)
      → TargetsOwn plan
      → Runs (("nft" ∷ table_args "delete") ∷ []) (rollback_firewall env plan)
  unfolding rollback_firewall delete_owned_table validate_owned_firewall_target
  Runs-firewall plan own =
      rw (own.0, own.1) (Runs-then _ _ _ (Runs-run_tool "nft" (table_args "delete") refl))

  Runs-dns :
      (plan : TunDnsPlan)
      → (trim_space plan.target_link == "") ≡ false
      → Runs
          (("resolvectl" ∷ "revert" ∷ trim_space plan.target_link ∷ []) ∷ [])
          (rollback_dns_plan env plan)
  unfolding rollback_dns_plan
  Runs-dns plan h = rw h (Runs-then _ _ _ (Runs-run_tool "resolvectl" _ refl))

  Runs-full_rollback :
      (plan : TunPlan)
      → TargetsOwn plan.firewall
      → (trim_space plan.dns.target_link == "") ≡ false
      → Runs
          (("nft" ∷ table_args "delete")
            ∷ ("resolvectl" ∷ "revert" ∷ trim_space plan.dns.target_link ∷ [])
            ∷ undoing plan)
          (full_rollback (new_os_dns_executor env) plan)
  unfolding full_rollback new_os_dns_executor
  Runs-full_rollback plan own link =
      rw (own.1, link)
        (Runs-bind _ _ _ _ (Runs-then _ _ (with_error []) (Runs-firewall plan.firewall own))
          (λ errors.
            Runs-bind _ _ _ _ (Runs-then _ _ (with_error errors) (Runs-dns plan.dns link))
              (λ errors'.
                Runs-then _ _ (λ base. with_error errors' (joined_errors base))
                  (Runs-rollback env plan))))

-- For a plan with the program's own table and a link, `Rollback` of the whole executor runs, besides
-- `ip -4 route flush cache`, exactly these commands, whichever of them fail: it deletes the table, then reverts the DNS of the link,
-- and only then takes back the rules, the routes and the device.
pub full_rollback_tries_everything :
    (env : Env) (plan : TunPlan) (log : List Action)
    → TargetsOwn plan.firewall
    → (trim_space plan.dns.target_link == "") ≡ false
    → commands (full_rollback (new_os_dns_executor env) plan log).1
      ≡ commands log
        ++ (("nft" ∷ table_args "delete")
            ∷ ("resolvectl" ∷ "revert" ∷ trim_space plan.dns.target_link ∷ [])
            ∷ undoing plan)
full_rollback_tries_everything env plan log own link = (Runs-full_rollback env plan own link).at log
